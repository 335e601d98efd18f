-- ===== src/Common/Window.antt =====
-- A window of a ring: the items in `n` slots from position `p` on, oldest first.
use native.Mathlib.Nat.{add-zero, mod-add-mod}
use vroom.Common.Slots.{update, update_self, update_ne, slot-ne}
use vroom.Common.{
  ℕ, zero, suc, ◌+◌, ◌%◌, ◌<◌, ◌≡◌, refl, sym, ◌∙◌, ap, ap₂, List, [], ◌∷◌, ◌++◌, length, drop,
  arith,
}

pub later : (t k : ℕ) → t + suc k ≡ t + 1 + k
later t k = omega arith

module _ {ℓ} {A : Type ℓ} where
  abbrev pub window : (ℕ → A) → ℕ → ℕ → ℕ → List A
  window f len p zero = []
  window f len p (suc n) = f (p % len) ∷ window f len (p + 1) n

  pub length-window : (f : ℕ → A) (len p n : ℕ) → length (window f len p n) ≡ n
  length-window f len p zero = refl
  length-window f len p (suc n) = ap suc (length-window f len (p + 1) n)

  -- A write behind the window extends it by the item.
  pub window-update :
      (f : ℕ → A) (len p n s : ℕ) (a : A)
      → n < len
      → s ≡ (p + n) % len
      → window (update f s a) len p (suc n) ≡ window f len p n ++ (a ∷ [])
  window-update f len p zero s a lt at = rw (at, add-zero, update_self f (p % len) a) refl
  window-update f len p (suc n) s a lt at =
      ap₂ ◌∷◌
        (update_ne f a
          λ s'. slot-ne len p (p + suc n) (omega arith) (omega arith) (sym (sym at ∙ s')))
        (window-update f len (p + 1) n s a (omega arith) (at ∙ ap (λ k. k % len) (later p n)))

  -- Only the slot of the position matters.
  pub window-mod :
      (f : ℕ → A) (len p p' n : ℕ) → p % len ≡ p' % len → window f len p n ≡ window f len p' n
  window-mod f len p p' zero e = refl
  window-mod f len p p' (suc n) e = ap₂ ◌∷◌ (ap f e) (
      window-mod f len (p + 1) (p' + 1) n
        (sym (mod-add-mod p len 1) ∙ ap (λ r. (r + 1) % len) e ∙ mod-add-mod p' len 1))

  -- Without its first `k` items a window is the window from `k` positions on.
  pub drop-window :
      (f : ℕ → A) (len p k m n : ℕ) → m ≡ k + n → drop k (window f len p m) ≡ window f len (p + k) n
  drop-window f len p zero m n e =
      let same_size : m ≡ n = omega arith in rw (same_size, add-zero) refl
  drop-window f len p (suc k) zero n e = absurd (omega arith)
  drop-window f len p (suc k) (suc m) n e =
      rw (later p k) (drop-window f len (p + 1) k m n (omega arith))
