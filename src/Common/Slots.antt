-- ===== src/Common/Slots.antt =====
-- Rings of `len` slots: the slot and the lap of the `p`-th item that passes through one, and memory
-- as a function of the slot.
use Prim.Native.Nat.{ℕ, zero, suc, ◌+◌, ◌*◌, ◌/◌, ◌%◌, ◌<◌, compare, Ordering}
use mathlib.Core.Path.{◌≡◌, sym, ◌∙◌, ap}
use mathlib.Core.Logic.{◌≢◌}
use mathlib.Core.Bool.{Bool, true, not}
use native.Mathlib.Nat.{
  mod-lt, mod_self, mod-eq_of_lt, mod-add-mod, add-div_right, add-mod_right, div-add-mod', suc-mul,
  mul-le-mul_right, div-eq_of_lt-le,
}
use native.Mathlib.Decide.{dec_lt}
use native.Mathlib.Omega.{arith}

unfoldable pub update {ℓ} : {A : Type ℓ} → (ℕ → A) → ℕ → A → ℕ → A
update f i v j = elim (compare i j) [ Ordering.eq ↦ v | _ ↦ f j ]

pub update_self {ℓ} : {A : Type ℓ} (f : ℕ → A) (i : ℕ) (v : A) → update f i v i ≡ v
unfolding update
update_self f i v = ground arith

pub update_ne {ℓ} : {A : Type ℓ} (f : ℕ → A) {i j : ℕ} (v : A) → i ≢ j → update f i v j ≡ f j
unfolding update
update_ne f v ne = ground arith

unfoldable pub is_even : ℕ → Bool
is_even zero = true
is_even (suc n) = not (is_even n)

-- One lap later: the same slot, the other parity.
pub lap_later :
    (len p : ℕ)
    → 0 < len
    → ((p + len) % len ≡ p % len) × (is_even ((p + len) / len) ≡ not (is_even (p / len)))
unfolding is_even
lap_later len p pos = (
  add-mod_right p len,
  ap is_even (add-div_right p pos ∙ (let e : p / len + 1 ≡ suc (p / len) = omega arith in e)),
)

slots_apart : (len x y r a b : ℕ) → x * len + r ≡ a → y * len + r ≡ b → a < b → b < a + len → ⊥
slots_apart len x y r a b ea eb lt near = elim (dec_lt x y) [
  | yes h ↦ omega (arith, mul-le-mul_right len h, suc-mul x len)
  | no h ↦ omega (arith, mul-le-mul_right {m = y} {n = x} len (omega arith))
]

-- Fewer than `len` steps round the ring do not come back to the same slot.
pub slot-ne : (len a b : ℕ) → a < b → b < a + len → a % len ≢ b % len
slot-ne len a b lt near e =
    slots_apart len (a / len) (b / len) (a % len) a b (div-add-mod' a len)
      (ap (λ r. b / len * len + r) e ∙ div-add-mod' b len) lt near

-- The next slot follows this one, going round at `len`.
pub slot_step : (len p : ℕ) → (p + 1) % len ≡ (p % len + 1) % len
slot_step len p = sym (mod-add-mod p len 1)

-- The lap, hence its parity, goes up exactly when the slot comes back to 0.
pub lap_step :
    (len p : ℕ)
    → 0 < len
    → ((p % len + 1) % len ≡ 0 → (p + 1) / len ≡ suc (p / len))
      × ((p % len + 1) % len ≢ 0 → (p + 1) / len ≡ p / len)
lap_step len p pos = (
  λ wraps.
      div-eq_of_lt-le len (omega (arith, last wraps, whole, suc-mul (p / len) len))
        (omega (arith, last wraps, whole, suc-mul (p / len) len, suc-mul (suc (p / len)) len)),
  λ goes.
      div-eq_of_lt-le len (omega (arith, inner goes, whole))
        (omega (arith, inner goes, whole, suc-mul (p / len) len)),
)
  where
    whole : p / len * len + p % len ≡ p
    whole = div-add-mod' p len

    last : (p % len + 1) % len ≡ 0 → p % len + 1 ≡ len
    last e = grind (arith, mod-lt p {m = len} pos, mod-eq_of_lt {n = p % len + 1} {m = len})

    inner : (p % len + 1) % len ≢ 0 → p % len + 1 < len
    inner e = grind (arith, mod-lt p {m = len} pos, mod_self len)

-- The parity of the lap turns exactly when the slot comes back to 0.
pub parity_step :
    (len p : ℕ)
    → 0 < len
    → is_even ((p + 1) / len) ≡ elim (compare ((p % len + 1) % len) 0) [
      | Ordering.eq ↦ not (is_even (p / len))
      | _ ↦ is_even (p / len)
    ]
unfolding is_even
parity_step len p pos = ground (arith, lap_step len p pos)

-- A jump of less than one round turns the parity exactly when it passes the end of the ring.
pub parity_jump :
    (len p m : ℕ)
    → 0 < len
    → m < len
    → is_even ((p + m) / len) ≡ elim (compare len (p % len + m)) [
      | Ordering.gt ↦ is_even (p / len)
      | _ ↦ not (is_even (p / len))
    ]
unfolding is_even
parity_jump len p m pos lt =
    let whole = div-add-mod' p len in
    elim (dec_lt (p % len + m) len) [
      | yes h ↦
          let e : (p + m) / len ≡ p / len =
            div-eq_of_lt-le len (omega (arith, whole))
              (omega (arith, whole, suc-mul (p / len) len)) in
          ground (arith, e)
      | no h ↦
          let e : (p + m) / len ≡ suc (p / len) =
            div-eq_of_lt-le len (omega (arith, whole, suc-mul (p / len) len)) (
              omega
                (arith, whole, mod-lt p pos, suc-mul (p / len) len, suc-mul (suc (p / len)) len)) in
          ground (arith, e)
    ]
