-- ===== src/Queues/Completion/Spin.antt =====
-- The busy-wait loop `complete_spin`.
use native.Mathlib.Nat.{add-zero}
use vroom.Common.{◌∙◌, ℕ, zero, suc, ◌+◌, ◌%◌, ◌<◌, ◌≡◌, refl, true, false, arith}
use vroom.Common.Window.{later}
use vroom.Common.Outcome.{ok, spin}
use vroom.Queues.Completion.{CompletionQueue, CqMemory, complete_spin}
use vroom.Queues.Completion.Position.{At, is_posted, after, complete_lem}

module _ (view : ℕ → CqMemory) {p : ℕ} {q : CompletionQueue} (at : At p q) where
  found :
      (fuel t : ℕ)
      → is_posted (view t) q.len p ≡ true
      → complete_spin view (suc fuel) t q
        ≡ ok (((p + 1) % q.len, view t (p % q.len), p % q.len), after (p + 1) q, t + 1)
  unfolding complete_spin
  found fuel t e = rw ((complete_lem at (view t)).0 e) refl

  missed :
      (fuel t : ℕ)
      → is_posted (view t) q.len p ≡ false
      → complete_spin view (suc fuel) t q ≡ complete_spin view fuel (t + 1) q
  unfolding complete_spin
  missed fuel t e = rw ((complete_lem at (view t)).1 e) refl

  -- If the entry that the queue waits for is first seen at poll `k`, and at least `k + 1` polls are
  -- allowed, the loop ends right after that poll with that entry, and the queue has taken one more.
  pub complete_spin_found :
      (k fuel t : ℕ)
      → k < fuel
      → ((j : ℕ) → j < k → is_posted (view (t + j)) q.len p ≡ false)
      → is_posted (view (t + k)) q.len p ≡ true
      → complete_spin view fuel t q
        ≡ ok (((p + 1) % q.len, view (t + k) (p % q.len), p % q.len), after (p + 1) q, t + k + 1)
  complete_spin_found k zero t lt before seen = absurd (omega arith)
  complete_spin_found zero (suc fuel) t lt before seen =
      rw add-zero (found fuel t (rw add-zero at seen))
  complete_spin_found (suc k) (suc fuel) t lt before seen =
      let now : is_posted (view t) q.len p ≡ false = rw add-zero at (before 0 (omega arith)) in
      rw (missed fuel t now, later t k)
        (complete_spin_found k fuel (t + 1) (omega arith)
          (λ j h. rw (later t j) at (before (suc j) (omega arith))) (rw (later t k) at seen))

  -- While the entry is not seen the loop goes on: it ends by no other way.
  pub complete_spin_waits :
      (fuel t : ℕ)
      → ((j : ℕ) → j < fuel → is_posted (view (t + j)) q.len p ≡ false)
      → complete_spin view fuel t q ≡ spin
  unfolding complete_spin
  complete_spin_waits zero t none_seen = refl
  complete_spin_waits (suc fuel) t none_seen =
      let now : is_posted (view t) q.len p ≡ false = rw add-zero at (none_seen 0 (omega arith)) in
      missed fuel t now
      ∙ complete_spin_waits fuel (t + 1)
          (λ j h. rw (later t j) at (none_seen (suc j) (omega arith)))
