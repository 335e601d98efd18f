-- ===== src/Queues/Bounds.antt =====
-- The indices of both rings, whatever the controller puts into the completion memory.
use native.Mathlib.Nat.{mod-lt}
use vroom.Common.{ℕ, zero, suc, ◌+◌, ◌≤◌, ◌<◌, Option, none, some, arith, lt→ltb}
use vroom.Common.Keeps.{Gives}
use vroom.Common.Outcome
use vroom.Common.Outcome.{Outcome, ok, err, panic, spin}
use vroom.Command.{NvmeCommand}
use vroom.Queues.Entry.{queue_length}
use vroom.Queues.Submission.{SubmissionQueue, submit, submit_checked, is_full}
use vroom.Queues.Completion.{
  CompletionQueue, CqMemory, Completed, complete, complete_spin, complete_n, skip,
}

-- The tail of a submission ring, and the head of a completion ring, are slots of the ring, which
-- fits its memory.
pub record HasTail (q : SubmissionQueue) : Type 0 where
  pub fits : q.len ≤ queue_length
  pub within : q.tail < q.len

pub record HasHead (q : CompletionQueue) : Type 0 where
  pub fits : q.len ≤ queue_length
  pub within : q.head < q.len

Gives-bind :
    {A B : Type 0} {P : A → Type 0} (Q : B → Type 0) (r : Outcome A) (f : A → Outcome B)
    → Gives P r
    → ((a : A) → P a → Gives Q (f a))
    → Gives Q (Outcome.◌>>=◌ r f)
Gives-bind Q (ok a) f p next = next a p
Gives-bind Q (err e) f p next = tt
Gives-bind Q panic f p next = tt
Gives-bind Q spin f p next = tt

pub submit-HasTail :
    (c : NvmeCommand) (q : SubmissionQueue) → HasTail q → Gives (λ r. HasTail r.1) (submit c q)
unfolding submit
submit-HasTail c q t = ground (arith, t.fits, t.within, mod-lt (q.tail + 1) {m = q.len})

pub submit_checked-HasTail :
    (c : NvmeCommand) (q : SubmissionQueue)
    → HasTail q
    → Gives (λ r. HasTail r.1) (submit_checked c q)
unfolding submit_checked submit is_full
submit_checked-HasTail c q t = ground (arith, t.fits, t.within, mod-lt (q.tail + 1) {m = q.len})

complete-HasHead :
    (mem : CqMemory) (q : CompletionQueue) → HasHead q → Gives (λ r. HasHead r.1) (complete mem q)
unfolding complete
complete-HasHead mem q h = ground (arith, h.fits, h.within, mod-lt (q.head + 1) {m = q.len})

skip-HasHead : (n : ℕ) (q : CompletionQueue) → HasHead q → HasHead (skip n q)
unfolding skip
skip-HasHead n q h = record { fits = h.fits; within = mod-lt _ (omega (arith, h.within)) }

pub complete_spin-HasHead :
    (v : ℕ → CqMemory) (fuel t : ℕ) (q : CompletionQueue)
    → HasHead q
    → Gives (λ r. HasHead r.1) (complete_spin v fuel t q)
unfolding complete_spin
complete_spin-HasHead v zero t q h = tt
complete_spin-HasHead v (suc fuel) t q h =
    Gives-bind _ (complete (v t) q)
      (λ x. elim x.0 [ none ↦ complete_spin v fuel (t + 1) x.1 | some c ↦ ok (c, x.1, t + 1) ])
      (complete-HasHead (v t) q h)
      (λ (r, q') h'. polled r q' h' (complete_spin-HasHead v fuel (t + 1) q'))
  where
    polled :
        (r : Option Completed) (q' : CompletionQueue)
        → HasHead q'
        → (HasHead q' → Gives (λ x. HasHead x.1) (complete_spin v fuel (t + 1) q'))
        → Gives
            (λ x. HasHead x.1)
            (elim r as (λ x. Outcome (Completed × CompletionQueue × ℕ)) [
              | none ↦ complete_spin v fuel (t + 1) q'
              | some c ↦ ok (c, q', t + 1)
            ])
    polled none q' h' rest = rest h'
    polled (some c) q' h' rest = h'

pub complete_n-HasHead :
    (v : ℕ → CqMemory) (fuel t n : ℕ) (q : CompletionQueue)
    → HasHead q
    → Gives (λ r. HasHead r.1) (complete_n v fuel t n q)
unfolding complete_n
complete_n-HasHead v fuel t n q h = rw (lt→ltb 0 q.len (omega (arith, h.within))) (
    Gives-bind _ (complete_spin v fuel t (skip n q)) _
      (complete_spin-HasHead v fuel t (skip n q) (skip-HasHead n q h)) (λ x h'. h'))
