-- ===== src/Examples.antt =====
-- What the programs under examples/ share: the state of a thread with a queue pair of its own, and
-- what it learns from outside.
pub mod Throughput
pub mod Latency
pub mod Fill
mod Tests
use vroom.Common.{
  ◌≡◌, ap, ℕ, zero, suc, ◌+◌, ◌*◌, ◌==◌, Bool, true, false, Option, none, some, List, if◌then◌else◌,
}
use vroom.Common.Words.{u64, sub_u64}
use vroom.Common.Stateful.{Stateful, pure, lift, ◌>>=◌, ◌>>◌}
use vroom.Common.Outcome.{Outcome, ok, err, panic, spin}
use vroom.Memory.Dma.{Dma, slice}
use vroom.Host.{Host, Controller}
use vroom.Pair.{NvmeQueuePair, quick_poll, complete_io, submit_io}
use vroom.Device.State.{Machine, Action}

-- What one turn of a loop gets: the block that `gen_range` picks, and the time that the turn takes.
pub record Turn : Type 0 where
  pub random : ℕ
  pub elapsed : ℕ

-- The variables of a thread. `latencies` is the number of the latencies that it has pushed, without
-- the times.
pub record Load : Type 0 where
  pub qpair : NvmeQueuePair
  pub host : Host
  pub outstanding_ops : ℕ
  pub total_io_ops : ℕ
  pub total : ℕ
  pub latencies : ℕ

abbrev pub Work : Type 0 → Type 0
Work A = Stateful Load A

-- `let blocks = 8`, `let bytes = 512 * blocks`
abbrev pub blocks : ℕ
blocks = 8

abbrev pub bytes : ℕ
bytes = 4096

-- A method of the thread's queue pair.
abbrev pub on_pair :
    {A : Type 0} → (NvmeQueuePair → Host → Outcome (A × NvmeQueuePair × Host)) → Work A
on_pair call l = elim (call l.qpair l.host) [
  | ok (a, qp, h) ↦ (ok a, record l { qpair = qp; host = h })
  | err e ↦ (err e, l)
  | panic ↦ (panic, l)
  | spin ↦ (spin, l)
]

pub on_pair-ok :
    {A : Type 0} (call : NvmeQueuePair → Host → Outcome (A × NvmeQueuePair × Host)) (l : Load)
    {a : A} {qp : NvmeQueuePair} {h : Host}
    → call l.qpair l.host ≡ ok (a, qp, h)
    → on_pair call l ≡ (ok a, record l { qpair = qp; host = h })
on_pair-ok {A} call l e =
    ap
      (λ (r : Outcome (A × NvmeQueuePair × Host)). elim r as (λ x. Outcome A × Load) [
        | ok (a, qp, h) ↦ (ok a, record l { qpair = qp; host = h })
        | err e ↦ (err e, l)
        | panic ↦ (panic, l)
        | spin ↦ (spin, l)
      ])
      e

abbrev pub update : (Load → Load) → Work (Unit {0})
update f l = (ok tt, f l)

-- `outstanding_ops -= 1; total_io_ops += 1`
abbrev pub one_done : Load → Load
one_done l = record l {
  outstanding_ops = sub_u64 l.outstanding_ops 1;
  total_io_ops = u64 (l.total_io_ops + 1);
}

-- `qpair.submit_io` for the part of the buffer that the number of outstanding operations names.
abbrev pub submit_part : Dma → ℕ → Bool → Work ℕ
submit_part buffer lba write l =
    (do
      part ← lift (
          slice buffer (record {
            start = u64 (l.outstanding_ops * bytes);
            stop = u64 (u64 (l.outstanding_ops + 1) * bytes);
          }))
      on_pair (submit_io part lba write))
      l

module _ (ctl : Controller) where
  -- `while qpair.quick_poll().is_some()`, for at most `fuel` polls, with what is done for each.
  unfoldable pub poll_all : (Load → Load) → ℕ → Work (Unit {0})
  poll_all each zero = lift spin
  poll_all each (suc fuel) = do
    r ← on_pair (quick_poll ctl)
    elim r [ none ↦ pure tt | some u ↦ (do update each; poll_all each fuel) ]

-- `unwrap` on a `Result`
abbrev pub or_panic : {W A : Type 0} → Action W A → Action W A
or_panic m s =
    let (r, s') = m s in
    elim r [ ok a ↦ (ok a, s') | err e ↦ (panic, s') | panic ↦ (panic, s') | spin ↦ (spin, s') ]
