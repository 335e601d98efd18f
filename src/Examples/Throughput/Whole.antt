-- ===== src/Examples/Throughput/Whole.antt =====
-- A whole load, from a new queue pair to the empty queue.
use native.Mathlib.Nat.{zero-mod}
use vroom.Common.{ℕ, ◌*◌, ◌≤◌, ◌<◌, ◌≡◌, ◌∙◌, ap, Bool, true, List, length, arith}
use vroom.Common.Stateful.{bind-ok}
use vroom.Common.Outcome.{ok}
use vroom.Memory.Dma.{Dma}
use vroom.Memory.Dma.Views.{IsMapped}
use vroom.Host.{Host, Controller}
use vroom.Queues.Submission.{SubmissionQueue, is_empty}
use vroom.Queues.Completion.{CompletionQueue}
use vroom.Queues.Completion.Position.{At, after_self}
use vroom.Examples.{Turn, Load}
use vroom.Examples.Throughput.{turns, finish, work}
use vroom.Examples.Throughput.Steps.{writes, Serves, Spot, load_at, Consistent, Setting}
use vroom.Examples.Throughput.Loop.{spent, Made, turns_lem}
use vroom.Examples.Throughput.Finish.{finish_lem}

-- The variables of a thread before its loop.
abbrev pub new_load : ℕ → SubmissionQueue → CompletionQueue → Host → Load
new_load id sq cq h = record {
  qpair = record { id = id; sub_queue = sq; comp_queue = cq };
  host = h;
  outstanding_ops = 0;
  total_io_ops = 0;
  total = 0;
  latencies = 0;
}

abbrev first_spot : SubmissionQueue → Host → Spot
first_spot sq h = record {
  n = 0;
  p = 0;
  f = 0;
  entries = sq.entries;
  log = h.log;
  clock = h.clock;
  total = 0;
}

new_lem :
    (id : ℕ) (sq : SubmissionQueue) (cq : CompletionQueue) (h : Host)
    → At 0 cq
    → sq.head ≡ 0
    → sq.tail ≡ 0
    → new_load id sq cq h ≡ load_at id sq cq 0 (first_spot sq h)
new_lem id sq cq h at head tail = ground (arith, after_self at, head, tail, zero-mod sq.len)

-- A load on a new queue pair, whose tail doorbell was never rung, ends without a panic, whatever the
-- random blocks are and whatever the controller does within `Serves`: the turns made are those that
-- begin before the time is up; one command is submitted and counted for each of them, every
-- completion is taken, and the submission queue is empty at the end. The namespace has blocks; the
-- mapped buffer holds a part for each of the operations outstanding at a time; these are fewer than
-- the slots of the queues and than the polls allowed; and the turns at hand reach the duration, and
-- are no more than the commands that `Serves` speaks of.
pub work_lem :
    (ctl : Controller) (id : ℕ) (sq : SubmissionQueue) (cq : CompletionQueue) (h : Host)
    (limit depth fuel : ℕ) (ns_blocks duration : ℕ) (random write : Bool) (buffer : Dma)
    (ts : List Turn) (elapsed : ℕ)
    → Serves ctl sq cq limit depth fuel
    → Setting sq cq limit depth
    → sq.head ≡ 0
    → sq.tail ≡ 0
    → writes sq.doorbell h.log ≡ 0
    → 0 < ns_blocks
    → IsMapped buffer
    → depth * 4096 ≤ buffer.size
    → depth < fuel
    → length ts ≤ limit
    → duration ≤ spent ts
    → (m : ℕ) × (l : Load) × (work ctl fuel depth ns_blocks duration random write buffer ts elapsed
          (new_load id sq cq h)
        ≡ (ok tt, l))
      × Made duration 0 ts m
      × (l.total_io_ops ≡ m)
      × (writes sq.doorbell l.host.log ≡ m)
      × At m l.qpair.comp_queue
      × (is_empty l.qpair.sub_queue ≡ true)
unfolding work
work_lem ctl id sq cq h limit depth fuel ns_blocks duration random write buffer ts elapsed serves
      set head tail silent pos mapped fits enough few long =
    let s : Spot = first_spot sq h in
    let c : Consistent sq limit depth s = record {
      taken = omega arith;
      read = omega arith;
      bounded = omega arith;
      room = omega arith;
      rung = silent;
    } in
    let loop =
      turns_lem ctl id sq cq limit depth fuel 0 serves set ns_blocks duration random write buffer ts
        s pos mapped fits enough c (omega arith) (omega arith) in
    let last =
      finish_lem ctl id sq cq limit depth fuel 0 serves set ns_blocks duration random write buffer
        elapsed loop.1 loop.3 in
    let count : loop.1.n ≡ loop.0 = omega (arith, loop.4) in
    (
      loop.0,
      last.0,
      ap (work ctl fuel depth ns_blocks duration random write buffer ts elapsed)
            (new_lem id sq cq h set.start head tail)
          ∙ bind-ok (turns ctl fuel depth ns_blocks duration random write buffer ts)
              (λ u. finish ctl fuel depth ns_blocks duration random write buffer elapsed) loop.2
          ∙ last.1,
      loop.5,
      last.2 ∙ count,
      last.3 ∙ count,
      rw count at last.4,
      last.5,
    )
