-- ===== src/Examples/Throughput.antt =====
-- examples/throughput.rs: the loads that measure the throughput. What is printed, the rates, and the random bytes that
-- the buffer is filled with are left out.
pub mod Steps
pub mod Sends
pub mod Turns
pub mod Loop
pub mod Finish
pub mod Whole
use mathlib.Core.Option
use vroom.Common.{
  ℕ, zero, suc, ◌+◌, ◌-◌, ◌*◌, ◌/◌, ◌%◌, ◌==◌, ltb, Bool, true, false, not, Option, none, some,
  List, [], ◌∷◌, if◌then◌else◌,
}
use vroom.Common.Words.{u64, sub_u64}
use vroom.Common.Stateful.{Stateful, get, pure, lift, unwrap, ◌>>=◌, ◌>>◌}
use vroom.Common.Outcome.{Outcome, ok, err, panic, spin, assert}
use vroom.Memory.Dma.{Dma, slice, index_range, index_to}
use vroom.Memory.Pagesize.{pagesize_4kib}
use vroom.Mapping.{Mapping}
use vroom.Command.{NvmeCommand}
use vroom.Host.{Host, Controller}
use vroom.Queues.Entry.{queue_length}
use vroom.Queues.Submission.{is_empty}
use vroom.Pair.{NvmeQueuePair, complete_io}
use vroom.Device.State.{NvmeNamespace, Machine, Action, gets, lookup}
use vroom.Device.Admin.{create_io_queue_pair, delete_io_queue_pair}
use vroom.Device.Allocator.{allocate}
use vroom.Device.Io.{transfer}
use vroom.Examples.{
  Turn, Load, Work, blocks, bytes, on_pair, update, one_done, submit_part, poll_all, or_panic,
}

-- The block of a turn. Without `random` the inner `lba` shadows the outer one, which stays 0.
abbrev pub pick : Bool → ℕ → Turn → ℕ
pick random ns_blocks t = if random then t.random else (0 + 1) % ns_blocks

module _ (ctl : Controller) (fuel queue_depth ns_blocks duration : ℕ) (random write : Bool)
    (buffer : Dma) where
  -- `if outstanding_ops == queue_depth`
  unfoldable pub make_room : Work (Unit {0})
  make_room l =
      (if l.outstanding_ops == queue_depth
          then (do on_pair (complete_io ctl fuel 1); update one_done)
          else pure tt)
        l

  -- One turn of the loop of a thread. `gen_range` and `%` panic if there are no blocks.
  unfoldable pub turn : Turn → Work (Unit {0})
  turn t = do
    lift (assert (ltb 0 ns_blocks))
    poll_all ctl one_done fuel
    make_room
    submit_part buffer (u64 (pick random ns_blocks t * blocks)) write
    update
        λ l. record l { total = l.total + t.elapsed; outstanding_ops = u64 (l.outstanding_ops + 1) }

  -- `while total < duration`, for the turns at hand.
  unfoldable pub turns : List Turn → Work (Unit {0})
  turns [] l = (if ltb l.total duration then spin else ok tt, l)
  turns (t ∷ ts) l = elim (ltb l.total duration) [
    | true ↦ (do turn t; turns ts) l
    | false ↦ (ok tt, l)
  ]

  -- What follows the loop, up to the assertion. `elapsed` is the time that the last wait takes.
  unfoldable pub finish : ℕ → Work (Unit {0})
  finish elapsed = do
    l ← get
    if not (l.outstanding_ops == 0)
        then (do
          on_pair (complete_io ctl fuel l.outstanding_ops)
          update λ l. record l { total = l.total + elapsed })
        else pure tt
    update λ l. record l { total_io_ops = u64 (l.total_io_ops + l.outstanding_ops) }
    l ← get
    lift (assert (is_empty l.qpair.sub_queue))

  unfoldable pub work : List Turn → ℕ → Work (Unit {0})
  work ts elapsed = do turns ts; finish elapsed

-- The namespaces' size in units of 8 blocks.
abbrev pub units : {W : Type 0} → Action W ℕ
units = do ns ← gets (λ d. lookup 1 d.namespaces); found ← unwrap ns; pure (found.blocks / blocks)

module _ (ctl : Controller) (fuel : ℕ) (m : Mapping) (fresh_memory : Dma → ℕ → NvmeCommand) where
  open m use {World}

  -- The state of a thread before its loop, and the machine behind it.
  abbrev fresh_load : NvmeQueuePair → Host → Load
  fresh_load qpair h = record {
    qpair = qpair;
    host = h;
    outstanding_ops = 0;
    total_io_ops = 0;
    total = 0;
    latencies = 0;
  }

  abbrev pub run_load : Work (Unit {0}) → NvmeQueuePair → Action World Load
  run_load w qpair s =
      let (r, l) = w (fresh_load qpair s.host) in
      let s' = record s { host = l.host } in
      elim r [ ok u ↦ (ok l, s') | err e ↦ (err e, s') | panic ↦ (panic, s') | spin ↦ (spin, s') ]

  -- The body of one thread of `qd_n_multithread`, which runs alone here. The result is the number of operations.
  unfoldable pub thread :
      (queue_depth ns_blocks duration : ℕ) (random write : Bool) (ts : List Turn) (elapsed : ℕ)
      → Action World ℕ
  thread queue_depth ns_blocks duration random write ts elapsed = do
    buffer ← or_panic (allocate m (u64 (pagesize_4kib * queue_depth)))
    qpair ← or_panic (create_io_queue_pair ctl fuel m fresh_memory queue_length)
    lift (index_range buffer (record { start = 0; stop = u64 (queue_depth * bytes) }))
    l ← run_load (work ctl fuel queue_depth ns_blocks duration random write buffer ts elapsed) qpair
    or_panic (delete_io_queue_pair ctl fuel m fresh_memory l.qpair)
    pure l.total_io_ops

  -- The loop of `qd_1_singlethread`, with `total` the time so far and `ios` operations.
  unfoldable pub single_turns :
      Dma
      → (ns_blocks duration : ℕ) (random write : Bool) → List Turn
      → (total ios : ℕ) → Action World ℕ
  single_turns buffer ns_blocks duration random write [] total ios =
      lift (if ltb total duration then spin else ok ios)
  single_turns buffer ns_blocks duration random write (t ∷ ts) total ios =
      elim (ltb total duration) [
        | true ↦ (do
          lift (assert (ltb 0 ns_blocks))
          part ← lift (slice buffer (record { start = 0; stop = bytes }))
          transfer ctl fuel part (u64 (pick random ns_blocks t * blocks)) write
          single_turns buffer ns_blocks duration random write ts (total + t.elapsed) (ios + 1))
        | false ↦ pure ios
      ]

  unfoldable pub qd_1_singlethread :
      (duration : ℕ) (random write : Bool) → List Turn → Action World ℕ
  qd_1_singlethread duration random write ts = do
    n ← units
    buffer ← allocate m pagesize_4kib
    lift (index_to buffer bytes)
    single_turns buffer (sub_u64 n 1) duration random write ts 0 0
