-- ===== src/Examples/Latency.antt =====
-- examples/latency.rs: the loads that measure the latency. The times themselves, the file that they
-- are written to and what is printed are left out.
pub mod Overrun
use vroom.Common.{
  ℕ, zero, suc, ◌+◌, ◌*◌, ◌/◌, ◌%◌, ◌==◌, ltb, Bool, true, false, not, Option, none, some, List, [],
  ◌∷◌, if◌then◌else◌,
}
use vroom.Common.Words.{u64, sub_u64}
use vroom.Common.Stateful.{get, pure, lift, unwrap, ◌>>=◌, ◌>>◌}
use vroom.Common.Outcome.{ok, spin, assert}
use vroom.Memory.Dma.{Dma, slice, index_range, index_to}
use vroom.Memory.Pagesize.{pagesize_4kib, pagesize_2mib}
use vroom.Mapping.{Mapping}
use vroom.Command.{NvmeCommand}
use vroom.Host.{Controller}
use vroom.Queues.Entry.{queue_length}
use vroom.Pair.{complete_io, quick_poll}
use vroom.Device.State.{Action}
use vroom.Device.Admin.{create_io_queue_pair, delete_io_queue_pair}
use vroom.Device.Allocator.{allocate}
use vroom.Device.Io.{transfer}
use vroom.Examples.{
  Turn, Load, Work, blocks, bytes, on_pair, update, submit_part, poll_all, or_panic,
}
use vroom.Examples.Throughput
use vroom.Examples.Throughput.{units, run_load}

-- `outstanding_ops -= 1`, and a latency is pushed.
abbrev pub one_latency : Load → Load
one_latency l = record l {
  outstanding_ops = sub_u64 l.outstanding_ops 1;
  latencies = l.latencies + 1;
}

abbrev pub pushed : Load → Load
pushed l = record l { latencies = l.latencies + 1 }

module _ (ctl : Controller) (fuel queue_depth ns_blocks duration : ℕ) (random write : Bool)
    (buffer : Dma) where
  -- `if outstanding_ops == queue_depth`
  unfoldable pub drain_full : Work (Unit {0})
  drain_full l =
      (if l.outstanding_ops == queue_depth then poll_all ctl one_latency fuel else pure tt) l

  -- One turn of the loop of `qd_n_multithread_latency_nanos`; `total` is the time since its start.
  unfoldable pub nanos_turn : Turn → Work (Unit {0})
  nanos_turn t = do
    lift (assert (ltb 0 ns_blocks))
    l ← get
    submit_part buffer (u64 ((if random then t.random else l.outstanding_ops % ns_blocks) * blocks))
        write
    update
        λ l. record l { total = l.total + t.elapsed; outstanding_ops = u64 (l.outstanding_ops + 1) }
    drain_full

  -- `while start_time.elapsed() < duration`, for the turns at hand.
  unfoldable pub nanos_turns : List Turn → Work (Unit {0})
  nanos_turns [] l = (if ltb l.total duration then spin else ok tt, l)
  nanos_turns (t ∷ ts) l = elim (ltb l.total duration) [
    | true ↦ (do nanos_turn t; nanos_turns ts) l
    | false ↦ (ok tt, l)
  ]

  -- The loop behind it, with `n` operations outstanding: every round takes one.
  unfoldable pub nanos_rest : ℕ → Work (Unit {0})
  nanos_rest zero = pure tt
  nanos_rest (suc n) = do
    r ← on_pair (quick_poll ctl)
    elim r [
      | some u ↦ pure tt
      | none ↦ (do head ← on_pair (complete_io ctl fuel 1); h ← unwrap head; pure tt)
    ]
    update one_latency
    nanos_rest n

  unfoldable pub nanos_work : List Turn → Work (Unit {0})
  nanos_work ts = do nanos_turns ts; l ← get; nanos_rest l.outstanding_ops

  -- The loop of `qd_n_multithread` in this file; its blocks are always random.
  unfoldable pub load_turns : List Turn → Work (Unit {0})
  load_turns [] l = (if ltb l.total duration then spin else ok tt, l)
  load_turns (t ∷ ts) l = elim (ltb l.total duration) [
    | true ↦
        (do
          Throughput.turn ctl fuel queue_depth ns_blocks duration true write buffer t
          update pushed
          load_turns ts)
          l
    | false ↦ (ok tt, l)
  ]

  unfoldable pub load_work : List Turn → ℕ → Work (Unit {0})
  load_work ts elapsed = do
    load_turns ts
    l ← get
    if not (l.outstanding_ops == 0) then update pushed else pure tt
    Throughput.finish ctl fuel queue_depth ns_blocks duration true write buffer elapsed

module _ (ctl : Controller) (fuel : ℕ) (m : Mapping) (fresh_memory : Dma → ℕ → NvmeCommand) where
  open m use {World}

  -- The body of one thread of `qd_n_multithread_latency_nanos`, which runs alone here. The result is the number of latencies.
  unfoldable pub nanos_thread :
      (queue_depth ns_blocks duration : ℕ) (random write : Bool) (ts : List Turn) → Action World ℕ
  nanos_thread queue_depth ns_blocks duration random write ts = do
    buffer ← or_panic (allocate m pagesize_2mib)
    qpair ← or_panic (create_io_queue_pair ctl fuel m fresh_memory queue_depth)
    lift (index_range buffer (record { start = 0; stop = u64 (queue_depth * bytes) }))
    l ←
        run_load ctl fuel m fresh_memory
          (nanos_work ctl fuel queue_depth ns_blocks duration random write buffer ts) qpair
    or_panic (delete_io_queue_pair ctl fuel m fresh_memory l.qpair)
    pure l.latencies

  -- The body of one thread of `qd_n_multithread`, which runs alone here.
  unfoldable pub load_thread :
      (queue_depth ns_blocks duration : ℕ) (write : Bool) (ts : List Turn) (elapsed : ℕ)
      → Action World ℕ
  load_thread queue_depth ns_blocks duration write ts elapsed = do
    buffer ← or_panic (allocate m pagesize_4kib)
    qpair ← or_panic (create_io_queue_pair ctl fuel m fresh_memory queue_length)
    lift (index_range buffer (record { start = 0; stop = u64 (queue_depth * bytes) }))
    l ←
        run_load ctl fuel m fresh_memory
          (load_work ctl fuel queue_depth ns_blocks duration true write buffer ts elapsed) qpair
    or_panic (delete_io_queue_pair ctl fuel m fresh_memory l.qpair)
    pure l.total_io_ops

  -- The loop of `qd_1_singlethread_latency`, with `lba` the block of the turn before and `ios` latencies.
  unfoldable pub single_turns :
      Dma
      → (ns_blocks duration : ℕ) (random write : Bool) → List Turn
      → (lba total ios : ℕ) → Action World ℕ
  single_turns buffer ns_blocks duration random write [] lba total ios =
      lift (if ltb total duration then spin else ok ios)
  single_turns buffer ns_blocks duration random write (t ∷ ts) lba total ios =
      elim (ltb total duration) [
        | true ↦ (do
          lift (assert (ltb 0 ns_blocks))
          let next = if random then t.random else u64 (lba + 1) % ns_blocks
          part ← lift (slice buffer (record { start = 0; stop = bytes }))
          transfer ctl fuel part (u64 (next * blocks)) write
          single_turns buffer ns_blocks duration random write ts next (total + t.elapsed) (ios + 1))
        | false ↦ pure ios
      ]

  unfoldable pub qd_1_singlethread_latency :
      (duration : ℕ) (random write : Bool) → List Turn → Action World ℕ
  qd_1_singlethread_latency duration random write ts = do
    buffer ← allocate m pagesize_2mib
    n ← units
    lift (index_to buffer bytes)
    single_turns buffer (sub_u64 n 1) duration random write ts 0 0 0
