-- ===== src/Examples/Latency/Overrun.antt =====
-- A load that measures latencies and finds nothing to take when it has all its operations under way.
use vroom.Common.{
  ℕ, ◌+◌, ◌*◌, ◌%◌, ◌^◌, ◌≤◌, ◌<◌, ◌≡◌, refl, ◌∙◌, ap, Bool, true, false, List, [], ◌∷◌, ◌==◌,
  if◌then◌else◌, lt→ltb, length, arith,
}
use native.Mathlib.Decide.{dec_lt}
use vroom.Common.Words.{u64}
use vroom.Common.Stateful.{bind-ok, bind-panic, ◌>>◌}
use vroom.Common.Outcome.{Outcome, ok, panic}
use vroom.Memory.Dma.{Dma, slice}
use vroom.Memory.Dma.Views.{IsMapped}
use vroom.Host.{Host, Controller}
use vroom.Queues.Submission.Ring.{IsValid}
use vroom.Pair.{NvmeQueuePair, submit_io}
use vroom.Pair.Submit.{submit_io_lem}
use vroom.Examples.{Turn, Load, Work, on_pair-ok, update, submit_part, bytes, blocks}
use vroom.Examples.Latency.{drain_full, nanos_turn, nanos_turns}
use vroom.Examples.Throughput.Loop.{spent}
use vroom.Examples.Throughput.Sends.{part, slice-part}

slice_behind :
    (buffer : Dma) (o : ℕ)
    → buffer.size < 2 ^ 63
    → o * 4096 ≤ buffer.size
    → buffer.size < (o + 1) * 4096
    → slice buffer (record { start = u64 (o * bytes); stop = u64 (u64 (o + 1) * bytes) }) ≡ panic
unfolding slice
slice_behind buffer o small below behind = ground arith

module _ (ctl : Controller) (fuel depth ns_blocks duration : ℕ) (random write : Bool)
    (buffer : Dma) where
  abbrev lba_of : Turn → Load → ℕ
  lba_of t l = u64 ((if random then t.random else l.outstanding_ops % ns_blocks) * blocks)

  abbrev turn_of : Turn → Work (Unit {0})
  turn_of t = nanos_turn ctl fuel depth ns_blocks duration random write buffer t

  abbrev turns_of : List Turn → Work (Unit {0})
  turns_of ts = nanos_turns ctl fuel depth ns_blocks duration random write buffer ts

  -- What a turn does with its operation under way.
  abbrev after_submit : Turn → Work (Unit {0})
  after_submit t = do
    update
        λ l. record l { total = l.total + t.elapsed; outstanding_ops = u64 (l.outstanding_ops + 1) }
    drain_full ctl fuel depth ns_blocks duration random write buffer

  submit_panics :
      (lba : ℕ) (l : Load)
      → buffer.size < 2 ^ 63
      → l.outstanding_ops * 4096 ≤ buffer.size
      → buffer.size < (l.outstanding_ops + 1) * 4096
      → submit_part buffer lba write l ≡ (panic, l)
  submit_panics lba l small below behind =
      rw (slice_behind buffer l.outstanding_ops small below behind) refl

  -- The part of the buffer for the next operation does not exist.
  turn_panics :
      (t : Turn) (l : Load)
      → 0 < ns_blocks
      → buffer.size < 2 ^ 63
      → l.outstanding_ops * 4096 ≤ buffer.size
      → buffer.size < (l.outstanding_ops + 1) * 4096
      → turn_of t l ≡ (panic, l)
  unfolding nanos_turn
  turn_panics t l pos small below behind = rw (lt→ltb 0 ns_blocks pos) (
      bind-panic (submit_part buffer (lba_of t l) write) (λ r. after_submit t)
        (submit_panics (lba_of t l) l small below behind))

  submitted :
      (lba : ℕ) (l : Load) {reqs : ℕ} {qp : NvmeQueuePair} {h : Host}
      → IsMapped buffer
      → (l.outstanding_ops + 1) * 4096 ≤ buffer.size
      → submit_io (part buffer l.outstanding_ops) lba write l.qpair l.host ≡ ok (reqs, qp, h)
      → submit_part buffer lba write l ≡ (ok reqs, record l { qpair = qp; host = h })
  submitted lba l mapped fits e =
      rw (slice-part buffer l.outstanding_ops mapped fits)
        (on_pair-ok (submit_io (part buffer l.outstanding_ops) lba write) l e)

  -- A turn that does not poll.
  turn_goes_on :
      (t : Turn) (l : Load)
      → 0 < ns_blocks
      → IsMapped buffer
      → (l.outstanding_ops + 1) * 4096 ≤ buffer.size
      → depth ≤ l.outstanding_ops
      → IsValid l.qpair.sub_queue
      → (l' : Load) × (turn_of t l ≡ (ok tt, l'))
        × (l'.outstanding_ops ≡ l.outstanding_ops + 1)
        × (l'.total ≡ l.total + t.elapsed)
        × (l'.qpair.comp_queue ≡ l.qpair.comp_queue)
        × IsValid l'.qpair.sub_queue
  unfolding nanos_turn drain_full
  turn_goes_on t l pos mapped fits full v =
      let part_mapped : IsMapped (part buffer l.outstanding_ops) = record {
        virt_fits = omega (arith, mapped.virt_fits);
        phys_fits = omega (arith, mapped.phys_fits);
      } in
      let i =
        submit_io_lem (part buffer l.outstanding_ops) (lba_of t l) write l.qpair l.host part_mapped
          v in
      let sent = submitted (lba_of t l) l mapped fits i.4 in
      let count : u64 (l.outstanding_ops + 1) ≡ l.outstanding_ops + 1 =
        omega (arith, mapped.virt_fits) in
      let test : ((l.outstanding_ops + 1) == depth) ≡ false = ground arith in
      (
        record l {
          qpair = i.1;
          host = i.2;
          total = l.total + t.elapsed;
          outstanding_ops = l.outstanding_ops + 1;
        },
        rw (lt→ltb 0 ns_blocks pos) (
            bind-ok (submit_part buffer (lba_of t l) write) (λ r. after_submit t) sent
            ∙ rw (count, test) refl),
        refl,
        refl,
        i.5.same_completions,
        i.5.valid,
      )

  abbrev next_turn : Turn → List Turn → Load → Bool → Outcome (Unit {0}) × Load
  next_turn t ts l b = elim b [ true ↦ (turn_of t >> turns_of ts) l | false ↦ (ok tt, l) ]

  turns_step :
      (t : Turn) (ts : List Turn) (l : Load)
      → l.total < duration
      → turns_of (t ∷ ts) l ≡ (turn_of t >> turns_of ts) l
  unfolding nanos_turns
  turns_step t ts l lt = ap (next_turn t ts l) (lt→ltb l.total duration lt)

  -- If `depth` operations or more are outstanding at the start of a turn of
  -- `qd_n_multithread_latency_nanos`, the loop takes no completion again, whatever the controller
  -- posts, and panics behind the end of the buffer, as long as the time is not up within the turns
  -- at hand and these are more than the parts that the buffer has left. The namespace has blocks,
  -- the submission queue is valid, and the buffer is mapped, has less than 2^63 bytes, and holds the
  -- parts of the outstanding operations.
  pub nanos_overrun :
      (ts : List Turn) (l : Load)
      → 0 < ns_blocks
      → IsMapped buffer
      → buffer.size < 2 ^ 63
      → IsValid l.qpair.sub_queue
      → depth ≤ l.outstanding_ops
      → l.outstanding_ops * 4096 ≤ buffer.size
      → buffer.size < (l.outstanding_ops + length ts) * 4096
      → l.total + spent ts < duration
      → (l' : Load) × (turns_of ts l ≡ (panic, l')) × (l'.qpair.comp_queue ≡ l.qpair.comp_queue)
  nanos_overrun [] l pos mapped small v full below behind time = absurd (omega arith)
  nanos_overrun (t ∷ ts) l pos mapped small v full below behind time =
      elim (dec_lt buffer.size ((l.outstanding_ops + 1) * 4096)) [
        | yes out ↦ (
          l,
          turns_step t ts l (omega arith)
              ∙ bind-panic (turn_of t) (λ u. turns_of ts) (turn_panics t l pos small below out),
          refl,
        )
        | no inside ↦
            let i = turn_goes_on t l pos mapped (omega arith) full v in
            let l2 : Load = i.0 in
            let r =
              nanos_overrun ts l2 pos mapped small i.5 (omega (arith, i.2)) (omega (arith, i.2))
                (omega (arith, i.2)) (omega (arith, i.3)) in
            (
              r.0,
              turns_step t ts l (omega arith) ∙ bind-ok (turn_of t) (λ u. turns_of ts) i.1 ∙ r.1,
              r.2 ∙ i.4,
            )
      ]
