-- ===== src/Device/Copied/Overfull.antt =====
-- A batch that is larger than the free part of the queue.
use vroom.Common.{
  ℕ, suc, ◌+◌, ◌*◌, ◌/◌, ◌^◌, ◌≤◌, ◌<◌, ◌≡◌, ◌∙◌, ap, Bool, false, Option, none, some, ◌==◌,
  if◌then◌else◌, List, min, arith, lt→ltb,
}
use vroom.Common.Words.{u32}
use vroom.Common.Outcome.{Outcome, ok, err, panic, spin}
use vroom.Queues.Submission.Ring.{IsValid}
use vroom.Queues.Completion.Position.{At, is_posted}
use vroom.Queues.Completion.Batch.{complete_n_waits}
use vroom.Queues.Completion.{Completed, complete_n}
use vroom.Host.{Controller, view}
use vroom.Pair.{status_of}
use vroom.Pair.Submit.{rings, free}
use vroom.Device.State.{NvmeNamespace, Machine, Action, modify, pure, unwrap, ◌>>=◌, ◌>>◌, bind-ok}
use vroom.Common.Stateful.{bind-spin}
use vroom.Device.Registers.{sq_tail, cq_head, doorbell, write_reg_idx}
use vroom.Device.Io.{complete_io, take_n, count_completion}
use vroom.Device.Copied.{submit_batch, batch}
use vroom.Device.Copied.Batches.{submit_batch_lem}

module _ (ctl : Controller) (fuel : ℕ) {W : Type 0} where
  complete_io-spin :
      (n : ℕ) (s : Machine W)
      → complete_n (view ctl s.host s.dev.io_cq.commands.virt) fuel s.host.clock n s.dev.io_cq
        ≡ spin
      → complete_io ctl fuel n s ≡ (spin, s)
  unfolding complete_io
  complete_io-spin n s e =
      bind-spin (take_n ctl fuel n)
        (λ c.
          write_reg_idx cq_head 1 (u32 c.0)
          >> (if status_of c.1 == 0
              then (modify count_completion >> pure (some c.1.sq_head))
              else pure none))
        (ap
          (λ o. elim o as (λ x. Outcome Completed × Machine W) [
            | ok (c, q', t) ↦ (
              ok c,
              record s {
                dev = record (s.dev) { io_cq = q' };
                host = record (s.host) { clock = t };
              },
            )
            | err e ↦ (err e, s)
            | panic ↦ (panic, s)
            | spin ↦ (spin, s)
          ])
          e)

  -- A batch of `m + 1` requests, each of 1 to 65536 blocks, that is larger than the free part of a
  -- valid queue, but not than the ring of completions, when the block behind it has a number below
  -- 2^64. If, with the submissions rung that fit, the controller never shows the entry of position
  -- `p + m`, which would be that of the last request, the call does not return, for whatever number
  -- `fuel` of polls.
  pub batch_hangs :
      (ns : NvmeNamespace) (batch_len len lba : ℕ) (write : Bool) (s : Machine W) (p m : ℕ)
      → min batch_len (len / 512) ≡ suc m
      → let blocks = len / suc m / ns.block_size in
        0 < ns.block_size
        → 0 < blocks
        → blocks ≤ 2 ^ 16
        → lba + suc m * blocks < 2 ^ 64
        → IsValid s.dev.io_sq
        → At p s.dev.io_cq
        → m < s.dev.io_cq.len
        → free s.dev.io_sq ≤ m
        → let log =
            rings
              (doorbell s.dev sq_tail 1)
              s.dev.io_sq.len
              s.dev.io_sq.tail
              (free s.dev.io_sq)
              s.host.log in
          ((t : ℕ)
            → is_posted (ctl.completions log t s.dev.io_cq.commands.virt) s.dev.io_cq.len (p + m)
              ≡ false)
          → (s' : Machine W) × (batch ctl fuel ns batch_len len lba write s ≡ (spin, s'))
  unfolding batch
  batch_hangs ns batch_len len lba write s p m n sized some_blocks few fits v at small full silent =
      let blocks = len / suc m / ns.block_size in
      let (s', ran, b) =
        submit_batch_lem ns (len / suc m) blocks write some_blocks few (suc m) 0 lba s v fits in
      let last : min (suc m) (free s.dev.io_sq) ≡ free s.dev.io_sq = omega (arith, full) in
      let ring : ℕ → List (ℕ × ℕ) =
        λ k. rings (doorbell s.dev sq_tail 1) s.dev.io_sq.len s.dev.io_sq.tail k s.host.log in
      let none_seen : (t : ℕ)
          → is_posted (ctl.completions s'.host.log t s.dev.io_cq.commands.virt) s.dev.io_cq.len
              (p + m)
            ≡ false =
        λ t.
          ap
            (λ l. is_posted (ctl.completions l t s.dev.io_cq.commands.virt) s.dev.io_cq.len (p + m))
            (b.rung ∙ ap ring last)
          ∙ silent t in
      let waits : complete_n (view ctl s'.host s'.dev.io_cq.commands.virt) fuel s'.host.clock
            (suc m) s'.dev.io_cq
          ≡ spin =
        rw b.same_completions (
          complete_n_waits at (view ctl s'.host s.dev.io_cq.commands.virt) m fuel s'.host.clock
            small (λ j h. none_seen (s'.host.clock + j))) in
      let store_head : ℕ → ℕ → Action W ℕ = λ lba' head.
        modify (λ d. record d { io_sq = record (d.io_sq) { head = head } }) >> pure lba' in
      let take_head : ℕ → Option ℕ → Action W ℕ =
        λ lba' reported. unwrap reported >>= store_head lba' in
      (
        s',
        rw (n, lt→ltb 0 (suc m) (omega arith), lt→ltb 0 ns.block_size sized)
            (bind-ok (submit_batch ns (len / suc m) blocks write (suc m) 0 lba)
                (λ lba'. complete_io ctl fuel (suc m) >>= take_head lba') ran
              ∙ bind-spin (complete_io ctl fuel (suc m)) (take_head (lba + suc m * blocks))
                  (complete_io-spin (suc m) s' waits)),
      )
