-- ===== src/Device/Copied/Whole.antt =====
-- A batch that fits the queue, from its first request to the completion of its last.
use vroom.Common.{
  ℕ, suc, ◌+◌, ◌*◌, ◌/◌, ◌%◌, ◌^◌, ◌≤◌, ◌<◌, ◌≡◌, refl, ◌∙◌, ap, Bool, true, false, Option, some,
  none, ◌∷◌, min, ◌==◌, if◌then◌else◌, arith, lt→ltb,
}
use vroom.Common.Words.{u32}
use vroom.Common.Outcome.{ok, panic}
use vroom.Queues.Submission.Ring.{IsValid}
use vroom.Queues.Completion.Position.{At, is_posted, after, after-At}
use vroom.Queues.Completion.Batch.{complete_n_lem}
use vroom.Queues.Completion.{CqMemory, CompletionQueue}
use vroom.Queues.Entry.{NvmeCompletion}
use vroom.Host.{Controller, view}
use vroom.Pair.{status_of}
use vroom.Pair.Submit.{rings, free}
use vroom.Device.State.{NvmeNamespace, Machine, Action, modify, pure, unwrap, ◌>>=◌, ◌>>◌, bind-ok}
use vroom.Device.Registers.{sq_tail, cq_head, doorbell, write_reg_idx}
use vroom.Device.Io.{complete_io, count_completion}
use vroom.Device.Copied.{submit_batch, batch}
use vroom.Device.Copied.Batches.{Batched, submit_batch_lem}

module _ (ctl : Controller) (fuel : ℕ) {W : Type 0} where
  -- What the controller shows after `n` submissions have been rung.
  abbrev pub shown : Machine W → ℕ → ℕ → CqMemory
  shown s n t =
      ctl.completions
        (rings (doorbell s.dev sq_tail 1) s.dev.io_sq.len s.dev.io_sq.tail n s.host.log) t
        s.dev.io_cq.commands.virt

  -- The state behind a completed batch: the last entry, at position `q`, is seen at time `t`.
  abbrev taken : Machine W → ℕ → ℕ → Machine W
  taken s q t = record s {
    dev = record (s.dev) { io_cq = after (q + 1) s.dev.io_cq };
    host = record (s.host) {
      log = (doorbell s.dev cq_head 1, u32 ((q + 1) % s.dev.io_cq.len)) ∷ s.host.log;
      clock = t + 1;
    };
  }

  abbrev counted : Machine W → Machine W
  counted s = record s { dev = count_completion s.dev }

  complete_io-eq :
      (s : Machine W) (p m k : ℕ)
      → At p s.dev.io_cq
      → m < s.dev.io_cq.len
      → k < fuel
      → let seen = view ctl s.host s.dev.io_cq.commands.virt in
        ((j : ℕ) → j < k → is_posted (seen (s.host.clock + j)) s.dev.io_cq.len (p + m) ≡ false)
        → is_posted (seen (s.host.clock + k)) s.dev.io_cq.len (p + m) ≡ true
        → let e = seen (s.host.clock + k) ((p + m) % s.dev.io_cq.len) in
          let s' = taken s (p + m) (s.host.clock + k) in
          complete_io ctl fuel (suc m) s
          ≡ (if status_of e == 0 then (ok (some e.sq_head), counted s') else (ok none, s'))
  unfolding complete_io write_reg_idx doorbell
  complete_io-eq s p m k at small lt before found =
      let done =
        complete_n_lem at (view ctl s.host s.dev.io_cq.commands.virt) m k fuel s.host.clock small lt
          before found in
      grind (arith, done)

  -- What the last step leaves: a good entry is counted, and the head that it reports is stored.
  abbrev ended : Machine W → ℕ → NvmeCompletion → ℕ → Machine W
  ended s q e t =
      let good = status_of e == 0 in
      let d = (taken s q t).dev in
      record (taken s q t) {
        dev = record d {
          io_sq = record (d.io_sq) { head = if good then e.sq_head else d.io_sq.head };
          stats = if good then (count_completion d).stats else d.stats;
        };
      }

  abbrev store_head : ℕ → ℕ → Action W ℕ
  store_head lba head =
      modify (λ d. record d { io_sq = record (d.io_sq) { head = head } }) >> pure lba

  abbrev take_head : ℕ → Option ℕ → Action W ℕ
  take_head lba reported = unwrap reported >>= store_head lba

  finish :
      (n lba : ℕ) (s : Machine W) (q t : ℕ) (e : NvmeCompletion) (good : Bool)
      → (status_of e == 0) ≡ good
      → complete_io ctl fuel n s
        ≡ (if good then (ok (some e.sq_head), counted (taken s q t)) else (ok none, taken s q t))
      → (complete_io ctl fuel n >>= take_head lba) s
        ≡ ((if good then ok lba else panic), ended s q e t)
  finish n lba s q t e true is_good done =
      rw is_good (bind-ok (complete_io ctl fuel n) (take_head lba) done)
  finish n lba s q t e false is_bad done =
      rw is_bad (bind-ok (complete_io ctl fuel n) (take_head lba) done)

  -- A batch of `m + 1` requests, each of 1 to 65536 blocks, that fits the free part of a valid queue
  -- and the ring of completions, when the block behind it has a number below 2^64. All
  -- are submitted, and the call ends right after the first poll `k` that sees the entry of the last
  -- one, at the position `p + m`, which must be among the `fuel` polls allowed. The completion
  -- doorbell is rung once, and the completion queue has taken `m + 1` entries. If that last entry
  -- reports success, the head of the submission queue is the reported one and the call gives the
  -- block behind the batch; if it reports an error, the call panics, and the head stays.
  pub batch_lem :
      (ns : NvmeNamespace) (batch_len len lba : ℕ) (write : Bool) (s : Machine W) (p m k : ℕ)
      → min batch_len (len / 512) ≡ suc m
      → let blocks = len / suc m / ns.block_size in
        0 < ns.block_size
        → 0 < blocks
        → blocks ≤ 2 ^ 16
        → lba + suc m * blocks < 2 ^ 64
        → IsValid s.dev.io_sq
        → At p s.dev.io_cq
        → m < s.dev.io_cq.len
        → suc m ≤ free s.dev.io_sq
        → k < fuel
        → ((j : ℕ)
            → j < k
            → is_posted (shown s (suc m) (s.host.clock + j)) s.dev.io_cq.len (p + m) ≡ false)
        → is_posted (shown s (suc m) (s.host.clock + k)) s.dev.io_cq.len (p + m) ≡ true
        → let e = shown s (suc m) (s.host.clock + k) ((p + m) % s.dev.io_cq.len) in
          let good = status_of e == 0 in
          (s1 : Machine W) × (s' : Machine W) × Batched ns
            (len / suc m)
            blocks
            write
            0
            lba
            (suc m)
            s
            s1
          × (batch ctl fuel ns batch_len len lba write s
              ≡ ((if good then ok (lba + suc m * blocks) else panic), s'))
          × At (p + m + 1) s'.dev.io_cq
          × (s'.dev.io_sq
              ≡ record (s1.dev.io_sq) { head = if good then e.sq_head else s1.dev.io_sq.head })
          × (s'.host.log
              ≡ (doorbell s.dev cq_head 1, u32 ((p + m + 1) % s.dev.io_cq.len)) ∷ s1.host.log)
          × (s'.host.clock ≡ s.host.clock + k + 1)
  unfolding batch doorbell
  batch_lem ns batch_len len lba write s p m k n sized some_blocks few fits v at small room lt
        before found =
      let blocks = len / suc m / ns.block_size in
      let (s1, ran, b) =
        submit_batch_lem ns (len / suc m) blocks write some_blocks few (suc m) 0 lba s v fits in
      let whole : min (suc m) (free s.dev.io_sq) ≡ suc m = omega (arith, room) in
      let log1 : s1.host.log
          ≡ rings (doorbell s.dev sq_tail 1) s.dev.io_sq.len s.dev.io_sq.tail (suc m) s.host.log =
        b.rung
        ∙ ap (λ c. rings (doorbell s.dev sq_tail 1) s.dev.io_sq.len s.dev.io_sq.tail c s.host.log)
            whole in
      let e : NvmeCompletion = shown s (suc m) (s.host.clock + k) ((p + m) % s.dev.io_cq.len) in
      let same_view : (j : ℕ)
          → view ctl s1.host s1.dev.io_cq.commands.virt (s1.host.clock + j)
            ≡ shown s (suc m) (s.host.clock + j) =
        λ j.
          ap (λ l. ctl.completions l (s1.host.clock + j) s1.dev.io_cq.commands.virt) log1
          ∙ ap
              (λ (q : CompletionQueue).
                ctl.completions
                  (rings (doorbell s.dev sq_tail 1) s.dev.io_sq.len s.dev.io_sq.tail (suc m)
                    s.host.log)
                  (s1.host.clock + j) q.commands.virt)
              b.same_completions
          ∙ ap (λ t. shown s (suc m) (t + j)) b.same_clock in
      let at1 : At p s1.dev.io_cq = rw b.same_completions at in
      let done =
        complete_io-eq s1 p m k at1 (rw b.same_completions small) lt
          (λ j h.
            ap (λ mem. is_posted mem s1.dev.io_cq.len (p + m)) (same_view j)
            ∙ ap
                (λ (q : CompletionQueue).
                  is_posted (shown s (suc m) (s.host.clock + j)) q.len (p + m))
                b.same_completions
            ∙ before j h)
          (ap (λ mem. is_posted mem s1.dev.io_cq.len (p + m)) (same_view k)
            ∙ ap
                (λ (q : CompletionQueue).
                  is_posted (shown s (suc m) (s.host.clock + k)) q.len (p + m))
                b.same_completions
            ∙ found) in
      let same_entry : view ctl s1.host s1.dev.io_cq.commands.virt (s1.host.clock + k)
            ((p + m) % s1.dev.io_cq.len)
          ≡ e =
        ap (λ (mem : CqMemory). mem ((p + m) % s1.dev.io_cq.len)) (same_view k)
        ∙ ap (λ (q : CompletionQueue). shown s (suc m) (s.host.clock + k) ((p + m) % q.len))
            b.same_completions in
      (
        s1,
        ended s1 (p + m) e (s1.host.clock + k),
        rw whole at b,
        rw (n, lt→ltb 0 (suc m) (omega arith), lt→ltb 0 ns.block_size sized)
            (bind-ok (submit_batch ns (len / suc m) blocks write (suc m) 0 lba)
                (λ lba'. complete_io ctl fuel (suc m) >>= take_head lba') ran
              ∙ finish (suc m) (lba + suc m * blocks) s1 (p + m) (s1.host.clock + k) e
                  (status_of e == 0) refl (rw same_entry at done)),
        after-At at1 (p + m + 1),
        refl,
        rw (b.same_addr, b.same_stride, b.same_completions) refl,
        ap (λ t. t + k + 1) b.same_clock,
      )
