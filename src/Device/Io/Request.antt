-- ===== src/Device/Io/Request.antt =====
-- One synchronous command: what it writes, what it waits for, and how it ends.
use native.Mathlib.Nat.{add-zero}
use vroom.Common.{
  ℕ, ◌+◌, ◌%◌, ◌^◌, ◌≤◌, ◌<◌, ◌≡◌, refl, Bool, true, false, ◌∷◌, leb, ◌==◌, if◌then◌else◌, arith,
}
use vroom.Common.Words.{u32, u64}
use vroom.Common.Outcome.{ok, panic}
use vroom.Command.{NvmeCommand}
use vroom.Queues.Entry.{NvmeCompletion}
use vroom.Queues.Submission.{SubmissionQueue, submit, push}
use vroom.Queues.Submission.Ring.{IsValid}
use vroom.Queues.Completion.{CqMemory}
use vroom.Queues.Completion.Position.{At, is_posted, after, after-At}
use vroom.Queues.Completion.Batch.{complete_n_lem}
use vroom.Host.{Host, Controller, store, view}
use vroom.Pair.{status_of}
use vroom.Device.State.{Machine}
use vroom.Device.Registers.{sq_tail, cq_head, doorbell, write_reg_idx}
use vroom.Device.Io.{count_submission, count_completion, io_command, complete_io, namespace_io}

submit-IsValid :
    (c : NvmeCommand) (q : SubmissionQueue)
    → IsValid q
    → submit c q ≡ ok ((push c q).tail, push c q)
unfolding submit
submit-IsValid c q v = ground (arith, v.positive, v.bounded, v.tail_in)

pub le→leb : (a b : ℕ) → a ≤ b → leb a b ≡ true
le→leb a b h = ground arith

-- The host behind the ring of the submission doorbell, and the completion entries from then on.
abbrev pub rung : {W : Type 0} → NvmeCommand → Machine W → Host
rung c s = store (doorbell s.dev sq_tail 1) (u32 (push c s.dev.io_sq).tail) s.host

abbrev pub seen : {W : Type 0} → Controller → NvmeCommand → Machine W → ℕ → CqMemory
seen ctl c s t = view ctl (rung c s) s.dev.io_cq.commands.virt t

module _ (ctl : Controller) (fuel : ℕ) {W : Type 0} where
  -- What a command leaves: the device `d'` and the host `h'`, if the entry was `e` at position `p`,
  -- taken at time `t`.
  abbrev ended : NvmeCommand → ℕ → NvmeCompletion → ℕ → Machine W → Machine W
  ended c p e t s = record s {
    dev = record (s.dev) {
      io_sq = record (push c s.dev.io_sq) {
        head = if status_of e == 0 then e.sq_head else s.dev.io_sq.head;
      };
      io_cq = after (p + 1) s.dev.io_cq;
      stats =
          if status_of e == 0
          then (count_completion (count_submission s.dev)).stats
          else (count_submission s.dev).stats;
    };
    host =
        store (doorbell s.dev cq_head 1) (u32 ((p + 1) % s.dev.io_cq.len))
          (record (rung c s) { clock = t });
  }

  namespace_io-eq :
      (ns_id blocks lba addr : ℕ) (write : Bool) (s : Machine W) (p k : ℕ)
      → At p s.dev.io_cq
      → IsValid s.dev.io_sq
      → 0 < blocks
      → blocks ≤ 2 ^ 16
      → k < fuel
      → let c = io_command s.dev ns_id blocks lba addr write in
        ((j : ℕ) → j < k → is_posted (seen ctl c s (s.host.clock + j)) s.dev.io_cq.len p ≡ false)
        → is_posted (seen ctl c s (s.host.clock + k)) s.dev.io_cq.len p ≡ true
        → let e = seen ctl c s (s.host.clock + k) (p % s.dev.io_cq.len) in
          namespace_io ctl fuel ns_id blocks lba addr write s
          ≡ ((if status_of e == 0 then ok tt else panic), ended c p e (s.host.clock + k + 1) s)
  unfolding namespace_io complete_io write_reg_idx doorbell
  namespace_io-eq ns_id blocks lba addr write s p k at v pos small lt before found =
      let c : NvmeCommand = io_command s.dev ns_id blocks lba addr write in
      let taken =
        complete_n_lem at (seen ctl c s) 0 k fuel s.host.clock at.positive lt
          (λ j h. rw add-zero (before j h)) (rw add-zero found) in
      grind (arith, pos, small, submit-IsValid c s.dev.io_sq v, taken, add-zero p)

  -- One command of a synchronous transfer, of 1 to 65536 blocks. It is put behind the tail of the
  -- queue, the submission doorbell is rung with the new tail, and the call ends right after the
  -- first poll `k` that sees the entry at the position `p`, which must be among the `fuel` polls
  -- allowed; then the completion doorbell is rung with the new head. If the entry reports success
  -- the call succeeds, the head of the submission queue is the reported one, and one submission and
  -- one completion are counted; if it reports an error the call panics, the head stays, and only the
  -- submission is counted.
  pub namespace_io_lem :
      (ns_id blocks lba addr : ℕ) (write : Bool) (s : Machine W) (p k : ℕ)
      → At p s.dev.io_cq
      → IsValid s.dev.io_sq
      → 0 < blocks
      → blocks ≤ 2 ^ 16
      → k < fuel
      → let c = io_command s.dev ns_id blocks lba addr write in
        ((j : ℕ) → j < k → is_posted (seen ctl c s (s.host.clock + j)) s.dev.io_cq.len p ≡ false)
        → is_posted (seen ctl c s (s.host.clock + k)) s.dev.io_cq.len p ≡ true
        → let e = seen ctl c s (s.host.clock + k) (p % s.dev.io_cq.len) in
          let good = status_of e == 0 in
          (s' : Machine W) × (namespace_io ctl fuel ns_id blocks lba addr write s
            ≡ ((if good then ok tt else panic), s'))
          × At (p + 1) s'.dev.io_cq
          × (s'.dev.io_sq
              ≡ record (push c s.dev.io_sq) { head = if good then e.sq_head else s.dev.io_sq.head })
          × (s'.host.log
              ≡ (doorbell s.dev cq_head 1, u32 ((p + 1) % s.dev.io_cq.len))
                ∷ (doorbell s.dev sq_tail 1, u32 (push c s.dev.io_sq).tail)
                ∷ s.host.log)
          × (s'.host.clock ≡ s.host.clock + k + 1)
          × (s'.dev.stats.submissions ≡ u64 (s.dev.stats.submissions + 1))
          × (s'.dev.stats.completions
              ≡ (if good then u64 (s.dev.stats.completions + 1) else s.dev.stats.completions))
  namespace_io_lem ns_id blocks lba addr write s p k at v pos small lt before found =
      let c = io_command s.dev ns_id blocks lba addr write in
      let e = seen ctl c s (s.host.clock + k) (p % s.dev.io_cq.len) in
      (
        ended c p e (s.host.clock + k + 1) s,
        namespace_io-eq ns_id blocks lba addr write s p k at v pos small lt before found,
        after-At at (p + 1),
        refl,
        refl,
        refl,
        grind arith,
        grind arith,
      )
