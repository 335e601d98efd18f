-- ===== src/Device/Io.antt =====
-- Synchronous reads and writes of `NvmeDevice`, one command at a time.
pub mod Errors
pub mod Failure
pub mod Request
pub mod Lists
mod Tests
use vroom.Common.{
  ℕ, zero, suc, ◌+◌, ◌-◌, ◌*◌, ◌/◌, ◌%◌, ◌^◌, ◌≤◌, Bool, true, false, Option, none, some, List, [],
  ◌∷◌, length, ltb, leb, ◌==◌, if◌then◌else◌, ◌&&◌, take, drop,
}
use vroom.Common.Words.{u16, u32, u64, sub_u16, sub_u64, ◌<<◌, ◌>>>◌}
use vroom.Common.Slots.{update}
use vroom.Common.Outcome.{Outcome, ok, err, panic, spin, assert}
use vroom.Memory.Dma.{Dma}
use vroom.Memory.Chunks.{DmaChunk, chunks, collect}
use vroom.Command.{NvmeCommand, io_read, io_write}
use vroom.Queues.Entry.{NvmeCompletion}
use vroom.Queues.Submission.{SubmissionQueue, submit}
use vroom.Queues.Completion.{CompletionQueue, Completed, complete_n}
use vroom.Host.{Host, Controller, view}
use vroom.Pair.{status_of, block_count}
use vroom.Device.State.{
  NvmeDevice, NvmeStats, NvmeNamespace, Machine, Action, pure, lift, gets, modify, lookup, unwrap,
  ◌>>=◌, ◌>>◌,
}
use vroom.Device.Registers.{sq_tail, cq_head, write_reg_idx}

module _ {W : Type 0} where
  -- `self.io_sq.submit`
  abbrev pub submit_one : NvmeCommand → Action W ℕ
  submit_one entry s = elim (submit entry s.dev.io_sq) [
    | ok (tail, q) ↦ (ok tail, record s { dev = record (s.dev) { io_sq = q } })
    | err e ↦ (err e, s)
    | panic ↦ (panic, s)
    | spin ↦ (spin, s)
  ]

  -- `self.io_cq.complete_n`
  abbrev pub take_n : Controller → ℕ → ℕ → Action W Completed
  take_n ctl fuel n s =
      let q = s.dev.io_cq in
      elim (complete_n (view ctl s.host q.commands.virt) fuel s.host.clock n q) [
        | ok (c, q', t) ↦ (
          ok c,
          record s { dev = record (s.dev) { io_cq = q' }; host = record (s.host) { clock = t } },
        )
        | err e ↦ (err e, s)
        | panic ↦ (panic, s)
        | spin ↦ (spin, s)
      ]

abbrev pub count_submission : NvmeDevice → NvmeDevice
count_submission d = record d {
  stats = record (d.stats) { submissions = u64 (d.stats.submissions + 1) };
}

abbrev pub count_completion : NvmeDevice → NvmeDevice
count_completion d = record d {
  stats = record (d.stats) { completions = u64 (d.stats.completions + 1) };
}

-- The second data pointer in `namespace_io`: none, the second page, or the list of pages.
unfoldable pub list_pointer : NvmeDevice → ℕ → ℕ → ℕ
list_pointer d blocks addr =
    let bytes = u64 (blocks * 512) in
    if leb bytes 4096
    then 0
    else if leb bytes 8192
    then u64 (addr + 4096)
    else u64 (d.prp_list.phys + 8)

unfoldable pub io_command : NvmeDevice → ℕ → ℕ → ℕ → ℕ → Bool → NvmeCommand
io_command d ns_id blocks lba addr write =
    (if write then io_write else io_read) (u16 d.io_sq.tail) ns_id lba (sub_u16 (u16 blocks) 1) addr
      (list_pointer d blocks addr)

module _ (ctl : Controller) (fuel : ℕ) {W : Type 0} where
  unfoldable pub complete_io : ℕ → Action W (Option ℕ)
  complete_io step = do
    c ← take_n ctl fuel step
    write_reg_idx cq_head 1 (u32 c.0)
    if status_of c.1 == 0 then (do modify count_completion; pure (some c.1.sq_head)) else pure none

  unfoldable pub namespace_io : ℕ → ℕ → ℕ → ℕ → Bool → Action W (Unit {0})
  namespace_io ns_id blocks lba addr write = do
    lift (assert (ltb 0 blocks))
    lift (assert (leb blocks 0x1_0000))
    entry ← gets (λ d. io_command d ns_id blocks lba addr write)
    tail ← submit_one entry
    modify count_submission
    write_reg_idx sq_tail 1 (u32 tail)
    reported ← complete_io 1
    head ← unwrap reported
    modify λ d. record d { io_sq = record (d.io_sq) { head = head } }

  -- The loop of `read` and `write`.
  unfoldable pub transfer_chunks : List DmaChunk → ℕ → Bool → Action W (Unit {0})
  transfer_chunks [] lba write = pure tt
  transfer_chunks (c ∷ cs) lba write = do
    namespace_io 1 (block_count c.len) lba c.phys_addr write
    transfer_chunks cs (u64 (lba + block_count c.len)) write

  -- What `read` and `write` have in common.
  unfoldable pub transfer : Dma → ℕ → Bool → Action W (Unit {0})
  transfer d lba write = elim (collect 1 (suc d.size) (chunks d (2 * 4096))) [
    | none ↦ lift spin
    | some cs ↦ transfer_chunks cs lba write
  ]

  -- `for i in 0..prp_pages`: entry `i` is the `i`-th page of the chunk; the list has 512 entries.
  unfoldable pub fill_list : ℕ → ℕ → ℕ → Action W (Unit {0})
  fill_list zero i phys = pure tt
  fill_list (suc n) i phys = do
    lift (assert (ltb i 512))
    modify λ d. record d { prp = update d.prp i (u64 (phys + i * 4096)) }
    fill_list n (i + 1) phys

  -- The loop of `write_prp`. The time taken is printed after a division by the number of pages,
  -- which panics at 0; the durations themselves are left out.
  unfoldable pub transfer_lists : List DmaChunk → ℕ → Bool → Action W (Unit {0})
  transfer_lists [] lba write = pure tt
  transfer_lists (c ∷ cs) lba write = do
    fill_list (c.len / 4096) 0 c.phys_addr
    namespace_io 1 (block_count c.len) lba c.phys_addr write
    lift (assert (ltb 0 (c.len / 4096)))
    transfer_lists cs (u64 (lba + block_count c.len)) write

  unfoldable pub write_prp : Dma → ℕ → Bool → Action W (Unit {0})
  write_prp d lba write = elim (collect 1 (suc d.size) (chunks d (128 * 4096))) [
    | none ↦ lift spin
    | some cs ↦ transfer_lists cs lba write
  ]

  abbrev write : Dma → ℕ → Action W (Unit {0})
  write source lba = transfer source lba true

  abbrev read : Dma → ℕ → Action W (Unit {0})
  read dest lba = transfer dest lba false
