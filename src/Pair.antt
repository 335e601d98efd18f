-- ===== src/Pair.antt =====
-- `NvmeQueuePair` of src/nvme.rs: submitting a buffer as reads or writes, and taking completions.
-- Printing is left out. Arithmetic wraps as in the release profile.
pub mod Ids
pub mod Prp
pub mod Submit
pub mod Complete
mod Tests
use Prim.Native.Nat.{bit_or}
use Prim.Native.String.{String}
use vroom.Common.{
  ℕ, suc, ◌+◌, ◌-◌, ◌*◌, ◌/◌, ◌%◌, ◌^◌, Bool, true, false, Option, none, some, List, [], ◌∷◌, ◌⊎◌,
  inl, inr, ltb, leb, ◌==◌, if◌then◌else◌,
}
use vroom.Common.Words.{u16, u32, u64, sub_u16, ◌<<◌, ◌>>>◌}
use vroom.Common.Outcome.{Outcome, ok, spin, Error, vroom_error, ◌>>=◌, ◌>>◌, assert}
use vroom.Memory.Dma.{Dma}
use vroom.Memory.Chunks.{DmaChunk, chunks, collect}
use vroom.Command.{NvmeCommand, io_read, io_write}
use vroom.Queues.Entry.{NvmeCompletion}
use vroom.Queues.Submission.{SubmissionQueue, submit_checked}
use vroom.Queues.Completion.{CompletionQueue, complete, complete_n}
use vroom.Host.{Host, Controller, store, view}

pub record NvmeQueuePair : Type 0 where
  pub id : ℕ
  pub sub_queue : SubmissionQueue
  pub comp_queue : CompletionQueue

-- `data.chunks(2 * 4096)`
abbrev pub chunk_bytes : ℕ
chunk_bytes = 2 * 4096

-- `(chunk.slice.len() as u64 + 512 - 1) / 512`; a chunk has at most 8192 bytes.
abbrev pub block_count : ℕ → ℕ
block_count len = (len + 512 - 1) / 512

-- `self.id << 11 | self.sub_queue.tail as u16`
unfoldable pub command_id : ℕ → ℕ → ℕ
command_id id tail = bit_or (u16 (id << 11)) (u16 tail)

-- The second data pointer.
unfoldable pub second_pointer : ℕ → ℕ → ℕ
second_pointer addr blocks = if leb (blocks * 512) 4096 then 0 else u64 (addr + 4096)

-- The command for one chunk, at the tail `tail` of the queue `id`.
unfoldable pub chunk_command : ℕ → ℕ → ℕ → Bool → DmaChunk → NvmeCommand
chunk_command id tail lba write c =
    let blocks = block_count c.len in
    let make = if write then io_write else io_read in
    make (command_id id tail) 1 lba (sub_u16 (u16 blocks) 1) c.phys_addr
      (second_pointer c.phys_addr blocks)

-- The `for` loop of `submit_io`; `reqs` requests are submitted so far.
unfoldable pub submit_chunks :
    List DmaChunk → ℕ → Bool → ℕ → NvmeQueuePair → Host → Outcome (ℕ × NvmeQueuePair × Host)
submit_chunks [] lba write reqs qp h = ok (reqs, qp, h)
submit_chunks (c ∷ cs) lba write reqs qp h = do
  (r, sq) ← submit_checked (chunk_command qp.id qp.sub_queue.tail lba write c) qp.sub_queue
  elim r [
    | none ↦ ok (reqs, record qp { sub_queue = sq }, h)
    | some tail ↦
        submit_chunks cs (u64 (lba + block_count c.len)) write (reqs + 1)
          (record qp { sub_queue = sq }) (store sq.doorbell (u32 tail) h)
  ]

-- The iterator over a buffer ends within `size + 1` calls.
unfoldable pub submit_io :
    Dma → ℕ → Bool → NvmeQueuePair → Host → Outcome (ℕ × NvmeQueuePair × Host)
submit_io d lba write qp h = elim (collect 1 (suc d.size) (chunks d chunk_bytes)) [
  | none ↦ spin
  | some cs ↦ submit_chunks cs lba write 0 qp h
]

-- The new submission queue head behind a completion.
abbrev pub acknowledge : NvmeCompletion → NvmeQueuePair → CompletionQueue → NvmeQueuePair
acknowledge entry qp cq = record qp {
  sub_queue = record (qp.sub_queue) { head = entry.sq_head };
  comp_queue = cq;
}

abbrev pub status_of : NvmeCompletion → ℕ
status_of entry = entry.status >>> 1

module _ (ctl : Controller) where
  -- At most `fuel` polls.
  unfoldable pub complete_io :
      ℕ → ℕ → NvmeQueuePair → Host → Outcome (Option ℕ × NvmeQueuePair × Host)
  complete_io fuel n qp h = do
    assert (ltb 0 n)
    (c, cq, t) ← complete_n (view ctl h qp.comp_queue.commands.virt) fuel h.clock n qp.comp_queue
    let tail = c.0
    let entry = c.1
    ok (
      (if status_of entry == 0 then some entry.sq_head else none),
      acknowledge entry qp cq,
      store qp.comp_queue.doorbell (u32 tail) (record h { clock = t }),
    )

  -- One look at the completion queue.
  unfoldable pub quick_poll :
      NvmeQueuePair → Host → Outcome (Option (Unit {0}) × NvmeQueuePair × Host)
  quick_poll qp h = do
    (r, cq) ← complete (view ctl h qp.comp_queue.commands.virt h.clock) qp.comp_queue
    let h' = record h { clock = h.clock + 1 }
    elim r [
      | none ↦ ok (none, record qp { comp_queue = cq }, h')
      | some c ↦ ok (some tt, acknowledge c.1 qp cq, store qp.comp_queue.doorbell (u32 c.0) h')
    ]

  -- `inl` is `Err`, `inr` is `Ok`. The state of the queues stays changed after an `Err`. `describe`
  -- is the text that `format!` makes of the entry.
  unfoldable pub quick_poll_result :
      (NvmeCompletion → String)
      → NvmeQueuePair
      → Host
      → Outcome ((Error ⊎ Option (Unit {0})) × NvmeQueuePair × Host)
  quick_poll_result describe qp h = do
    (r, cq) ← complete (view ctl h qp.comp_queue.commands.virt h.clock) qp.comp_queue
    let h' = record h { clock = h.clock + 1 }
    elim r [
      | none ↦ ok (inr none, record qp { comp_queue = cq }, h')
      | some c ↦ ok (
        (if status_of c.1 == 0 then inr (some tt) else inl (vroom_error (describe c.1))),
        acknowledge c.1 qp cq,
        store qp.comp_queue.doorbell (u32 c.0) h',
      )
    ]
