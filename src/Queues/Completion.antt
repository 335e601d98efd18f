-- ===== src/Queues/Completion.antt =====
-- `CompletionQueue` of src/queues.rs. The entries are written by the device: a call reads them in
-- the state `CqMemory` in which it finds them. The array has `queue_length` entries, and an index
-- behind it panics.
pub mod Position
pub mod Batch
pub mod Spin
pub mod Window
pub mod Protocol
use Prim.Native.Nat.{bit_and}
use vroom.Common.{
  ℕ, zero, suc, ◌+◌, ◌-◌, ◌*◌, ◌%◌, ◌^◌, min, Bool, true, false, not, Option, none, some, ltb, leb,
  ◌==◌, same, if◌then◌else◌,
}
use vroom.Common.Words.{u64, sub_u64}
use vroom.Common.Outcome.{Outcome, ok, err, panic, spin, ◌>>=◌, ◌>>◌, assert}
use vroom.Memory.Dma.{Dma}
use vroom.Mapping.{Mapping}
use vroom.Queues.Entry.{NvmeCompletion, queue_length, size_of_completion}

pub record CompletionQueue : Type 0 where
  pub commands : Dma
  pub head : ℕ
  pub phase : Bool
  pub len : ℕ
  pub doorbell : ℕ

abbrev pub CqMemory : Type 0
CqMemory = ℕ → NvmeCompletion

-- The new head, the entry, and the slot that the call started at.
abbrev pub Completed : Type 0
Completed = ℕ × NvmeCompletion × ℕ

abbrev pub fresh : Dma → ℕ → ℕ → CompletionQueue
fresh commands len doorbell = record {
  commands = commands;
  head = 0;
  phase = true;
  len = min len queue_length;
  doorbell = doorbell;
}

module _ (m : Mapping) where
  open m use {World, allocate}

  -- `CompletionQueue::new`
  unfoldable pub new : ℕ → ℕ → World → Outcome CompletionQueue × World
  new len doorbell w =
      let (r, w') = allocate (size_of_completion * queue_length) w in
      ((do commands ← r; ok (fresh commands len doorbell)), w')

-- The phase tag, `(entry.status & 1) == 1`.
abbrev pub tag : NvmeCompletion → Bool
tag e = bit_and e.status 1 == 1

-- The state behind an entry that was taken; `% self.len` panics at 0. The head is below
-- `queue_length` here, so `+ 1` does not overflow.
abbrev pub advance : CompletionQueue → CompletionQueue
advance q =
    let head' = (q.head + 1) % q.len in
    record q { head = head'; phase = if head' == 0 then not q.phase else q.phase }

unfoldable pub complete : CqMemory → CompletionQueue → Outcome (Option Completed × CompletionQueue)
complete mem q = do
  assert (ltb q.head queue_length)
  if same (tag (mem q.head)) q.phase
      then (do assert (ltb 0 q.len); ok (some ((advance q).head, mem q.head, q.head), advance q))
      else ok (none, q)

-- `complete_spin` at clock `t`: the `k`-th poll reads the memory `view (t + k)`. The result holds
-- the clock after the last poll. `spin` is the loop after `fuel` polls that found nothing.
unfoldable pub complete_spin :
    (ℕ → CqMemory) → ℕ → ℕ → CompletionQueue → Outcome (Completed × CompletionQueue × ℕ)
complete_spin view zero t q = spin
complete_spin view (suc fuel) t q = do
  (r, q') ← complete (view t) q
  elim r [ none ↦ complete_spin view fuel (t + 1) q' | some c ↦ ok (c, q', t + 1) ]

-- The queue after the first three statements of `complete_n`.
unfoldable pub skip : ℕ → CompletionQueue → CompletionQueue
skip n q =
    let head' = u64 (q.head + sub_u64 n 1) in
    record q { head = head' % q.len; phase = if leb q.len head' then not q.phase else q.phase }

unfoldable pub complete_n :
    (ℕ → CqMemory) → ℕ → ℕ → ℕ → CompletionQueue → Outcome (Completed × CompletionQueue × ℕ)
complete_n view fuel t n q = do
  assert (ltb 0 q.len)
  (c, q', t') ← complete_spin view fuel t (skip n q)
  ok ((c.0, c.1, q.head), q', t')

-- `get_addr`
abbrev pub get_addr : CompletionQueue → ℕ
get_addr q = q.commands.phys
