-- ===== src/Queues/Submission.antt =====
-- `SubmissionQueue` of src/queues.rs. `entries` are the commands in the memory behind `commands`, an
-- array of `queue_length` entries; an index behind it panics.
pub mod Ring
pub mod Fifo
use vroom.Common.{
  ℕ, ◌+◌, ◌*◌, ◌%◌, ◌^◌, min, Bool, true, false, Option, none, some, ltb, ◌==◌, if◌then◌else◌,
}
use vroom.Common.Words.{u64}
use vroom.Common.Slots.{update}
use vroom.Common.Outcome.{Outcome, ok, ◌>>=◌, ◌>>◌, assert}
use vroom.Memory.Dma.{Dma}
use vroom.Mapping.{Mapping}
use vroom.Command.{NvmeCommand}
use vroom.Queues.Entry.{queue_length, size_of_command}

pub record SubmissionQueue : Type 0 where
  pub commands : Dma
  pub entries : ℕ → NvmeCommand
  pub head : ℕ
  pub tail : ℕ
  pub len : ℕ
  pub doorbell : ℕ

-- `memory` is what the mapped buffer holds.
abbrev pub fresh : Dma → (ℕ → NvmeCommand) → ℕ → ℕ → SubmissionQueue
fresh commands memory len doorbell = record {
  commands = commands;
  entries = memory;
  head = 0;
  tail = 0;
  len = min len queue_length;
  doorbell = doorbell;
}

module _ (m : Mapping) (memory : Dma → ℕ → NvmeCommand) where
  open m use {World, allocate}

  -- `SubmissionQueue::new`
  unfoldable pub new : ℕ → ℕ → World → Outcome SubmissionQueue × World
  new len doorbell w =
      let (r, w') = allocate (size_of_command * queue_length) w in
      ((do commands ← r; ok (fresh commands (memory commands) len doorbell)), w')

unfoldable pub is_empty : SubmissionQueue → Bool
is_empty q = q.head == q.tail

-- The tail behind the one at hand; a length of 0 panics.
unfoldable pub is_full : SubmissionQueue → Outcome Bool
is_full q = do assert (ltb 0 q.len); ok (q.head == u64 (q.tail + 1) % q.len)

-- The state behind `submit`. The tail is below `queue_length` here, so `+ 1` does not overflow.
abbrev pub push : NvmeCommand → SubmissionQueue → SubmissionQueue
push entry q = record q { entries = update q.entries q.tail entry; tail = (q.tail + 1) % q.len }

unfoldable pub submit : NvmeCommand → SubmissionQueue → Outcome (ℕ × SubmissionQueue)
submit entry q = do
  assert (ltb q.tail queue_length)
  assert (ltb 0 q.len)
  ok ((push entry q).tail, push entry q)

unfoldable pub submit_checked : NvmeCommand → SubmissionQueue → Outcome (Option ℕ × SubmissionQueue)
submit_checked entry q = do
  full ← is_full q
  if full then ok (none, q) else (do (tail, q') ← submit entry q; ok (some tail, q'))

-- `get_addr`
abbrev pub get_addr : SubmissionQueue → ℕ
get_addr q = q.commands.phys
