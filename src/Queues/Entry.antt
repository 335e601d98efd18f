-- ===== src/Queues/Entry.antt =====
-- The completion queue entry and the queue length of src/queues.rs.
use vroom.Common.{ℕ, ◌/◌}
use vroom.Common.Words.{◌>>>◌}
use vroom.Memory.Pagesize.{pagesize_2mib}

-- `NvmeCompletion`; each field is a number below its width.
pub record NvmeCompletion : Type 0 where
  pub command_specific : ℕ
  pub rsvd : ℕ
  pub sq_head : ℕ
  pub sq_id : ℕ
  pub c_id : ℕ
  pub status : ℕ

-- `mem::size_of` of the two packed entry types: 1 + 1 + 2 + 4 + 8 + 8 + 16 + 6 * 4 bytes, and
-- 4 + 4 + 2 + 2 + 2 + 2 bytes.
abbrev pub size_of_command : ℕ
size_of_command = 64

abbrev pub size_of_completion : ℕ
size_of_completion = 16

-- `QUEUE_LENGTH`, 16384.
abbrev pub queue_length : ℕ
queue_length = pagesize_2mib / size_of_command >>> 1
