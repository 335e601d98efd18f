-- ===== src/Command.antt =====
-- src/cmd.rs: the 64-byte submission queue entry `NvmeCommand` and the functions that build one.
-- Each field holds the value of its Rust field, a number below the width; a parameter of a builder
-- is the value of its Rust type. `usize` is 64 bits, so `ptr as u64` is the identity.
pub mod Fields
mod Tests
use Prim.Native.Nat.{bit_or}
use vroom.Common.{ℕ, ◌*◌, ◌/◌, ◌%◌, ◌^◌, Bool, true, false, if◌then◌else◌}
use vroom.Common.Words.{u32, ◌<<◌, ◌>>>◌}

-- `d_ptr: [u64; 2]` is the pair `d_ptr0`, `d_ptr1`.
pub record NvmeCommand : Type 0 where
  pub opcode : ℕ
  pub flags : ℕ
  pub c_id : ℕ
  pub ns_id : ℕ
  pub rsvd : ℕ
  pub md_ptr : ℕ
  pub d_ptr0 : ℕ
  pub d_ptr1 : ℕ
  pub cdw10 : ℕ
  pub cdw11 : ℕ
  pub cdw12 : ℕ
  pub cdw13 : ℕ
  pub cdw14 : ℕ
  pub cdw15 : ℕ

-- The derived `Default`.
abbrev pub default : NvmeCommand
default = record {
  opcode = 0;
  flags = 0;
  c_id = 0;
  ns_id = 0;
  rsvd = 0;
  md_ptr = 0;
  d_ptr0 = 0;
  d_ptr1 = 0;
  cdw10 = 0;
  cdw11 = 0;
  cdw12 = 0;
  cdw13 = 0;
  cdw14 = 0;
  cdw15 = 0;
}

-- `(size as u32) << 16` of a `u16` does not lose a bit.
unfoldable pub create_io_completion_queue : ℕ → ℕ → ℕ → ℕ → NvmeCommand
create_io_completion_queue c_id qid ptr size = record default {
  opcode = 5;
  c_id = c_id;
  d_ptr0 = ptr;
  cdw10 = bit_or (u32 (size << 16)) qid;
  cdw11 = 1;
}

unfoldable pub create_io_submission_queue : ℕ → ℕ → ℕ → ℕ → ℕ → NvmeCommand
create_io_submission_queue c_id q_id ptr size cq_id = record default {
  opcode = 1;
  c_id = c_id;
  d_ptr0 = ptr;
  cdw10 = bit_or (u32 (size << 16)) q_id;
  cdw11 = bit_or (u32 (cq_id << 16)) 1;
}

unfoldable pub delete_io_submission_queue : ℕ → ℕ → NvmeCommand
delete_io_submission_queue c_id q_id = record default { opcode = 0; c_id = c_id; cdw10 = q_id }

unfoldable pub delete_io_completion_queue : ℕ → ℕ → NvmeCommand
delete_io_completion_queue c_id q_id = record default { opcode = 4; c_id = c_id; cdw10 = q_id }

unfoldable pub identify_namespace : ℕ → ℕ → ℕ → NvmeCommand
identify_namespace c_id ptr ns_id = record default {
  opcode = 6;
  c_id = c_id;
  ns_id = ns_id;
  d_ptr0 = ptr;
  cdw10 = 0;
}

unfoldable pub identify_controller : ℕ → ℕ → NvmeCommand
identify_controller c_id ptr = record default { opcode = 6; c_id = c_id; d_ptr0 = ptr; cdw10 = 1 }

unfoldable pub identify_namespace_list : ℕ → ℕ → ℕ → NvmeCommand
identify_namespace_list c_id ptr base = record default {
  opcode = 6;
  c_id = c_id;
  ns_id = base;
  d_ptr0 = ptr;
  cdw10 = 2;
}

-- The parameter `c_id` is not stored: the entry keeps the default 0.
unfoldable pub get_features : ℕ → ℕ → ℕ → NvmeCommand
get_features c_id ptr fid = record default { opcode = 0xA; d_ptr0 = ptr; cdw10 = fid }

unfoldable pub io_read : ℕ → ℕ → ℕ → ℕ → ℕ → ℕ → NvmeCommand
io_read c_id ns_id lba blocks_1 ptr0 ptr1 = record default {
  opcode = 2;
  c_id = c_id;
  ns_id = ns_id;
  d_ptr0 = ptr0;
  d_ptr1 = ptr1;
  cdw10 = u32 lba;
  cdw11 = u32 (lba >>> 32);
  cdw12 = blocks_1;
}

unfoldable pub io_write : ℕ → ℕ → ℕ → ℕ → ℕ → ℕ → NvmeCommand
io_write c_id ns_id lba blocks_1 ptr0 ptr1 = record default {
  opcode = 1;
  c_id = c_id;
  ns_id = ns_id;
  d_ptr0 = ptr0;
  d_ptr1 = ptr1;
  cdw10 = u32 lba;
  cdw11 = u32 (lba >>> 32);
  cdw12 = blocks_1;
}

unfoldable pub format_nvm : ℕ → ℕ → NvmeCommand
format_nvm c_id ns_id = record default {
  opcode = 0x80;
  c_id = c_id;
  ns_id = ns_id;
  cdw10 = u32 (1 << 9);
}

unfoldable pub async_event_req : ℕ → NvmeCommand
async_event_req c_id = record default { opcode = 0xC; c_id = c_id }

-- The opcode keeps the default 0. `numd << 16` drops the upper half of `numd`.
unfoldable pub get_log_page : ℕ → ℕ → ℕ → ℕ → ℕ → ℕ → NvmeCommand
get_log_page c_id numd ptr0 ptr1 lid lpid = record default {
  c_id = c_id;
  d_ptr0 = ptr0;
  d_ptr1 = ptr1;
  cdw10 = bit_or (u32 (numd << 16)) lid;
  cdw11 = bit_or (u32 (lpid << 16)) (numd >>> 16);
}

-- `deac as u32`.
abbrev pub flag_bit : Bool → ℕ
flag_bit b = if b then 1 else 0

unfoldable pub write_zeroes : ℕ → ℕ → ℕ → ℕ → Bool → NvmeCommand
write_zeroes c_id ns_id slba nlb deac = record default {
  opcode = 8;
  c_id = c_id;
  ns_id = ns_id;
  cdw10 = u32 slba;
  cdw11 = u32 (slba >>> 32);
  cdw12 = bit_or (u32 (flag_bit deac << 25)) nlb;
}
