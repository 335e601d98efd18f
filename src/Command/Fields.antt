-- ===== src/Command/Fields.antt =====
-- What the controller reads back out of the command dwords.
use Prim.Native.Nat.{bit_or}
use mathlib.Core.Path.{◌≡⟨◌⟩◌, ◌∎}
use vroom.Common.{ℕ, ◌+◌, ◌*◌, ◌/◌, ◌%◌, ◌^◌, ◌<◌, ◌≡◌, refl, ap, Bool, true, false, arith}
use vroom.Common.Words.{u32, ◌<<◌}
use vroom.Common.Bits.{bit_or-eq-add}
use vroom.Command.{
  NvmeCommand, create_io_completion_queue, create_io_submission_queue, io_read, io_write,
  get_log_page, write_zeroes, flag_bit,
}

-- `((hi as u32) << 16) | lo` of two `u16` values.
pub pack16 : (hi lo : ℕ) → hi < 2 ^ 16 → lo < 2 ^ 16 → bit_or (u32 (hi << 16)) lo ≡ hi * 2 ^ 16 + lo
pack16 hi lo h l =
    bit_or (u32 (hi << 16)) lo
    ≡⟨ ap (λ x. bit_or x lo) (omega arith) ⟩ bit_or (hi * 2 ^ 16) lo
    ≡⟨ bit_or-eq-add 16 hi lo l ⟩ hi * 2 ^ 16 + lo ∎

-- The starting block and the number of blocks of a read, a write or a write-zeroes command.
abbrev pub start_lba : NvmeCommand → ℕ
start_lba c = c.cdw11 * 2 ^ 32 + c.cdw10

abbrev pub block_count : NvmeCommand → ℕ
block_count c = c.cdw12 % 2 ^ 16 + 1

-- The queue that a create command names, and the number of its entries.
abbrev queue_id : NvmeCommand → ℕ
queue_id c = c.cdw10 % 2 ^ 16

abbrev queue_size : NvmeCommand → ℕ
queue_size c = c.cdw10 / 2 ^ 16 + 1

-- The completion queue that a submission queue is tied to.
abbrev linked_cq : NvmeCommand → ℕ
linked_cq c = c.cdw11 / 2 ^ 16

-- The transfer that a command asks for: its direction (opcode), identifier and namespace, the
-- blocks, and the two data pointers, and nothing else: no other bit is set.
pub record Transfers (c : NvmeCommand) (opcode c_id ns_id lba blocks ptr0 ptr1 : ℕ) : Type 0 where
  pub direction : c.opcode ≡ opcode
  pub tagged : c.c_id ≡ c_id
  pub namespace : c.ns_id ≡ ns_id
  pub first_block : start_lba c ≡ lba
  pub length : block_count c ≡ blocks
  pub pointers : (c.d_ptr0 ≡ ptr0) × (c.d_ptr1 ≡ ptr1)
  pub no_metadata : (c.flags ≡ 0) × (c.rsvd ≡ 0) × (c.md_ptr ≡ 0)
  pub no_options : (c.cdw12 < 2 ^ 16) × (c.cdw13 ≡ 0) × (c.cdw14 ≡ 0) × (c.cdw15 ≡ 0)

-- For every 64-bit block address and every count of 1 to 65536 blocks, the read and the write
-- command built with the count less one ask for exactly that transfer: no bit of the address is
-- lost over the two dwords, and no other field is set. The two differ in their opcode alone (2 for a
-- read, 1 for a write).
pub io-Transfers :
    (c_id ns_id lba blocks_1 ptr0 ptr1 : ℕ)
    → lba < 2 ^ 64
    → blocks_1 < 2 ^ 16
    → Transfers
        (io_read c_id ns_id lba blocks_1 ptr0 ptr1)
        2
        c_id
        ns_id
        lba
        (blocks_1 + 1)
        ptr0
        ptr1
      × Transfers
          (io_write c_id ns_id lba blocks_1 ptr0 ptr1)
          1
          c_id
          ns_id
          lba
          (blocks_1 + 1)
          ptr0
          ptr1
      × (io_write c_id ns_id lba blocks_1 ptr0 ptr1
          ≡ record (io_read c_id ns_id lba blocks_1 ptr0 ptr1) { opcode = 1 })
unfolding io_read io_write
io-Transfers c_id ns_id lba blocks_1 ptr0 ptr1 h b = (ground arith, ground arith, refl)

-- The commands that create a queue pair `q_id` of `size + 1` entries: both name the queue `q_id`
-- and its size, the submission queue is tied to the completion queue `q_id`, and both queues are
-- physically contiguous at the given addresses.
create_pair :
    (c_id c_id' q_id cq_ptr sq_ptr size : ℕ)
    → q_id < 2 ^ 16
    → size < 2 ^ 16
    → let cq = create_io_completion_queue c_id q_id cq_ptr size in
      let sq = create_io_submission_queue c_id' q_id sq_ptr size q_id in
      (queue_id cq ≡ q_id)
      × (queue_size cq ≡ size + 1)
      × (queue_id sq ≡ q_id)
      × (queue_size sq ≡ size + 1)
      × (linked_cq sq ≡ queue_id cq)
      × (cq.cdw11 % 2 ≡ 1)
      × (sq.cdw11 % 2 ≡ 1)
      × (cq.d_ptr0 ≡ cq_ptr)
      × (sq.d_ptr0 ≡ sq_ptr)
unfolding create_io_completion_queue create_io_submission_queue
create_pair c_id c_id' q_id cq_ptr sq_ptr size q s =
    ground (arith, pack16 size q_id s q, pack16 q_id 1 q (omega arith))

-- A log page request carries the dword count in two halves, the low one in the top of dword 10 and
-- the high one in the bottom of dword 11, beside the page and the specific identifier: each of the
-- three is read back unchanged.
get_log_page_fields :
    (c_id numd ptr0 ptr1 lid lpid : ℕ)
    → numd < 2 ^ 32
    → lid < 2 ^ 8
    → lpid < 2 ^ 16
    → let c = get_log_page c_id numd ptr0 ptr1 lid lpid in
      (c.cdw11 % 2 ^ 16 * 2 ^ 16 + c.cdw10 / 2 ^ 16 ≡ numd)
      × (c.cdw10 % 2 ^ 16 ≡ lid)
      × (c.cdw11 / 2 ^ 16 ≡ lpid)
unfolding get_log_page
get_log_page_fields c_id numd ptr0 ptr1 lid lpid n l p =
    ground (arith, low, pack16 lpid (numd / 2 ^ 16) p (omega arith))
  where
    low : bit_or (u32 (numd << 16)) lid ≡ numd % 2 ^ 16 * 2 ^ 16 + lid
    low =
        bit_or (u32 (numd << 16)) lid
        ≡⟨ ap (λ x. bit_or x lid) (omega arith) ⟩ bit_or (numd % 2 ^ 16 * 2 ^ 16) lid
        ≡⟨ bit_or-eq-add 16 (numd % 2 ^ 16) lid (omega arith) ⟩ numd % 2 ^ 16 * 2 ^ 16 + lid ∎

-- A write-zeroes command names the given first block and count, and its deallocate bit (bit 25 of
-- dword 12) is set exactly when it was asked for.
write_zeroes_fields :
    (c_id ns_id slba nlb : ℕ) (deac : Bool)
    → slba < 2 ^ 64
    → nlb < 2 ^ 16
    → let c = write_zeroes c_id ns_id slba nlb deac in
      (start_lba c ≡ slba) × (block_count c ≡ nlb + 1) × (c.cdw12 / 2 ^ 25 % 2 ≡ flag_bit deac)
unfolding write_zeroes
write_zeroes_fields c_id ns_id slba nlb true s n =
    ground (arith, bit_or-eq-add 25 1 nlb (omega arith))
write_zeroes_fields c_id ns_id slba nlb false s n =
    ground (arith, bit_or-eq-add 25 0 nlb (omega arith))
