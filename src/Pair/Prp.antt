-- ===== src/Pair/Prp.antt =====
-- The two data pointers of a command, as the controller follows them: the transfer begins at the
-- first pointer and goes on, behind the end of that memory page of 4096 bytes, at the second.
use vroom.Common.{
  ℕ, ◌+◌, ◌-◌, ◌*◌, ◌%◌, ◌^◌, ◌≤◌, ◌<◌, ◌≡◌, Bool, true, false, ltb, leb, if◌then◌else◌, arith,
}
use vroom.Common.Words.{u16, sub_u16}
use vroom.Memory.Chunks.{DmaChunk}
use vroom.Command.{NvmeCommand, io_read, io_write}
use vroom.Command.Fields.{Transfers, io-Transfers}
use vroom.Pair.{chunk_command, command_id, second_pointer, block_count}

-- The address of the `i`-th byte of a transfer that touches at most two pages.
abbrev pub byte_address : NvmeCommand → ℕ → ℕ
byte_address e i =
    let first = 4096 - e.d_ptr0 % 4096 in
    if ltb i first then e.d_ptr0 + i else e.d_ptr1 + (i - first)

abbrev pub opcode_of : Bool → ℕ
opcode_of write = if write then 1 else 2

second_pointer_lem :
    (addr n : ℕ)
    → addr + 4096 < 2 ^ 64
    → second_pointer addr n ≡ (if leb (n * 512) 4096 then 0 else addr + 4096)
unfolding second_pointer
second_pointer_lem addr n fits = ground arith

count : (len : ℕ) → 0 < len → len ≤ 8192 → sub_u16 (u16 (block_count len)) 1 + 1 ≡ block_count len
count len pos small = omega arith

asked :
    (id tail lba : ℕ) (write : Bool) (c : DmaChunk)
    → lba < 2 ^ 64
    → 0 < c.len
    → c.len ≤ 8192
    → Transfers
        (chunk_command id tail lba write c)
        (opcode_of write)
        (command_id id tail)
        1
        lba
        (block_count c.len)
        c.phys_addr
        (second_pointer c.phys_addr (block_count c.len))
unfolding chunk_command
asked id tail lba true c l p s = rw (count c.len p s) at (
    (io-Transfers (command_id id tail) 1 lba (sub_u16 (u16 (block_count c.len)) 1) c.phys_addr
      (second_pointer c.phys_addr (block_count c.len)) l (omega arith)).1)
asked id tail lba false c l p s = rw (count c.len p s) at (
    (io-Transfers (command_id id tail) 1 lba (sub_u16 (u16 (block_count c.len)) 1) c.phys_addr
      (second_pointer c.phys_addr (block_count c.len)) l (omega arith)).0)

-- The command for a chunk of 1 to 8192 bytes asks for `n` blocks from the given block on, in the
-- direction asked for, with `n` the least number of blocks of 512 bytes that hold the chunk. Its
-- first pointer is the address of the chunk; the second is 0 if the `n` blocks fit a page of 4096
-- bytes, and else the address one page further, where that is a 64-bit number.
pub chunk_command-Transfers :
    (id tail lba : ℕ) (write : Bool) (c : DmaChunk)
    → lba < 2 ^ 64
    → 0 < c.len
    → c.len ≤ 8192
    → c.phys_addr + 4096 < 2 ^ 64
    → (n : ℕ) × (ptr1 : ℕ) × Transfers
        (chunk_command id tail lba write c)
        (opcode_of write)
        (command_id id tail)
        1
        lba
        n
        c.phys_addr
        ptr1
      × (c.len ≤ n * 512)
      × (n * 512 < c.len + 512)
      × (ptr1 ≡ (if leb (n * 512) 4096 then 0 else c.phys_addr + 4096))
chunk_command-Transfers id tail lba write c l p s fits = (
  block_count c.len,
  second_pointer c.phys_addr (block_count c.len),
  asked id tail lba write c l p s,
  omega arith,
  omega arith,
  second_pointer_lem c.phys_addr (block_count c.len) fits,
)

-- For a chunk of 1 to 8192 bytes that begins on a page, every byte of every block of the transfer
-- lies at the same offset from the beginning of the chunk as in the transfer.
pub chunk_command_addresses :
    (id tail lba : ℕ) (write : Bool) (c : DmaChunk) (i : ℕ)
    → c.phys_addr % 4096 ≡ 0
    → c.phys_addr + 8192 ≤ 2 ^ 64
    → 0 < c.len
    → c.len ≤ 8192
    → i < block_count c.len * 512
    → byte_address (chunk_command id tail lba write c) i ≡ c.phys_addr + i
unfolding chunk_command second_pointer io_read io_write
chunk_command_addresses id tail lba true c i aligned fits pos small lt = ground arith
chunk_command_addresses id tail lba false c i aligned fits pos small lt = ground arith
