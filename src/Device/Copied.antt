-- ===== src/Device/Copied.antt =====
-- The transfers of `NvmeDevice` that copy through its own buffer: `write_copied`, `read_copied`,
-- `batched_write` and `batched_read`. The bytes of the caller are a function of the index, with a
-- length.
pub mod Batches
pub mod Overfull
pub mod Whole
use vroom.Common.{
  ℕ, zero, suc, ◌+◌, ◌-◌, ◌*◌, ◌/◌, ◌^◌, min, Bool, true, false, Option, none, some, ltb, leb,
  if◌then◌else◌,
}
use vroom.Common.Words.{u16, u32, u64, sub_u16, sub_u64}
use vroom.Common.Outcome
use vroom.Common.Outcome.{Outcome, ok, err, panic, spin, assert}
use vroom.Memory.Dma.{index_to}
use vroom.Command.{NvmeCommand, io_read, io_write}
use vroom.Queues.Submission.{submit_checked}
use vroom.Host.{Controller}
use vroom.Device.State.{
  NvmeDevice, NvmeNamespace, Action, pure, lift, gets, modify, lookup, unwrap, ◌>>=◌, ◌>>◌,
}
use vroom.Device.Registers.{sq_tail, write_reg_idx}
use vroom.Device.Io.{count_submission, complete_io, namespace_io}

-- `data.chunks(size)`: the number of chunks, and the offset and the length of chunk `j`.
abbrev pub chunk_count : ℕ → ℕ → ℕ
chunk_count size len = (len + size - 1) / size

abbrev pub chunk_len : ℕ → ℕ → ℕ → ℕ
chunk_len size len j = min size (len - j * size)

-- The number of blocks of `len` bytes, rounded up.
abbrev pub blocks_for : NvmeNamespace → ℕ → ℕ
blocks_for ns len = sub_u64 (u64 (len + ns.block_size)) 1 / ns.block_size

-- The second data pointer in `submit_io`.
unfoldable pub batch_pointer : NvmeDevice → NvmeNamespace → ℕ → ℕ → ℕ
batch_pointer d ns blocks addr =
    let bytes = u64 (blocks * ns.block_size) in
    if leb bytes 4096
    then 0
    else if leb bytes 8192
    then u64 (addr + 4096)
    else u64 (d.prp_list.phys + sub_u64 addr d.buffer.phys / 8)

unfoldable pub batch_command : NvmeDevice → NvmeNamespace → ℕ → ℕ → ℕ → Bool → NvmeCommand
batch_command d ns addr blocks lba write =
    (if write then io_write else io_read) (u16 d.io_sq.tail) ns.id lba (sub_u16 (u16 blocks) 1) addr
      (batch_pointer d ns blocks addr)

module _ {W : Type 0} where
  -- `self.io_sq.submit_checked`
  abbrev pub try_submit : NvmeCommand → Action W (Option ℕ)
  try_submit entry s = elim (submit_checked entry s.dev.io_sq) [
    | ok (r, q) ↦ (ok r, record s { dev = record (s.dev) { io_sq = q } })
    | err e ↦ (err e, s)
    | panic ↦ (panic, s)
    | spin ↦ (spin, s)
  ]

  unfoldable pub submit_io : NvmeNamespace → ℕ → ℕ → ℕ → Bool → Action W (Option ℕ)
  submit_io ns addr blocks lba write = do
    lift (assert (ltb 0 blocks))
    lift (assert (leb blocks 0x1_0000))
    entry ← gets (λ d. batch_command d ns addr blocks lba write)
    try_submit entry

  -- `self.buffer[..len]`, which panics behind the end of the buffer.
  abbrev pub prefix : ℕ → Action W (Unit {0})
  prefix len s = (Outcome.◌>>=◌ (index_to s.dev.buffer len) (λ v. ok tt), s)

  -- `self.buffer[..len].copy_from_slice(chunk)`, for the bytes from `offset` on.
  abbrev pub copy_in : (ℕ → ℕ) → ℕ → ℕ → Action W (Unit {0})
  copy_in input offset len = do
    prefix len
    modify λ d. record d { copied = λ i. if ltb i len then input (offset + i) else d.copied i }

  -- `chunk.copy_from_slice(&self.buffer[..len])`
  abbrev pub copy_out : Controller → (ℕ → ℕ) → ℕ → ℕ → Action W (ℕ → ℕ)
  copy_out ctl dest offset len s =
      (do
        prefix len
        pure λ i.
            if leb offset i
            then (if ltb i (offset + len)
                then ctl.memory s.host.log s.host.clock (u64 (s.dev.buffer.virt + (i - offset)))
                else dest i)
            else dest i)
        s

  -- The loop over one batch, with `n` requests to go and the next one the `i`-th. A request that
  -- finds the queue full is dropped.
  unfoldable pub submit_batch : NvmeNamespace → ℕ → ℕ → Bool → ℕ → ℕ → ℕ → Action W ℕ
  submit_batch ns batch_size blocks write zero i lba = pure lba
  submit_batch ns batch_size blocks write (suc n) i lba = do
    phys ← gets (λ d. d.buffer.phys)
    r ← submit_io ns (u64 (phys + u64 (i * batch_size))) blocks lba write
    elim r [
      | none ↦ pure tt
      | some tail ↦ (do modify count_submission; write_reg_idx sq_tail 1 (u32 tail))
    ]
    submit_batch ns batch_size blocks write n (i + 1) (u64 (lba + blocks))

module _ (ctl : Controller) (fuel : ℕ) {W : Type 0} where
  -- The part of `batched_write` and `batched_read` for a chunk of `len` bytes; both divisions panic
  -- at 0.
  unfoldable pub batch : NvmeNamespace → ℕ → ℕ → ℕ → Bool → Action W ℕ
  batch ns batch_len len lba write = do
    let n = min batch_len (len / 512)
    lift (assert (ltb 0 n))
    lift (assert (ltb 0 ns.block_size))
    let batch_size = len / n
    lba' ← submit_batch ns batch_size (batch_size / ns.block_size) write n 0 lba
    reported ← complete_io ctl fuel n
    head ← unwrap reported
    modify λ d. record d { io_sq = record (d.io_sq) { head = head } }
    pure lba'

  -- The loops over the chunks, with `n` chunks to go and the next one the `j`-th.
  unfoldable pub write_batches : NvmeNamespace → (ℕ → ℕ) → ℕ → ℕ → ℕ → ℕ → ℕ → Action W (Unit {0})
  write_batches ns input len batch_len zero j lba = pure tt
  write_batches ns input len batch_len (suc n) j lba = do
    copy_in input (j * 2 ^ 21) (chunk_len (2 ^ 21) len j)
    lba' ← batch ns batch_len (chunk_len (2 ^ 21) len j) lba true
    write_batches ns input len batch_len n (j + 1) lba'

  unfoldable pub read_batches : NvmeNamespace → (ℕ → ℕ) → ℕ → ℕ → ℕ → ℕ → ℕ → Action W (ℕ → ℕ)
  read_batches ns dest len batch_len zero j lba = pure dest
  read_batches ns dest len batch_len (suc n) j lba = do
    lba' ← batch ns batch_len (chunk_len (2 ^ 21) len j) lba false
    dest' ← copy_out ctl dest (j * 2 ^ 21) (chunk_len (2 ^ 21) len j)
    read_batches ns dest' len batch_len n (j + 1) lba'

  -- `*self.namespaces.get(&id).unwrap()`
  abbrev pub namespace_of : ℕ → Action W NvmeNamespace
  namespace_of id = do found ← gets (λ d. lookup id d.namespaces); unwrap found

  unfoldable pub batched_write : ℕ → (ℕ → ℕ) → ℕ → ℕ → ℕ → Action W (Unit {0})
  batched_write ns_id input len lba batch_len = do
    ns ← namespace_of ns_id
    write_batches ns input len batch_len (chunk_count (2 ^ 21) len) 0 lba

  -- The result is what `dest` holds at the end.
  unfoldable pub batched_read : ℕ → (ℕ → ℕ) → ℕ → ℕ → ℕ → Action W (ℕ → ℕ)
  batched_read ns_id dest len lba batch_len = do
    ns ← namespace_of ns_id
    read_batches ns dest len batch_len (chunk_count (2 ^ 21) len) 0 lba

  -- The loops of `write_copied` and `read_copied`, with `n` chunks to go and the next one the `j`-th.
  -- The division by the block size panics at 0.
  unfoldable pub write_chunks : NvmeNamespace → (ℕ → ℕ) → ℕ → ℕ → ℕ → ℕ → Action W (Unit {0})
  write_chunks ns input len zero j lba = pure tt
  write_chunks ns input len (suc n) j lba = do
    let size = chunk_len (128 * 4096) len j
    copy_in input (j * (128 * 4096)) size
    lift (assert (ltb 0 ns.block_size))
    phys ← gets (λ d. d.buffer.phys)
    namespace_io ctl fuel 1 (blocks_for ns size) lba phys true
    write_chunks ns input len n (j + 1) (u64 (lba + blocks_for ns size))

  unfoldable pub read_chunks : NvmeNamespace → (ℕ → ℕ) → ℕ → ℕ → ℕ → ℕ → Action W (ℕ → ℕ)
  read_chunks ns dest len zero j lba = pure dest
  read_chunks ns dest len (suc n) j lba = do
    let size = chunk_len (128 * 4096) len j
    lift (assert (ltb 0 ns.block_size))
    phys ← gets (λ d. d.buffer.phys)
    namespace_io ctl fuel 1 (blocks_for ns size) lba phys false
    dest' ← copy_out ctl dest (j * (128 * 4096)) size
    read_chunks ns dest' len n (j + 1) (u64 (lba + blocks_for ns size))

  unfoldable pub write_copied : (ℕ → ℕ) → ℕ → ℕ → Action W (Unit {0})
  write_copied input len lba = do
    ns ← namespace_of 1
    write_chunks ns input len (chunk_count (128 * 4096) len) 0 lba

  unfoldable pub read_copied : (ℕ → ℕ) → ℕ → ℕ → Action W (ℕ → ℕ)
  read_copied dest len lba = do
    ns ← namespace_of 1
    read_chunks ns dest len (chunk_count (128 * 4096) len) 0 lba
