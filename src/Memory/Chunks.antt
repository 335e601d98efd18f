-- ===== src/Memory/Chunks.antt =====
-- `DmaChunks` of src/memory.rs, the iterator over the chunks of a buffer, at an element type of
-- `width` bytes (`size_of::<T>()`; the only implementation of `DmaSlice` has `T = u8`, width 1).
pub mod Tiling
pub mod Wide
use mathlib.Core.Option
use vroom.Common.{
  ℕ, zero, suc, ◌+◌, ◌-◌, ◌*◌, ◌/◌, ◌%◌, ◌^◌, min, Option, none, some, List, [], ◌∷◌, leb,
  if◌then◌else◌,
}
use vroom.Common.Words.{u64}
use vroom.Memory.Dma.{Dma}

pub record DmaChunks : Type 0 where
  pub current_offset : ℕ
  pub chunk_size : ℕ
  pub dma : Dma

-- `slice: &mut [T]` is the address `ptr` and the number `len` of its elements.
pub record DmaChunk : Type 0 where
  pub phys_addr : ℕ
  pub ptr : ℕ
  pub len : ℕ

-- `DmaSlice::chunks`
abbrev pub chunks : Dma → ℕ → DmaChunks
chunks d bytes = record { current_offset = 0; chunk_size = bytes; dma = d }

module _ (width : ℕ) where
  abbrev pub chunk_len : DmaChunks → ℕ
  chunk_len it = min it.chunk_size ((it.dma.size - it.current_offset) / width)

  -- `Iterator::next`
  unfoldable pub next : DmaChunks → Option DmaChunk × DmaChunks
  next it = if leb it.dma.size it.current_offset then (none, it) else (
    some (record {
      phys_addr = u64 (it.dma.phys + it.current_offset * width);
      ptr = u64 (it.dma.virt + it.current_offset * width);
      len = chunk_len it;
    }),
    record it { current_offset = it.current_offset + chunk_len it },
  )

  -- The chunks that a `for` loop sees; `none` if the iterator has not ended after `fuel` calls.
  unfoldable pub collect : ℕ → DmaChunks → Option (List DmaChunk)
  collect zero it = none
  collect (suc fuel) it =
      let (c?, it') = next it in
      elim c? [ none ↦ some [] | some c ↦ Option.map (λ cs. c ∷ cs) (collect fuel it') ]
