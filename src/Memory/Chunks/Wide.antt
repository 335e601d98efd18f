-- ===== src/Memory/Chunks/Wide.antt =====
-- The iterator at element types of more than one byte: its end test compares an offset counted in
-- elements with a size in bytes, and its length divides what is left by the width.
use native.Mathlib.Nat.{div-lt_self}
use vroom.Common.{ℕ, zero, suc, ◌-◌, ◌<◌, ◌≡◌, refl, ◌≢◌, none, arith}
use vroom.Memory.Chunks.{DmaChunks, next, collect}

module _ (width : ℕ) (wide : 1 < width) where
  next_goes_on :
      (it : DmaChunks)
      → it.current_offset < it.dma.size
      → ((next width it).0 ≢ none)
        × ((next width it).1.dma ≡ it.dma)
        × ((next width it).1.current_offset < it.dma.size)
  unfolding next
  next_goes_on it lt = ground (arith, div-lt_self {n = it.dma.size - it.current_offset} {k = width})

  -- At an element type of more than one byte, an iterator whose offset is below the size of its buffer
  -- never ends: whatever the number of calls, there is a further chunk.
  pub collect_never_ends :
      (fuel : ℕ) (it : DmaChunks) → it.current_offset < it.dma.size → collect width fuel it ≡ none
  unfolding collect
  collect_never_ends zero it lt = refl
  collect_never_ends (suc fuel) it lt =
      ground (arith, next_goes_on it lt, collect_never_ends fuel (next width it).1)
