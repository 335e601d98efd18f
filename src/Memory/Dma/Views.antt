-- ===== src/Memory/Dma/Views.antt =====
-- What the views of a DMA buffer cover.
use vroom.Common.{ℕ, ◌+◌, ◌-◌, ◌≤◌, ◌<◌, ◌^◌, ◌≡◌, refl, arith}
use vroom.Common.Outcome.{ok, panic}
use vroom.Memory.Dma.{Dma, Range, slice, index_range, index_to, index_full}

-- A buffer that lies inside the 64-bit address space.
pub record IsMapped (d : Dma) : Type 0 where
  pub virt_fits : d.virt + d.size < 2 ^ 64
  pub phys_fits : d.phys + d.size < 2 ^ 64

abbrev pub shifted : Range → Range → Range
shifted r r' = record { start = r.start + r'.start; stop = r.start + r'.stop }

-- A slice of a mapped buffer by a range that runs forwards: up to the size of the buffer it is the
-- part of the buffer that the range names, in both address spaces, and again a mapped buffer; the
-- index operator gives the same bytes; a range that ends behind the buffer panics in both.
pub slice_lem :
    (d : Dma) (r : Range)
    → IsMapped d
    → r.start ≤ r.stop
    → (r.stop ≤ d.size
        → (slice d r
            ≡ ok (record {
              virt = d.virt + r.start;
              phys = d.phys + r.start;
              size = r.stop - r.start;
            }))
          × (index_range d r ≡ ok (record { ptr = d.virt + r.start; len = r.stop - r.start })))
      × (d.size < r.stop → (slice d r ≡ panic) × (index_range d r ≡ panic))
unfolding slice index_range
slice_lem d r m f = ground arith

-- A slice of a slice is the slice by the shifted range.
slice-slice :
    (d e f : Dma) (r r' : Range)
    → IsMapped d
    → r.start ≤ r.stop
    → r'.start ≤ r'.stop
    → slice d r ≡ ok e
    → slice e r' ≡ ok f
    → slice d (shifted r r') ≡ ok f
unfolding slice
slice-slice d e f r r' m p q s t = ground arith

-- `&buf[..n]` and `&buf[..]` are the first `n` bytes and all bytes of a mapped buffer; the former
-- panics exactly if the buffer is shorter.
index_prefix :
    (d : Dma) (n : ℕ)
    → IsMapped d
    → (index_full d ≡ ok (record { ptr = d.virt; len = d.size }))
      × (n ≤ d.size → index_to d n ≡ ok (record { ptr = d.virt; len = n }))
      × (d.size < n → index_to d n ≡ panic)
unfolding index_full index_to
index_prefix d n m = ground arith

-- A range that runs backwards, from a place in the buffer or at its end, is not refused: the slice of
-- a mapped buffer of less than 2^63 bytes is accepted, starts at the start of the range in both
-- address spaces, and is longer than the whole buffer.
pub slice_backwards :
    (d : Dma) (r : Range)
    → IsMapped d
    → d.size < 2 ^ 63
    → r.stop < r.start
    → r.start ≤ d.size
    → (e : Dma) × (slice d r ≡ ok e)
      × (e.virt ≡ d.virt + r.start)
      × (e.phys ≡ d.phys + r.start)
      × (d.size < e.size)
unfolding slice
slice_backwards d r m small b w = (
  record { virt = d.virt + r.start; phys = d.phys + r.start; size = 2 ^ 64 + r.stop - r.start },
  ground arith,
  refl,
  refl,
  ground arith,
)
