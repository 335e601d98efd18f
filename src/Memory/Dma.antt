-- ===== src/Memory/Dma.antt =====
-- `Dma<u8>` of src/memory.rs: a mapped buffer, and the views that its indexing operators give.
pub mod Views
use vroom.Common.{ℕ, ◌+◌, ◌-◌, ◌%◌, ◌^◌, leb}
use vroom.Common.Words.{u64, sub_u64}
use vroom.Common.Outcome.{Outcome, ok, ◌>>=◌, ◌>>◌, assert}

pub record Dma : Type 0 where
  pub virt : ℕ
  pub phys : ℕ
  pub size : ℕ

-- `Range<usize>`: nothing keeps `start` below `end`.
pub record Range : Type 0 where
  pub start : ℕ
  pub stop : ℕ

-- A `&[u8]` made by `from_raw_parts`.
pub record Slice : Type 0 where
  pub ptr : ℕ
  pub len : ℕ

-- `DmaSlice::slice`
unfoldable pub slice : Dma → Range → Outcome Dma
slice d index = do
  assert (leb index.stop d.size)
  ok (record {
    virt = u64 (d.virt + index.start);
    phys = u64 (d.phys + index.start);
    size = sub_u64 index.stop index.start;
  })

-- `Index<Range<usize>>` and `IndexMut<Range<usize>>`
unfoldable pub index_range : Dma → Range → Outcome Slice
index_range d index = do
  assert (leb index.stop d.size)
  ok (record { ptr = u64 (d.virt + index.start); len = sub_u64 index.stop index.start })

-- `Index<RangeTo<usize>>` and `IndexMut<RangeTo<usize>>`
unfoldable pub index_to : Dma → ℕ → Outcome Slice
unfolding index_range
index_to d stop = index_range d (record { start = 0; stop = stop })

-- `Index<RangeFull>` and `IndexMut<RangeFull>`
unfoldable pub index_full : Dma → Outcome Slice
unfolding index_range
index_full d = index_range d (record { start = 0; stop = d.size })
