-- ===== src/Memory/Tests.antt =====
-- Tests and instances for page sizes, buffers and chunks.
use vroom.Common.{suc, ◌+◌, ◌*◌, ◌%◌, ◌≤◌, ◌<◌, ◌≡◌, refl, none, some, List, [], ◌∷◌, arith}
use vroom.Common.Outcome.{ok, panic}
use vroom.Memory.Pagesize.{page_4k, page_1g, size, shift_up, from_str, display}
use vroom.Memory.Pagesize.Rounding.{shift_up-least}
use vroom.Memory.Dma.{Dma, Range, slice, index_range}
use vroom.Memory.Dma.Views.{IsMapped, slice_lem, slice_backwards}
use vroom.Memory.Chunks.{DmaChunk, chunks, next, collect}
use vroom.Memory.Chunks.Tiling.{Tiles, collect-Tiles}
use vroom.Memory.Chunks.Wide.{collect_never_ends}

abbrev buffer : Dma
buffer = record { virt = 0x10000; phys = 0x80000; size = 20000 }

abbrev inner : Range
inner = record { start = 4096; stop = 12288 }

abbrev within : Range
within = record { start = 10; stop = 20 }

abbrev backwards : Range
backwards = record { start = 100; stop = 50 }

buffer-IsMapped : IsMapped buffer
buffer-IsMapped = omega arith

abbrev cut : Dma
cut = record { virt = 0x11000; phys = 0x81000; size = 8192 }

abbrev cut_twice : Dma
cut_twice = record { virt = 0x1100a; phys = 0x8100a; size = 10 }

cut_at_inner : slice buffer inner ≡ ok cut
unfolding slice
cut_at_inner = refl

cut_at_within : slice cut within ≡ ok cut_twice
unfolding slice
cut_at_within = refl

three_chunks :
    collect 1 4 (chunks buffer 8192)
    ≡ some (
        record { phys_addr = 0x80000; ptr = 0x10000; len = 8192 }
        ∷ record { phys_addr = 0x82000; ptr = 0x12000; len = 8192 }
        ∷ record { phys_addr = 0x84000; ptr = 0x14000; len = 3616 }
        ∷ [])
unfolding collect next
three_chunks = refl

parsed : from_str "1g" ≡ page_1g
unfolding from_str
parsed = refl

shown : display page_4k ≡ "4KiB"
unfolding display
shown = refl

shift_up-least_example :
    (shift_up page_4k 5000 % size page_4k ≡ 0)
    × (5000 ≤ shift_up page_4k 5000)
    × (shift_up page_4k 5000 < 5000 + size page_4k)
    × (5000 ≤ 3 * size page_4k → shift_up page_4k 5000 ≤ 3 * size page_4k)
    × (shift_up page_4k (shift_up page_4k 5000) ≡ shift_up page_4k 5000)
unfolding size
shift_up-least_example = shift_up-least page_4k 5000 3 (omega arith)

slice_lem_example :
    (12288 ≤ 20000
      → (slice buffer inner ≡ ok cut)
        × (index_range buffer inner ≡ ok (record { ptr = 0x11000; len = 8192 })))
    × (20000 < 12288 → (slice buffer inner ≡ panic) × (index_range buffer inner ≡ panic))
slice_lem_example = slice_lem buffer inner buffer-IsMapped (omega arith)

slice_backwards_example :
    (e : Dma) × (slice buffer backwards ≡ ok e)
    × (e.virt ≡ 0x10000 + backwards.start)
    × (e.phys ≡ 0x80000 + backwards.start)
    × (20000 < e.size)
slice_backwards_example =
    slice_backwards buffer backwards buffer-IsMapped (omega arith) (omega arith) (omega arith)

collect-Tiles_example :
    (cs : List DmaChunk) × (collect 1 (suc 20000) (chunks buffer 8192) ≡ some cs)
    × Tiles buffer 8192 0 cs
collect-Tiles_example = collect-Tiles buffer 8192 buffer-IsMapped (omega arith)

collect_never_ends_example : collect 8 1000 (chunks buffer 64) ≡ none
collect_never_ends_example =
    collect_never_ends 8 (omega arith) 1000 (chunks buffer 64) (omega arith)
