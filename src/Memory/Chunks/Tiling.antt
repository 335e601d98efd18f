-- ===== src/Memory/Chunks/Tiling.antt =====
-- The chunks of a byte buffer tile it.
use mathlib.Core.Option
use vroom.Common.{
  ℕ, zero, suc, ◌+◌, ◌-◌, ◌≤◌, ◌<◌, min, ◌≡◌, refl, Option, none, some, List, [], ◌∷◌, arith, leb,
  tests, Bool-cases, inl, inr,
}
use vroom.Memory.Dma.{Dma}
use vroom.Memory.Dma.Views.{IsMapped}
use vroom.Memory.Chunks.{DmaChunks, DmaChunk, chunks, next, collect}

-- From offset `off` on, the chunks follow one another with no gap and no overlap, each at the same
-- offset in both address spaces; each is `n` bytes long, the last one what is left; and they end at
-- the end of the buffer.
abbrev pub Tiles : Dma → ℕ → ℕ → List DmaChunk → Type 0
Tiles d n off [] = off ≡ d.size
Tiles d n off (c ∷ cs) =
    (c.phys_addr ≡ d.phys + off)
    × (c.ptr ≡ d.virt + off)
    × (c.len ≡ min n (d.size - off))
    × (0 < c.len)
    × Tiles d n (off + c.len) cs

abbrev at : Dma → ℕ → ℕ → DmaChunks
at d n off = record { current_offset = off; chunk_size = n; dma = d }

-- The chunk at offset `off`, in a buffer that does not wrap round the address space.
abbrev piece : Dma → ℕ → ℕ → DmaChunk
piece d n off = record { phys_addr = d.phys + off; ptr = d.virt + off; len = min n (d.size - off) }

next-piece :
    (d : Dma) (n off : ℕ)
    → IsMapped d
    → off < d.size
    → next 1 (at d n off) ≡ (some (piece d n off), at d n (off + min n (d.size - off)))
unfolding next
next-piece d n off mapped lt = ground arith

next-none : (d : Dma) (n : ℕ) → next 1 (at d n d.size) ≡ (none, at d n d.size)
unfolding next
next-none d n = ground arith

collect_done : (d : Dma) (n fuel : ℕ) → collect 1 (suc fuel) (at d n d.size) ≡ some []
unfolding collect
collect_done d n fuel = rw (next-none d n, collect) refl

collect_more :
    (d : Dma) (n fuel off : ℕ)
    → IsMapped d
    → off < d.size
    → collect 1 (suc fuel) (at d n off)
      ≡ Option.map (λ cs. piece d n off ∷ cs) (collect 1 fuel (at d n (off + min n (d.size - off))))
unfolding collect
collect_more d n fuel off mapped lt =
    let e = next-piece d n off mapped lt in rw (e, collect) (rw e refl)

module _ (d : Dma) (n : ℕ) (mapped : IsMapped d) (pos : 0 < n) where
  abbrev Tiled : ℕ → Option (List DmaChunk) → Type 0
  Tiled off o = (cs : List DmaChunk) × (o ≡ some cs) × Tiles d n off cs

  extend :
      (off : ℕ) (o : Option (List DmaChunk))
      → off < d.size
      → Tiled (off + min n (d.size - off)) o
      → Tiled off (Option.map (λ cs. piece d n off ∷ cs) o)
  extend off o lt (cs, e, t) = (piece d n off ∷ cs, rw e refl, (refl, refl, refl, omega arith, t))

  collect_from :
      (fuel off : ℕ) → off ≤ d.size → d.size < fuel + off → Tiled off (collect 1 fuel (at d n off))
  collect_from zero off le lt = absurd (omega arith)
  collect_from (suc fuel) off le lt = elim (Bool-cases (leb d.size off)) [
    | inl ended ↦
        let e : off ≡ d.size = omega (tests, le) in rw (e, collect_done d n fuel) ([], refl, refl)
    | inr more ↦
        let lt' : off < d.size = ground arith in
        rw (collect_more d n fuel off mapped lt') (
          extend off _ lt'
            (collect_from fuel (off + min n (d.size - off)) (omega arith) (omega arith)))
  ]

-- Iterating over a mapped buffer in chunks of `n > 0` bytes ends, within `size + 1` calls, and the
-- chunks tile the buffer from its first byte to its last.
pub collect-Tiles :
    (d : Dma) (n : ℕ)
    → IsMapped d
    → 0 < n
    → (cs : List DmaChunk) × (collect 1 (suc d.size) (chunks d n) ≡ some cs) × Tiles d n 0 cs
collect-Tiles d n mapped pos =
    collect_from d n mapped pos (suc d.size) 0 (omega arith) (omega arith)
