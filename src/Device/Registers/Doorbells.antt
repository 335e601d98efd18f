-- ===== src/Device/Registers/Doorbells.antt =====
-- Doorbell addresses.
use native.Mathlib.Nat.{one-le-pow, mul-le-mul_left, mul-le-mul_right, mul-suc, mod-eq_of_lt}
use native.Mathlib.Decide.{dec_lt}
use vroom.Common.{ℕ, ◌+◌, ◌*◌, ◌^◌, ◌≤◌, ◌<◌, ◌≡◌, refl, arith}
use vroom.Common.Words.{u16, u64, ◌<<◌}
use vroom.Device.State.{NvmeDevice}
use vroom.Device.Registers.{pair_offset, NvmeArrayRegs, sq_tail, cq_head, doorbell}

-- The number of a doorbell among all of them: two for each queue.
abbrev pub index : NvmeArrayRegs → ℕ → ℕ
index sq_tail qid = 2 * qid
index cq_head qid = 2 * qid + 1

-- The distance between two doorbells, in bytes.
abbrev pub stride : NvmeDevice → ℕ
stride d = 4 << d.dstrd

-- The registers of a device end below the end of the address space, and the stride and the offset
-- of the doorbell fit 16 bits.
pub record Fits (d : NvmeDevice) (reg : NvmeArrayRegs) (qid : ℕ) : Type 0 where
  pub narrow : stride d < 2 ^ 16
  pub near : stride d * index reg qid < 2 ^ 16
  pub mapped : d.addr + 0x1000 + 2 ^ 16 < 2 ^ 64

stride-pos : (d : NvmeDevice) → 4 ≤ stride d
stride-pos d = omega (arith, one-le-pow d.dstrd 2)

factor_lt : (x n : ℕ) → 4 ≤ x → x * n < 2 ^ 16 → n < 2 ^ 16
factor_lt x n low fits = omega (arith, mul-le-mul_right n low)

narrow_product : (x n : ℕ) → 4 ≤ x → x < 2 ^ 16 → x * n < 2 ^ 16 → u16 (u16 x * u16 n) ≡ x * n
narrow_product x n low high fits =
    let small : n < 2 ^ 16 = factor_lt x n low fits in
    let ex : u16 x ≡ x = omega arith in
    let en : u16 n ≡ n = omega arith in rw (ex, en) (omega arith)

pub doorbell_lem :
    (d : NvmeDevice) (reg : NvmeArrayRegs) (qid : ℕ)
    → Fits d reg qid
    → doorbell d reg qid ≡ d.addr + 0x1000 + stride d * index reg qid
unfolding doorbell
doorbell_lem d sq_tail qid f =
    rw (narrow_product (stride d) (2 * qid) (stride-pos d) f.narrow f.near)
      (mod-eq_of_lt (omega (arith, f.near, f.mapped)))
doorbell_lem d cq_head qid f =
    rw (narrow_product (stride d) (2 * qid + 1) (stride-pos d) f.narrow f.near)
      (mod-eq_of_lt (omega (arith, f.near, f.mapped)))

-- No two doorbells share a byte: if one has the smaller number (queue by queue, the submission queue
-- before the completion queue), its four bytes end before the other begins, as long as both
-- offsets fit 16 bits.
pub doorbells_apart :
    (d : NvmeDevice) (reg reg' : NvmeArrayRegs) (qid qid' : ℕ)
    → Fits d reg qid
    → Fits d reg' qid'
    → index reg qid < index reg' qid'
    → doorbell d reg qid + 4 ≤ doorbell d reg' qid'
doorbells_apart d reg reg' qid qid' f f' lt =
    rw (doorbell_lem d reg qid f, doorbell_lem d reg' qid' f')
      (omega
        (arith, stride-pos d, mul-le-mul_left (stride d) lt, mul-suc (stride d) (index reg qid)))

-- The doorbells that a new queue pair is given are those that the device itself computes for that
-- queue, as long as the offset of the completion doorbell fits 16 bits.
pair_offset-doorbell :
    (d : NvmeDevice)
    → Fits d sq_tail d.q_id
    → Fits d cq_head d.q_id
    → (u64 (d.addr + pair_offset d 0) ≡ doorbell d sq_tail d.q_id)
      × (u64 (d.addr + pair_offset d 1) ≡ doorbell d cq_head d.q_id)
pair_offset-doorbell d f f' = (
  rw (doorbell_lem d sq_tail d.q_id f) (wide (2 * d.q_id + 0) (2 * d.q_id) (omega arith) f.near),
  rw (doorbell_lem d cq_head d.q_id f') (wide (2 * d.q_id + 1) (2 * d.q_id + 1) refl f'.near),
)
  where
    wide :
        (n k : ℕ)
        → n ≡ k
        → stride d * k < 2 ^ 16
        → u64 (d.addr + u64 (0x1000 + u64 (stride d * u16 n))) ≡ d.addr + 0x1000 + stride d * k
    wide n k e near =
        let small : n < 2 ^ 16 = omega (arith, factor_lt (stride d) k (stride-pos d) near, e) in
        rw (mod-eq_of_lt small, e) (omega (arith, near, f.mapped))

wrapped : (k : ℕ) → 13 ≤ k → k ≤ 15 → u16 (u16 (4 << k) * u16 (2 * 1)) ≡ 0
wrapped k low high = elim (dec_lt k 14) [
  | yes h ↦ let e : k ≡ 13 = omega arith in rw e refl
  | no h ↦ elim (dec_lt k 15) [
    | yes h' ↦ let e : k ≡ 14 = omega arith in rw e refl
    | no h' ↦ let e : k ≡ 15 = omega arith in rw e refl
  ]
]

-- With a doorbell stride exponent of 13 to 15 (the register has four bits) the 16-bit product is
-- 0: the submission doorbell of queue 1 is that of the admin queue 0.
pub doorbell_collides :
    (d : NvmeDevice) → 13 ≤ d.dstrd → d.dstrd ≤ 15 → doorbell d sq_tail 1 ≡ doorbell d sq_tail 0
unfolding doorbell
doorbell_collides d low high =
    rw (wrapped d.dstrd low high)
      (let e : u16 (u16 (4 << d.dstrd) * u16 (2 * 0)) ≡ 0 = omega arith in rw e refl)
