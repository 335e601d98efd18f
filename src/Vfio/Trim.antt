-- ===== src/Vfio/Trim.antt =====
-- The arithmetic of the aligned allocation: the aligned address, and the parts that are given back.
use vroom.Common.{
  ℕ, ◌+◌, ◌-◌, ◌/◌, ◌%◌, ◌^◌, ◌≤◌, ◌<◌, ◌≡◌, Bool, true, false, not, ◌&&◌, ◌||◌, arith,
}
use vroom.Common.Words.{u64, sub_u64}
use vroom.Common.Masks.{high_mask}
use vroom.Memory.Pagesize.{pagesize_2mib}
use vroom.System.Space.{IsMultiple, within}
use vroom.Vfio.Allocate.{aligned_addr}

-- The least multiple of 2 MiB that is not below the address.
pub aligned_lem :
    (addr : ℕ)
    → addr + 2 ^ 21 ≤ 2 ^ 64
    → (aligned_addr addr % 2 ^ 21 ≡ 0)
      × (addr ≤ aligned_addr addr)
      × (aligned_addr addr < addr + 2 ^ 21)
unfolding aligned_addr
aligned_lem addr fits =
    let e = high_mask 21 43 (u64 (addr + (pagesize_2mib - 1))) in
    (omega (arith, e), omega (arith, e), omega (arith, e))

-- Of a reserved range, what is left when the part before the aligned address `at` and the part
-- behind `len` more bytes are given back, and those bytes mapped again.
pub pieces :
    (x : Bool) (a addr at len : ℕ)
    → addr ≤ at
    → at < addr + 2 ^ 21
    → addr + len + 2 ^ 21 < 2 ^ 32
    → (within addr (len + 2 ^ 21) a ≡ true → x ≡ false)
    → ((((x || within addr (u64 (len + pagesize_2mib)) a) && not (within addr (sub_u64 at addr) a))
          && not (within (u64 (at + len)) (sub_u64 pagesize_2mib (sub_u64 at addr)) a))
        || within at len a)
      ≡ (x || within at len a)
pieces true a addr at len le lt low fresh = ground arith
pieces false a addr at len le lt low fresh = ground arith

-- The two parts that are given back lie in the reserved range, the second apart from the first.
pub head_inside :
    (a addr at len : ℕ)
    → at < addr + 2 ^ 21
    → addr ≤ at
    → addr + len + 2 ^ 21 < 2 ^ 32
    → within addr (sub_u64 at addr) a ≡ true
    → within addr (u64 (len + pagesize_2mib)) a ≡ true
head_inside a addr at len lt le low inside = ground arith

pub tail_inside :
    (a addr at len : ℕ)
    → at < addr + 2 ^ 21
    → addr ≤ at
    → addr + len + 2 ^ 21 < 2 ^ 32
    → within (u64 (at + len)) (sub_u64 pagesize_2mib (sub_u64 at addr)) a ≡ true
    → (within addr (u64 (len + pagesize_2mib)) a ≡ true) × (within addr (sub_u64 at addr) a ≡ false)
tail_inside a addr at len lt le low inside = ground arith

pub multiple : (page n : ℕ) → page ≡ 4096 → n % 4096 ≡ 0 → IsMultiple page n
multiple page n e m = (n / 4096, rw e (omega arith))
