-- ===== src/System/Space.antt =====
-- What the documentation of `mmap` and `munmap` says of the addresses that are mapped, as
-- assumptions about the system.
use vroom.Common.{
  ℕ, ◌+◌, ◌*◌, ◌%◌, ◌^◌, ◌<◌, ◌≡◌, ◌≢◌, Bool, true, false, not, ◌&&◌, ◌||◌, ltb, leb, if◌then◌else◌,
}
use vroom.System.{Kernel, minus_one32, minus_one64}
use Prim.Native.Nat.{bit_or}

-- The addresses of `len` bytes from `start` on.
abbrev pub within : ℕ → ℕ → ℕ → Bool
within start len a = leb start a && ltb a (start + len)

-- A number of whole pages.
abbrev pub IsMultiple : ℕ → ℕ → Type 0
IsMultiple page n = (count : ℕ) × (n ≡ count * page)

-- The range of `len` bytes from `addr` on begins and ends between pages of every mapping in it.
abbrev pub IsWhole : {S : Type 0} → (S → ℕ → Bool) → (S → ℕ → ℕ) → S → ℕ → ℕ → Type 0
IsWhole mapped page_at w addr len =
    (a : ℕ)
    → within addr len a ≡ true
    → mapped w a ≡ true
    → IsMultiple (page_at w a) addr × IsMultiple (page_at w a) len

-- `mapped w a` says whether the address `a` is mapped, `page_at w a` by pages of which size, and
-- `page_of flags` is the page size that the flags of an anonymous mapping ask for: 4096 without
-- `MAP_HUGETLB`, 2 MiB with it and `MAP_HUGE_2MB`. An anonymous mapping of whole pages of that size
-- that succeeds maps its range with such pages, at the address that is asked for if it is `MAP_FIXED`.
-- Unmapping a range of 4096-byte pages succeeds if it is made of whole pages of every mapping that
-- it meets, huge pages included, and unmaps the range; a length of 0 is an error (`EINVAL`). The
-- number of mappings is taken to stay below the system's limit.
pub record Space (k : Kernel) : Type 0 where
  pub mapped : k.State → ℕ → Bool
  pub page_at : k.State → ℕ → ℕ
  pub page_of : ℕ → ℕ
  pub small_pages :
      page_of (bit_or (bit_or (bit_or k.map_32bit k.map_shared) k.map_anonymous) k.map_populate)
      ≡ 4096
  pub huge_pages :
      page_of (
        bit_or
          (bit_or (bit_or (bit_or k.map_shared k.map_anonymous) k.map_hugetlb) k.map_huge_2mb)
          k.map_fixed)
      ≡ 2 ^ 21
  pub maps :
      (addr len prot flags page : ℕ) (w : k.State) (a : ℕ)
      → page_of flags ≡ page
      → IsMultiple page len
      → (k.mmap addr len prot flags minus_one32 0 w).0 ≢ minus_one64
      → (mapped (k.mmap addr len prot flags minus_one32 0 w).1 a
          ≡ (mapped w a || within (k.mmap addr len prot flags minus_one32 0 w).0 len a))
        × (page_at (k.mmap addr len prot flags minus_one32 0 w).1 a ≡ (
            if within (k.mmap addr len prot flags minus_one32 0 w).0 len a
            then page
            else page_at w a))
  pub fixed :
      (addr len prot flags fd offset : ℕ) (w : k.State)
      → 0 < addr
      → (k.mmap addr len prot (bit_or flags k.map_fixed) fd offset w).0 ≢ minus_one64
      → (k.mmap addr len prot (bit_or flags k.map_fixed) fd offset w).0 ≡ addr
  pub unmaps :
      (addr len : ℕ) (w : k.State)
      → addr % 4096 ≡ 0
      → len % 4096 ≡ 0
      → 0 < len
      → IsWhole mapped page_at w addr len
      → ((k.munmap addr len w).0 ≡ 0)
        × ((a : ℕ) → mapped (k.munmap addr len w).1 a ≡ (mapped w a && not (within addr len a)))
        × ((a : ℕ) → within addr len a ≡ false → page_at (k.munmap addr len w).1 a ≡ page_at w a)
  pub unmaps_nothing :
      (addr : ℕ) (w : k.State)
      → ((k.munmap addr 0 w).0 ≡ minus_one32)
        × ((a : ℕ) → mapped (k.munmap addr 0 w).1 a ≡ mapped w a)
