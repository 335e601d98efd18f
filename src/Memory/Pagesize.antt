-- ===== src/Memory/Pagesize.antt =====
-- `Pagesize` of src/memory.rs: the three page sizes and rounding up to them.
pub mod Rounding
use Prim.Native.Nat.{bit_or}
use Prim.Native.String.{String}
use text.Mathlib.Text.{◌==◌ as str_eq}
use vroom.Common.{ℕ, ◌+◌, ◌*◌, ◌/◌, ◌%◌, ◌^◌, ◌==◌, if◌then◌else◌}
use vroom.Common.Words.{u64, ◌<<◌, ◌>>>◌}

abbrev pub shift_4kib : ℕ
shift_4kib = 12

abbrev pub pagesize_4kib : ℕ
pagesize_4kib = 1 << shift_4kib

abbrev pub shift_2mib : ℕ
shift_2mib = 21

abbrev pub pagesize_2mib : ℕ
pagesize_2mib = 1 << shift_2mib

abbrev pub shift_1gib : ℕ
shift_1gib = 30

abbrev pub pagesize_1gib : ℕ
pagesize_1gib = 1 << shift_1gib

pub data Pagesize : Type 0 where
  page_4k page_2m page_1g : Pagesize

abbrev pub default_page_size : Pagesize
default_page_size = page_2m

unfoldable pub size : Pagesize → ℕ
size page_4k = pagesize_4kib
size page_2m = pagesize_2mib
size page_1g = pagesize_1gib

unfoldable pub shift : Pagesize → ℕ
shift page_4k = shift_4kib
shift page_2m = shift_2mib
shift page_1g = shift_1gib

-- The last `<<` drops what leaves 64 bits.
unfoldable pub shift_up : Pagesize → ℕ → ℕ
unfolding size shift
shift_up p n = if n % size p == 0 then n else u64 ((n >>> shift p) + 1 << shift p)

unfoldable pub from_usize : ℕ → Pagesize
from_usize n =
    if n == pagesize_4kib
    then page_4k
    else if n == pagesize_2mib
    then page_2m
    else if n == pagesize_1gib
    then page_1g
    else page_2m

-- The flags of `libc`, which are not in the repository.
unfoldable pub mmap_flags : ℕ → ℕ → ℕ → Pagesize → ℕ
mmap_flags map_hugetlb map_huge_2mb map_huge_1gb page_4k = 0
mmap_flags map_hugetlb map_huge_2mb map_huge_1gb page_2m = bit_or map_hugetlb map_huge_2mb
mmap_flags map_hugetlb map_huge_2mb map_huge_1gb page_1g = bit_or map_hugetlb map_huge_1gb

unfoldable pub from_str : String → Pagesize
from_str s =
    if str_eq s "4k"
    then page_4k
    else if str_eq s "2m"
    then page_2m
    else if str_eq s "1g"
    then page_1g
    else page_2m

unfoldable pub display : Pagesize → String
display page_4k = "4KiB"
display page_2m = "2MiB"
display page_1g = "1GiB"
