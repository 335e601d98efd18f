-- ===== src/Memory/Pagesize/Rounding.antt =====
-- `shift_up` rounds up to the page size.
use vroom.Common.{ℕ, ◌+◌, ◌*◌, ◌%◌, ◌^◌, ◌≤◌, ◌<◌, ◌≡◌, refl, arith}
use vroom.Memory.Pagesize.{Pagesize, page_4k, page_2m, page_1g, size, shift, shift_up, from_usize}

-- `size` and `shift` agree, and `from_usize` finds the page size of each of the three sizes.
pub size_shift : (p : Pagesize) → (size p ≡ 2 ^ shift p) × (from_usize (size p) ≡ p)
unfolding size shift from_usize
size_shift page_4k = (refl, refl)
size_shift page_2m = (refl, refl)
size_shift page_1g = (refl, refl)

-- As long as one more page fits 64 bits, `shift_up` gives the least multiple of the page size that
-- is not below the given size: it is a multiple, it holds the size, every multiple that holds the
-- size holds it too, and rounding it again changes nothing.
pub shift_up-least :
    (p : Pagesize) (n k : ℕ)
    → n + size p ≤ 2 ^ 64
    → (shift_up p n % size p ≡ 0)
      × (n ≤ shift_up p n)
      × (shift_up p n < n + size p)
      × (n ≤ k * size p → shift_up p n ≤ k * size p)
      × (shift_up p (shift_up p n) ≡ shift_up p n)
unfolding shift_up
shift_up-least page_4k n k h = ground arith
shift_up-least page_2m n k h = ground arith
shift_up-least page_1g n k h = ground arith

pub whole_pages : (p : Pagesize) (n : ℕ) → n + size p ≤ 2 ^ 64 → shift_up p n % 4096 ≡ 0
unfolding size
whole_pages page_4k n le = omega (arith, shift_up-least page_4k n 0 le)
whole_pages page_2m n le = omega (arith, shift_up-least page_2m n 0 le)
whole_pages page_1g n le = omega (arith, shift_up-least page_1g n 0 le)
