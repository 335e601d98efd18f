-- ===== src/Physical/Address.antt =====
-- The arithmetic of the page map.
use vroom.Common.{ℕ, ◌+◌, ◌*◌, ◌/◌, ◌%◌, ◌^◌, ◌≤◌, ◌<◌, ◌≡◌, arith}
use vroom.Common.Bits.{bit_and-eq-mod}
use vroom.Physical.{pagemap_offset, phys_of}

-- On a system with small pages of 4 KiB, the frame number of an entry of the page map is its lower
-- 55 bits. The physical address that is computed lies in that frame, at the same distance from its
-- start as the address from the start of its page, as long as it fits 64 bits; and the addresses of
-- one page have the same entry, and physical addresses at the same distances.
pub phys_of_page :
    (entry addr d : ℕ)
    → addr % 4096 + d < 4096
    → (entry % 2 ^ 55 + 1) * 4096 ≤ 2 ^ 64
    → (phys_of 4096 entry addr / 4096 ≡ entry % 2 ^ 55)
      × (phys_of 4096 entry addr % 4096 ≡ addr % 4096)
      × (phys_of 4096 entry (addr + d) ≡ phys_of 4096 entry addr + d)
      × (pagemap_offset 4096 (addr + d) ≡ pagemap_offset 4096 addr)
unfolding phys_of pagemap_offset
phys_of_page entry addr d inside fits =
    let e = bit_and-eq-mod 55 entry in rw e (omega arith, omega arith, omega arith, omega arith)
