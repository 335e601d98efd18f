-- ===== src/Vfio/Tests.antt =====
-- Tests and instances for the mapping through VFIO.
use vroom.Common.{ℕ, ◌^◌, ◌+◌, ◌%◌, ◌<◌, ◌≡◌, refl, ◌&&◌, not, ◌||◌, false, arith}
use vroom.Common.Outcome.{Error, ok, err}
use vroom.Memory.Dma.{Dma}
use vroom.Memory.Pagesize.{shift_up, page_4k, page_2m}
use vroom.System.{Process}
use vroom.System.Space.{within}
use vroom.System.Example.{Memory, small, small_space, process}
use vroom.Vfio.State.{Vfio, legacy, set_page_size}
use vroom.Vfio.Allocate.{aligned_addr, allocate_low, deallocate}
use vroom.Vfio.Alignment.{allocate_low_lem, allocate_low_fails}
use vroom.Vfio.Release.{deallocate_lem, unmap_call}

-- Two huge pages, from a first mapping at 0x41003000 on.
allocate_low_lem_example :
    (start : ℕ) × (s' : Process Memory) × (allocate_low (small 0x41003000) 0x400000 process
      ≡ (ok start, s'))
    × (start % 2 ^ 21 ≡ 0)
    × (0x41003000 < start)
    × (start + 0x400000 < 2 ^ 32)
    × ((a : ℕ) → s'.kernel.mapped a ≡ (false || within start 0x400000 a))
unfolding aligned_addr
allocate_low_lem_example =
    allocate_low_lem (small_space 0x41003000) 0x400000 process
      (record { page = refl; huge = refl; low = omega arith }) (omega arith) (λ a h. refl)
      (omega arith)

allocate_low_fails_example :
    (e : Error) × (s' : Process Memory) × (allocate_low (small 0x41000000) 0x400000 process
      ≡ (err e, s'))
    × ((a : ℕ) → s'.kernel.mapped a ≡ (false || within 0x41000000 (0x400000 + 2 ^ 21) a))
allocate_low_fails_example =
    allocate_low_fails (small_space 0x41000000) 0x400000 process
      (record { page = refl; huge = refl; low = omega arith }) (omega arith)

abbrev mapping : Vfio
mapping = record { pci_addr = "0000:00:04.0"; device_fd = 5; page_size = page_4k; iommu = legacy 4 }

abbrev page : Dma
page = record { virt = 0x200000; phys = 0x200000; size = 4096 }

-- A process with 3 MiB of small pages from the page on.
abbrev mapped : Process Memory
mapped = record process {
  kernel = record (process.kernel) { mapped = λ a. within 0x200000 0x300000 a };
}

deallocate_lem_example :
    (s' : Process Memory) × (deallocate
        (small 0x41000000)
        (set_page_size page_2m mapping)
        page
        mapped
      ≡ (ok tt, s'))
    × ((a : ℕ)
        → s'.kernel.mapped a
          ≡ (within 0x200000 0x300000 a && not (within 0x200000 (shift_up page_2m 4096) a)))
    × (page_2m ≡ page_4k → shift_up page_2m 4096 ≡ 4096)
    × (page_2m ≡ page_2m → page.size ≡ 4096 → shift_up page_2m 4096 ≡ 2 ^ 21)
unfolding shift_up unmap_call
deallocate_lem_example =
    deallocate_lem (small_space 0x41000000) mapping page_2m page 100 mapped refl (omega arith)
      (omega arith) (omega arith) refl (λ a inside there. ((512, refl), (512, refl))) (omega arith)
      (λ a. refl)
