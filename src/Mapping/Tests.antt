-- ===== src/Mapping/Tests.antt =====
-- Tests and instances for the two mappings behind one interface.
use vroom.Common.{◌+◌, ◌%◌, ◌≤◌, ◌<◌, ◌≡◌, refl, arith}
use vroom.Memory.Pagesize.{size, shift_up, page_4k}
use vroom.System.Example.{small, process}
use vroom.Vfio.State.{legacy}
use vroom.Mapping.Access.{MemoryAccess, vfio}
use vroom.Mapping.Contract.{allocate-size}

abbrev small_pages : MemoryAccess
small_pages =
    vfio
      (record { pci_addr = "0000:00:04.0"; device_fd = 5; page_size = page_4k; iommu = legacy 4 })

allocate-size_example : (5000 ≤ 8192) × (8192 < 5000 + size page_4k) × (8192 % size page_4k ≡ 0)
unfolding size vroom.Mapping.Access.allocate vroom.Vfio.Allocate.allocate
    vroom.Vfio.Allocate.allocate_4kib vroom.System.Calls.mmap_unsafe vroom.Vfio.Backend.map_dma
    vroom.System.Calls.ioctl_unsafe vroom.Vfio.Backend.legacy_map shift_up
allocate-size_example =
    allocate-size (small 0x41000000) small_pages 5000 process _
      (record { virt = 0x41000000; phys = 0x41000000; size = 8192 }) (omega arith) refl
