-- ===== src/Vfio/Allocate.antt =====
-- Memory and registers through VFIO: the implementation of `Mapping` for `Vfio`.
use Prim.Native.Nat.{bit_or, bit_and}
use vroom.Common.{ℕ, ◌+◌, ◌-◌, ◌^◌, ltb, if◌then◌else◌}
use vroom.Common.Words.{u64, sub_u64}
use vroom.Common.Stateful.{◌>>=◌, ◌>>◌, get, pure}
use vroom.Memory.Dma.{Dma}
use vroom.Memory.Pagesize.{Pagesize, page_4k, page_2m, page_1g, pagesize_2mib, shift_up}
use vroom.System.{Kernel, Sys, minus_one32, x86_va_width}
use vroom.System.Structs.{Argument, region_info, size_of_region_info}
use vroom.System.Ioctl.{vfio_device_get_region_info}
use vroom.System.Calls.{ioctl_unsafe, mmap_unsafe, munmap_unsafe, mmap_anonymous_unsafe}
use vroom.Vfio.State.{Vfio}
use vroom.Vfio.Backend.{map_dma, unmap_dma}

-- `(addr + PAGESIZE_2MIB - 1) & -PAGESIZE_2MIB` on `isize`.
unfoldable pub aligned_addr : ℕ → ℕ
aligned_addr addr = bit_and (u64 (addr + (pagesize_2mib - 1))) (2 ^ 64 - pagesize_2mib)

-- A request for the description of a region, and the description.
abbrev pub ask_region : ℕ → Argument
ask_region index = region_info (record {
  argsz = size_of_region_info;
  flags = 0;
  index = index;
  cap_offset = 0;
  size = 0;
  offset = 0;
})

abbrev pub region_size : Argument → ℕ
region_size (region_info r) = r.size
region_size _ = 0

abbrev pub region_offset : Argument → ℕ
region_offset (region_info r) = r.offset
region_offset _ = 0

module _ (k : Kernel) where
  unfoldable pub allocate_1gib : ℕ → Sys k ℕ
  allocate_1gib size = mmap_anonymous_unsafe k size (bit_or k.map_hugetlb k.map_huge_1gb)

  -- `len` bytes and one huge page more are mapped below 4 GiB, all but the `len` bytes from the first
  -- aligned address on are given back, and huge pages are mapped there.
  unfoldable pub allocate_low : ℕ → Sys k ℕ
  allocate_low len = do
    addr ← mmap_anonymous_unsafe k (u64 (len + pagesize_2mib)) k.map_32bit
    let aligned = aligned_addr addr
    let free_chunk_size = sub_u64 aligned addr
    munmap_unsafe k addr free_chunk_size
    munmap_unsafe k (u64 (aligned + len)) (sub_u64 pagesize_2mib free_chunk_size)
    mmap_unsafe k aligned len (bit_or k.prot_read k.prot_write)
        (bit_or (bit_or (bit_or (bit_or k.map_shared k.map_anonymous) k.map_hugetlb) k.map_huge_2mb)
          k.map_fixed)
        minus_one32 0

  unfoldable pub allocate_2mib : ℕ → Sys k ℕ
  allocate_2mib len = do
    p ← get
    if ltb p.iova_width x86_va_width
        then allocate_low len
        else mmap_anonymous_unsafe k len (bit_or k.map_hugetlb k.map_huge_2mb)

  unfoldable pub allocate_4kib : ℕ → Sys k ℕ
  allocate_4kib len = do
    p ← get
    if ltb p.iova_width x86_va_width
        then mmap_anonymous_unsafe k len k.map_32bit
        else mmap_anonymous_unsafe k len 0

  abbrev pub allocate_pages : Pagesize → ℕ → Sys k ℕ
  allocate_pages page_4k len = allocate_4kib len
  allocate_pages page_1g len = allocate_1gib len
  allocate_pages page_2m len = allocate_2mib len

  unfoldable pub allocate : Vfio → ℕ → Sys k Dma
  allocate v size = do
    let len = shift_up v.page_size size
    ptr ← allocate_pages v.page_size len
    map_dma k v.iommu ptr len

  unfoldable pub deallocate : Vfio → Dma → Sys k (Unit {0})
  deallocate v dma = do
    unmap_dma k v.iommu dma
    munmap_unsafe k dma.virt (shift_up v.page_size dma.size)

  -- The address and the length of the mapped region.
  unfoldable pub map_resource_index : Vfio → ℕ → Sys k (ℕ × ℕ)
  map_resource_index v index = do
    r ← ioctl_unsafe k v.device_fd vfio_device_get_region_info (ask_region index)
    let len = region_size r.1
    ptr ←
        mmap_unsafe k 0 len (bit_or k.prot_read k.prot_write) k.map_shared v.device_fd
          (region_offset r.1)
    pure (ptr, len)

  -- Region 0 is `VFIO_PCI_BAR0_REGION_INDEX`.
  abbrev pub map_resource : Vfio → Sys k (ℕ × ℕ)
  map_resource v = map_resource_index v 0
