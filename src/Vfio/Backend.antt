-- ===== src/Vfio/Backend.antt =====
-- `VfioBackend` of src/vfio.rs: making memory known to the IOMMU, and taking it back. Of the
-- structure that `ioctl` leaves, only its own kind can come back.
use Prim.Native.Nat.{bit_or}
use vroom.Common.{ℕ}
use vroom.Common.Stateful.{◌>>=◌, ◌>>◌, pure}
use vroom.Memory.Dma.{Dma}
use vroom.System.{Kernel, Sys}
use vroom.System.Structs.{
  Argument, VfioIommuType1DmaMap, VfioIommuType1DmaUnmap, IommuIoasMap, IommuIoasUnmap, dma_map,
  dma_unmap, ioas_map, ioas_unmap, size_of_dma_map, size_of_dma_unmap, size_of_ioas_map,
  size_of_ioas_unmap,
}
use vroom.System.Ioctl.{
  vfio_iommu_map_dma, vfio_iommu_unmap_dma, iommu_ioas_map, iommu_ioas_unmap,
  vfio_dma_map_flag_read, vfio_dma_map_flag_write, iommu_ioas_map_writeable,
  iommu_ioas_map_readable,
}
use vroom.System.Calls.{ioctl_unsafe}
use vroom.Vfio.State.{VfioBackend, legacy, iommufd}

-- The user address is the address on the bus.
unfoldable pub legacy_map : ℕ → ℕ → VfioIommuType1DmaMap
legacy_map ptr size = record {
  argsz = size_of_dma_map;
  flags = bit_or vfio_dma_map_flag_read vfio_dma_map_flag_write;
  vaddr = ptr;
  iova = ptr;
  size = size;
}

unfoldable pub legacy_unmap : Dma → VfioIommuType1DmaUnmap
legacy_unmap dma = record {
  argsz = size_of_dma_unmap;
  iova = dma.phys;
  size = dma.size;
  flags = 0;
  bytes = 0;
}

unfoldable pub iommufd_map : ℕ → ℕ → ℕ → IommuIoasMap
iommufd_map ioas_id ptr size = record {
  size = size_of_ioas_map;
  flags = bit_or iommu_ioas_map_writeable iommu_ioas_map_readable;
  ioas_id = ioas_id;
  reserved = 0;
  user_va = ptr;
  length = size;
  iova = 0;
}

unfoldable pub iommufd_unmap : ℕ → Dma → IommuIoasUnmap
iommufd_unmap ioas_id dma = record {
  size = size_of_ioas_unmap;
  ioas_id = ioas_id;
  iova = dma.phys;
  length = dma.size;
}

-- The address on the bus in what the system has left.
abbrev pub iova_of : Argument → ℕ
iova_of (dma_map m) = m.iova
iova_of (ioas_map m) = m.iova
iova_of _ = 0

module _ (k : Kernel) where
  unfoldable pub map_dma : VfioBackend → ℕ → ℕ → Sys k Dma
  map_dma (legacy container_fd) ptr size = do
    r ← ioctl_unsafe k container_fd vfio_iommu_map_dma (dma_map (legacy_map ptr size))
    pure (record { virt = ptr; phys = iova_of r.1; size = size })
  map_dma (iommufd ioas_id fd) ptr size = do
    r ← ioctl_unsafe k fd iommu_ioas_map (ioas_map (iommufd_map ioas_id ptr size))
    pure (record { virt = ptr; phys = iova_of r.1; size = size })

  unfoldable pub unmap_dma : VfioBackend → Dma → Sys k (Unit {0})
  unmap_dma (legacy container_fd) dma = do
    ioctl_unsafe k container_fd vfio_iommu_unmap_dma (dma_unmap (legacy_unmap dma))
    pure tt
  unmap_dma (iommufd ioas_id fd) dma = do
    ioctl_unsafe k fd iommu_ioas_unmap (ioas_unmap (iommufd_unmap ioas_id dma))
    pure tt
