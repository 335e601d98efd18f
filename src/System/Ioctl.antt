-- ===== src/System/Ioctl.antt =====
-- `IoctlOp` and `IoctlFlag` of src/ioctl_op.rs.
pub mod Numbers
use Prim.Native.Nat.{bit_or}
use Prim.Native.String.{String}
use vroom.Common.{ℕ, ◌+◌, ◌*◌, ◌^◌}
use vroom.Common.Words.{u64, ◌<<◌}

pub data IoctlOp : Type 0 where
  vfio_get_api_version vfio_check_extension vfio_set_iommu vfio_group_get_status : IoctlOp
  vfio_group_set_container vfio_group_get_device_fd vfio_device_get_region_info : IoctlOp
  vfio_iommu_get_info vfio_iommu_map_dma vfio_iommu_unmap_dma : IoctlOp
  vfio_device_get_irq_info vfio_device_set_irqs : IoctlOp
  vfio_device_bind_iommufd vfio_device_attach_iommufd_pt : IoctlOp
  iommu_ioas_alloc iommu_ioas_map iommu_ioas_unmap : IoctlOp

-- `_IO`
abbrev pub io_number : ℕ → ℕ → ℕ
io_number type_ nr = bit_or (u64 (type_ << 8)) (u64 (nr << 0))

-- `b';'`, for both kinds of operations.
abbrev pub vfio_type : ℕ
vfio_type = 59

abbrev pub vfio_base : ℕ
vfio_base = 100

-- The type and the number.
abbrev pub type_and_number : IoctlOp → ℕ × ℕ
type_and_number vfio_get_api_version = (vfio_type, vfio_base + 0)
type_and_number vfio_check_extension = (vfio_type, vfio_base + 1)
type_and_number vfio_set_iommu = (vfio_type, vfio_base + 2)
type_and_number vfio_group_get_status = (vfio_type, vfio_base + 3)
type_and_number vfio_group_set_container = (vfio_type, vfio_base + 4)
type_and_number vfio_group_get_device_fd = (vfio_type, vfio_base + 6)
type_and_number vfio_device_get_region_info = (vfio_type, vfio_base + 8)
type_and_number vfio_iommu_get_info = (vfio_type, vfio_base + 12)
type_and_number vfio_iommu_map_dma = (vfio_type, vfio_base + 13)
type_and_number vfio_iommu_unmap_dma = (vfio_type, vfio_base + 14)
type_and_number vfio_device_bind_iommufd = (vfio_type, vfio_base + 18)
type_and_number vfio_device_attach_iommufd_pt = (vfio_type, vfio_base + 19)
type_and_number vfio_device_get_irq_info = (vfio_type, vfio_base + 9)
type_and_number vfio_device_set_irqs = (vfio_type, vfio_base + 10)
type_and_number iommu_ioas_alloc = (vfio_type, 0x81)
type_and_number iommu_ioas_map = (vfio_type, 0x85)
type_and_number iommu_ioas_unmap = (vfio_type, 0x86)

unfoldable pub op : IoctlOp → ℕ
op o = io_number (type_and_number o).0 (type_and_number o).1

-- `Display for IoctlOp`
unfoldable pub name : IoctlOp → String
name vfio_get_api_version = "VFIO_GET_API_VERSION"
name vfio_check_extension = "VFIO_CHECK_EXTENSION"
name vfio_set_iommu = "VFIO_SET_IOMMU"
name vfio_group_get_status = "VFIO_GROUP_GET_STATUS"
name vfio_group_set_container = "VFIO_GROUP_SET_CONTAINER"
name vfio_group_get_device_fd = "VFIO_GROUP_GET_DEVICE_FD"
name vfio_device_get_region_info = "VFIO_DEVICE_GET_REGION_INFO"
name vfio_iommu_get_info = "VFIO_IOMMU_GET_INFO"
name vfio_iommu_map_dma = "VFIO_IOMMU_MAP_DMA"
name vfio_iommu_unmap_dma = "VFIO_IOMMU_UNMAP_DMA"
name vfio_device_bind_iommufd = "VFIO_DEVICE_BIND_IOMMUFD"
name vfio_device_attach_iommufd_pt = "VFIO_DEVICE_ATTACH_IOMMUFD_PT"
name vfio_device_get_irq_info = "VFIO_DEVICE_GET_IRQ_INFO"
name vfio_device_set_irqs = "VFIO_DEVICE_SET_IRQS"
name iommu_ioas_alloc = "IOMMU_IOAS_ALLOC"
name iommu_ioas_map = "IOMMU_IOAS_MAP"
name iommu_ioas_unmap = "IOMMU_IOAS_UNMAP"

-- `IoctlFlag`; those that the program does not use are left out.
abbrev pub vfio_group_flags_viable : ℕ
vfio_group_flags_viable = 1 << 0

abbrev pub vfio_dma_map_flag_read : ℕ
vfio_dma_map_flag_read = 1 << 0

abbrev pub vfio_dma_map_flag_write : ℕ
vfio_dma_map_flag_write = 1 << 1

abbrev pub iommu_ioas_map_writeable : ℕ
iommu_ioas_map_writeable = 1 << 1

abbrev pub iommu_ioas_map_readable : ℕ
iommu_ioas_map_readable = 1 << 1
