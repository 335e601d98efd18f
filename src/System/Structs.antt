-- ===== src/System/Structs.antt =====
-- The structures of src/vfio_structs.rs that the program passes to `ioctl`, with the sizes that
-- `#[repr(C)]` gives them. `pad` and `__reserved` fields, which are always 0, are kept.
use Prim.Native.String.{String}
use vroom.Common.{ℕ}

pub record VfioIommuType1DmaMap : Type 0 where
  pub argsz : ℕ
  pub flags : ℕ
  pub vaddr : ℕ
  pub iova : ℕ
  pub size : ℕ

pub record VfioIommuType1DmaUnmap : Type 0 where
  pub argsz : ℕ
  pub flags : ℕ
  pub iova : ℕ
  pub size : ℕ
  pub bytes : ℕ

pub record VfioGroupStatus : Type 0 where
  pub argsz : ℕ
  pub flags : ℕ

pub record VfioRegionInfo : Type 0 where
  pub argsz : ℕ
  pub flags : ℕ
  pub index : ℕ
  pub cap_offset : ℕ
  pub size : ℕ
  pub offset : ℕ

pub record VfioIommuType1Info : Type 0 where
  pub argsz : ℕ
  pub flags : ℕ
  pub iova_pgsizes : ℕ
  pub cap_offset : ℕ
  pub pad : ℕ

pub record IommuIoasMap : Type 0 where
  pub size : ℕ
  pub flags : ℕ
  pub ioas_id : ℕ
  pub reserved : ℕ
  pub user_va : ℕ
  pub length : ℕ
  pub iova : ℕ

pub record IommuIoasUnmap : Type 0 where
  pub size : ℕ
  pub ioas_id : ℕ
  pub iova : ℕ
  pub length : ℕ

pub record VfioDeviceBindIommufd : Type 0 where
  pub argsz : ℕ
  pub flags : ℕ
  pub iommufd : ℕ
  pub out_devid : ℕ

pub record IommuIoasAlloc : Type 0 where
  pub size : ℕ
  pub flags : ℕ
  pub out_ioas_id : ℕ

pub record VfioDeviceAttachIommufdPt : Type 0 where
  pub argsz : ℕ
  pub flags : ℕ
  pub pt_id : ℕ

-- The last argument of `ioctl`: none, a number, a string, a reference to a descriptor, or a
-- reference to a structure.
pub data Argument : Type 0 where
  no_argument : Argument
  number : ℕ → Argument
  text : String → Argument
  descriptor : ℕ → Argument
  dma_map : VfioIommuType1DmaMap → Argument
  dma_unmap : VfioIommuType1DmaUnmap → Argument
  group_status : VfioGroupStatus → Argument
  region_info : VfioRegionInfo → Argument
  iommu_info : VfioIommuType1Info → Argument
  ioas_map : IommuIoasMap → Argument
  ioas_unmap : IommuIoasUnmap → Argument
  bind_iommufd : VfioDeviceBindIommufd → Argument
  ioas_alloc : IommuIoasAlloc → Argument
  attach_iommufd_pt : VfioDeviceAttachIommufdPt → Argument

-- `mem::size_of`, in the order of the records above: the sum of the fields, which need no padding.
abbrev pub size_of_dma_map : ℕ
size_of_dma_map = 32

abbrev pub size_of_dma_unmap : ℕ
size_of_dma_unmap = 32

abbrev pub size_of_group_status : ℕ
size_of_group_status = 8

abbrev pub size_of_region_info : ℕ
size_of_region_info = 32

abbrev pub size_of_iommu_info : ℕ
size_of_iommu_info = 24

abbrev pub size_of_ioas_map : ℕ
size_of_ioas_map = 40

abbrev pub size_of_ioas_unmap : ℕ
size_of_ioas_unmap = 24

abbrev pub size_of_bind_iommufd : ℕ
size_of_bind_iommufd = 16

abbrev pub size_of_ioas_alloc : ℕ
size_of_ioas_alloc = 12

abbrev pub size_of_attach_iommufd_pt : ℕ
size_of_attach_iommufd_pt = 12
