-- ===== src/System/Ioctl/Numbers.antt =====
-- The numbers of the `ioctl` operations.
use mathlib.Core.Option.{some-injective}
use vroom.Common.{
  ℕ, ◌+◌, ◌*◌, ◌≡◌, refl, sym, ◌∙◌, ap, Option, some, none, List, [], ◌∷◌, ◌==◌, if◌then◌else◌,
}
use vroom.System.Ioctl.{
  IoctlOp, op, type_and_number, vfio_get_api_version, vfio_check_extension, vfio_set_iommu,
  vfio_group_get_status, vfio_group_set_container, vfio_group_get_device_fd,
  vfio_device_get_region_info, vfio_iommu_get_info, vfio_iommu_map_dma, vfio_iommu_unmap_dma,
  vfio_device_get_irq_info, vfio_device_set_irqs, vfio_device_bind_iommufd,
  vfio_device_attach_iommufd_pt, iommu_ioas_alloc, iommu_ioas_map, iommu_ioas_unmap,
}

abbrev all_ops : List IoctlOp
all_ops =
    vfio_get_api_version ∷ vfio_check_extension ∷ vfio_set_iommu ∷ vfio_group_get_status
    ∷ vfio_group_set_container ∷ vfio_group_get_device_fd ∷ vfio_device_get_region_info
    ∷ vfio_iommu_get_info ∷ vfio_iommu_map_dma ∷ vfio_iommu_unmap_dma ∷ vfio_device_get_irq_info
    ∷ vfio_device_set_irqs ∷ vfio_device_bind_iommufd ∷ vfio_device_attach_iommufd_pt
    ∷ iommu_ioas_alloc ∷ iommu_ioas_map ∷ iommu_ioas_unmap ∷ []

-- The operation of a number, if there is one.
abbrev find : ℕ → List IoctlOp → Option IoctlOp
find n [] = none
find n (o ∷ os) = if op o == n then some o else find n os

find-op : (o : IoctlOp) → find (op o) all_ops ≡ some o
unfolding op
find-op vfio_get_api_version = refl
find-op vfio_check_extension = refl
find-op vfio_set_iommu = refl
find-op vfio_group_get_status = refl
find-op vfio_group_set_container = refl
find-op vfio_group_get_device_fd = refl
find-op vfio_device_get_region_info = refl
find-op vfio_iommu_get_info = refl
find-op vfio_iommu_map_dma = refl
find-op vfio_iommu_unmap_dma = refl
find-op vfio_device_get_irq_info = refl
find-op vfio_device_set_irqs = refl
find-op vfio_device_bind_iommufd = refl
find-op vfio_device_attach_iommufd_pt = refl
find-op iommu_ioas_alloc = refl
find-op iommu_ioas_map = refl
find-op iommu_ioas_unmap = refl

layout : (o : IoctlOp) → op o ≡ 256 * (type_and_number o).0 + (type_and_number o).1
unfolding op
layout vfio_get_api_version = refl
layout vfio_check_extension = refl
layout vfio_set_iommu = refl
layout vfio_group_get_status = refl
layout vfio_group_set_container = refl
layout vfio_group_get_device_fd = refl
layout vfio_device_get_region_info = refl
layout vfio_iommu_get_info = refl
layout vfio_iommu_map_dma = refl
layout vfio_iommu_unmap_dma = refl
layout vfio_device_get_irq_info = refl
layout vfio_device_set_irqs = refl
layout vfio_device_bind_iommufd = refl
layout vfio_device_attach_iommufd_pt = refl
layout iommu_ioas_alloc = refl
layout iommu_ioas_map = refl
layout iommu_ioas_unmap = refl

-- The number of an operation has its type in the second byte and its number within the type in the
-- first, and no two operations of the driver share a number.
op-injective :
    (a b : IoctlOp)
    → (op a ≡ 256 * (type_and_number a).0 + (type_and_number a).1) × (op a ≡ op b → a ≡ b)
op-injective a b =
    (layout a, λ e. some-injective a b (sym (find-op a) ∙ ap (λ n. find n all_ops) e ∙ find-op b))
