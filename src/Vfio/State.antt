-- ===== src/Vfio/State.antt =====
-- The types of src/vfio.rs.
use Prim.Native.String.{String}
use vroom.Common.{ℕ}
use vroom.Memory.Pagesize.{Pagesize}

pub data VfioBackend : Type 0 where
  -- `container_fd`
  legacy : ℕ → VfioBackend
  -- `ioas_id` and `iommufd`
  iommufd : ℕ → ℕ → VfioBackend

pub record Vfio : Type 0 where
  pub pci_addr : String
  pub device_fd : ℕ
  pub page_size : Pagesize
  pub iommu : VfioBackend

abbrev pub set_page_size : Pagesize → Vfio → Vfio
set_page_size p v = record v { page_size = p }
