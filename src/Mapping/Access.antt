-- ===== src/Mapping/Access.antt =====
-- `MemoryAccess` of src/mapping.rs: one of the two mappings, as the interface that the device uses.
use Prim.Native.String.{String}
use vroom.Common.{ℕ, false, if◌then◌else◌}
use vroom.Common.Outcome.{ok}
use vroom.Common.Stateful.{◌>>=◌, pure}
use vroom.Memory.Dma.{Dma}
use vroom.Memory.Pagesize.{Pagesize, default_page_size}
use vroom.Mapping.{Mapping}
use vroom.Physical
use vroom.Vfio.State
use vroom.Vfio.Allocate
use vroom.Vfio.Setup
use vroom.System.{Kernel, Sys, Process}

pub data MemoryAccess : Type 0 where
  physical : Physical.Physical → MemoryAccess
  vfio : State.Vfio → MemoryAccess

module _ (k : Kernel) where
  unfoldable pub init_with_page_size : String → Pagesize → Sys k MemoryAccess
  init_with_page_size pci_addr page_size = do
    enabled ← λ p. (ok (Setup.is_enabled k pci_addr p.kernel), p)
    if enabled
        then (do v ← Setup.init_with_args k pci_addr page_size false; pure (vfio v))
        else (do m ← Physical.init_with_args k pci_addr page_size; pure (physical m))

  abbrev pub init : String → Sys k MemoryAccess
  init pci_addr = init_with_page_size pci_addr default_page_size

  unfoldable pub allocate : MemoryAccess → ℕ → Sys k Dma
  allocate (physical m) size = Physical.allocate k m size
  allocate (vfio v) size = Allocate.allocate k v size

  unfoldable pub deallocate : MemoryAccess → Dma → Sys k (Unit {0})
  deallocate (physical m) dma = Physical.deallocate k m dma
  deallocate (vfio v) dma = Allocate.deallocate k v dma

  unfoldable pub map_resource : MemoryAccess → Sys k (ℕ × ℕ)
  map_resource (physical m) = Physical.map_resource k m
  map_resource (vfio v) = Allocate.map_resource k v

  -- The implementation of the trait.
  abbrev pub mapping : MemoryAccess → Mapping
  mapping a = record {
    World = Process k.State;
    allocate = allocate a;
    deallocate = deallocate a;
    map_resource = map_resource a;
  }

-- Only a VFIO mapping has a page size that can be changed.
unfoldable pub set_page_size : Pagesize → MemoryAccess → MemoryAccess
set_page_size p (vfio v) = vfio (State.set_page_size p v)
set_page_size p (physical m) = physical m
