-- ===== src/Device/Allocator.antt =====
-- `impl Mapping for NvmeDevice`: the allocator behind the device.
use vroom.Common.{ℕ}
use vroom.Memory.Dma.{Dma}
use vroom.Mapping.{Mapping}
use vroom.Device.State.{Action}

module _ (m : Mapping) where
  open m use {World}

  abbrev pub allocate : ℕ → Action World Dma
  allocate size s = let (r, w) = m.allocate size s.world in (r, record s { world = w })

  abbrev pub deallocate : Dma → Action World (Unit {0})
  deallocate dma s = let (r, w) = m.deallocate dma s.world in (r, record s { world = w })

  abbrev pub map_resource : Action World (ℕ × ℕ)
  map_resource s = let (r, w) = m.map_resource s.world in (r, record s { world = w })
