-- ===== src/Mapping.antt =====
-- The trait `Mapping` of src/mapping.rs: where DMA buffers and the device's registers come from.
-- The kernel stands behind it, so it is a parameter of what uses it. `World` is the state that the
-- calls change.
pub mod Access
pub mod Contract
mod Tests
use vroom.Common.{ℕ}
use vroom.Common.Outcome.{Outcome}
use vroom.Memory.Dma.{Dma}

pub record Mapping : Type 1 where
  pub World : Type 0
  pub allocate : ℕ → World → Outcome Dma × World
  pub deallocate : Dma → World → Outcome (Unit {0}) × World
  pub map_resource : World → Outcome (ℕ × ℕ) × World
