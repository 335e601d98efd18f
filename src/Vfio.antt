-- ===== src/Vfio.antt =====
-- `Vfio` of src/vfio.rs.
pub mod State
pub mod Backend
pub mod Allocate
pub mod Setup
pub mod Trim
pub mod Alignment
pub mod Release
mod Tests
