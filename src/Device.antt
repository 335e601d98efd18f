-- ===== src/Device.antt =====
-- `NvmeDevice` of src/nvme.rs.
mod Tests
pub mod Sound
pub mod State
pub mod Registers
pub mod Admin
pub mod Allocator
pub mod Io
pub mod Init
pub mod Copied
pub mod Identify
