-- ===== src/Memory.antt =====
-- src/memory.rs: page sizes, DMA buffers, and the iterator that cuts a buffer into chunks.
-- Addresses are 64-bit numbers; the bytes behind them are not part of these modules.
pub mod Pagesize
pub mod Dma
pub mod Chunks
mod Tests
