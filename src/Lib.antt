-- ===== src/Lib.antt =====
-- A verification library for vroom, a userspace NVMe driver in Rust.
--
-- The driver talks to an NVMe controller through two kinds of rings in memory that the controller
-- can reach by DMA: the driver writes commands into a submission queue and rings a doorbell, a
-- register, with the new tail; the controller writes an entry for each finished command into a
-- completion queue, and the driver takes it, rings a second doorbell with the new head, and learns
-- from the entry how far the controller has read the submission queue.
--
-- Modules, each with its proofs in child modules and its tests in a child `Tests`:
--   Common    numbers, tests, words that wrap, bit fields, rings of slots, outcomes of calls
--   Command   src/cmd.rs: `NvmeCommand` and its builders
--   Memory    src/memory.rs: `Pagesize`, `Dma<u8>` and its views, `DmaChunks`
--   Mapping   src/mapping.rs: the trait `Mapping`, as an interface, and `MemoryAccess` (`Access`)
--   Queues    src/queues.rs: `NvmeCompletion`, `CompletionQueue`, `SubmissionQueue`
--   Host      the registers and the completion memory, shared with the controller
--   Pair      src/nvme.rs: `NvmeQueuePair`
--   Device    src/nvme.rs: `NvmeDevice`: registers and doorbells, admin commands, queue pairs,
--             initialisation (`Init`), identification and formatting (`Identify`), the transfers
--             `read`, `write` and `write_prp` (`Io`), those through the buffer of the driver
--             (`Copied`), and what holds after any sequence of methods (`Sound`)
--   System    the operating system, a parameter `Kernel`; src/macros.rs (`Calls`), src/ioctl_op.rs
--             (`Ioctl`) and src/vfio_structs.rs (`Structs`)
--   Pci       src/pci.rs: the files of a device
--   Vfio      src/vfio.rs: `Vfio` and `VfioBackend`: `Setup`, `Allocate`, `Backend`
--   Physical  src/physical.rs: `Physical`
--   Driver    src/lib.rs: `init` and `init_with_page_size`, here `start`
--   Examples  examples/throughput.rs (`Throughput`), examples/latency.rs (`Latency`) and
--             examples/fill_namespace.rs (`Fill`): the loops that put a load on the driver
--
-- Functions carry the names of the source. A `&mut self` method takes the state and returns the new
-- one beside its result. `Outcome` says how a call ends: a value, an `Err`, a panic (assertion, index
-- out of bounds, remainder by zero), or a busy-wait loop that has used up its polls. Numbers are
-- natural numbers; where the source computes in a fixed width the model writes the wrap-around, as in
-- the release profile (the README builds with `--release`), and `usize` has 64 bits.
--
-- A busy-wait loop takes a bound on its polls. The theorems about it say for which polls it ends: if
-- the awaited entry is first visible at poll k, any bound above k is enough. The iterator over a DMA
-- buffer takes a bound on its calls; the size of the buffer plus one is enough. The loop of a load
-- takes the list of what its turns get from outside, the random block and the time; turns that take
-- the duration together are enough.
--
-- Outside the model: the operating system, the parameter `Kernel`, whose calls take its state and
-- return the raw words that `libc` returns; and the controller, a parameter `Controller` that says
-- what the registers and the completion memory hold after the writes so far at a given time. The
-- theorems about the aligned allocation and about giving memory back assume of the system what the
-- documentation of `mmap` and `munmap` says (`System.Space`), those about the command register what
-- the standard library says of a file (`System.Files`); the limit on the number of mappings is taken
-- not to be reached. The protocol theorem takes from the NVMe specification when the controller posts
-- an entry and with which phase tag. The theorem about a whole load takes from it that a controller
-- answers the commands that it was given and no others (`Serves`). The statics of the program are
-- fields of `Process`; its calls follow one another, and the lock and the atomic operations on the
-- statics have no model of their own. Files are never closed in the model.
--
-- Not modelled: what is only printed, and `u16_to_variable_bit_chunks`, which only prints; the
-- interrupt structures and flags of VFIO, which nothing uses; the memory model of the processor (the
-- order in which the controller sees plain and volatile writes); of the two programs that measure,
-- their arguments, rates and times, and the interleaving of their threads; the other examples, which
-- are a few calls each, and the tests of the repository.
pub mod Common
pub mod Command
pub mod Memory
pub mod Mapping
pub mod Queues
pub mod Host
pub mod Pair
pub mod Device
pub mod System
pub mod Pci
pub mod Vfio
pub mod Physical
pub mod Driver
pub mod Examples
