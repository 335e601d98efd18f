-- ===== src/Pci.antt =====
-- src/pci.rs: reading and writing the resource files of a PCI device. The `NativeEndian` of the x86
-- targets is little endian.
pub mod Bytes
pub mod Hex
mod Tests
use Prim.Native.String.{String, ◌++◌ as ◌<>◌}
use vroom.Common.{ℕ, true, false}
use vroom.Common.Outcome.{io}
use vroom.Common.Stateful.{◌>>=◌, ◌>>◌, pure, lift}
use vroom.Pci.Bytes.{to_bytes, from_bytes}
use vroom.Pci.Hex.{parse_hex}
use vroom.System.{Kernel, Sys}
use vroom.System.Calls.{run}

abbrev pub command_register_offset : ℕ
command_register_offset = 4

abbrev pub bus_master_enable_bit : ℕ
bus_master_enable_bit = 2

abbrev pub interrupt_disable : ℕ
interrupt_disable = 10

module _ (k : Kernel) where
  abbrev pub device_path : String → String → String
  device_path pci_addr resource = "/sys/bus/pci/devices/" <> pci_addr <> "/" <> resource

  -- `pci_open_resource` and `pci_open_resource_ro`
  unfoldable pub pci_open_resource : String → String → Sys k ℕ
  pci_open_resource pci_addr resource =
      run k (k.open_file (device_path pci_addr resource) true false) io

  unfoldable pub pci_open_resource_ro : String → String → Sys k ℕ
  pci_open_resource_ro pci_addr resource =
      run k (k.open_file (device_path pci_addr resource) false false) io

  -- `read_io8`, `read_io16`, `read_io32` and `read_io64`, by the number of bytes.
  unfoldable pub read_io : ℕ → ℕ → ℕ → Sys k ℕ
  read_io width file offset = do
    run k (k.seek file offset) io
    bytes ← run k (k.read_exact file width) io
    pure (from_bytes bytes)

  -- `write_io8`, `write_io16`, `write_io32` and `write_io64`
  unfoldable pub write_io : ℕ → ℕ → ℕ → ℕ → Sys k (Unit {0})
  write_io width file value offset = do
    run k (k.seek file offset) io
    run k (k.write_all file (to_bytes width value)) io

  unfoldable pub read_hex : ℕ → Sys k ℕ
  read_hex file = do buffer ← run k (k.read_to_string file) io; lift (parse_hex buffer)
