-- ===== src/Driver.antt =====
-- The entry points of src/lib.rs.
pub mod Class
mod Tests
use Prim.Native.String.{String, ◌++◌ as ◌<>◌}
use vroom.Common.{ℕ, ◌+◌, ◌*◌, ◌/◌, ◌^◌, true, false, List, [], ◌∷◌, ◌==◌, if◌then◌else◌}
use vroom.Common.Words.{◌>>>◌}
use vroom.Common.Outcome.{Outcome, ok, err, panic, spin, vroom_error}
use vroom.Common.Stateful.{Stateful, ◌>>=◌, ◌>>◌, pure, raise}
use vroom.Memory.Dma.{Dma}
use vroom.Memory.Pagesize.{Pagesize, default_page_size}
use vroom.Mapping.Access.{MemoryAccess, init_with_page_size, mapping}
use vroom.Command.{NvmeCommand}
use vroom.Pci.{pci_open_resource_ro, read_hex, read_io}
use vroom.System.{Kernel, Sys, Process}
use vroom.Vfio.Setup.{expect}
use vroom.Host.{Host, Controller}
use vroom.Device.State.{Machine, Action}
use vroom.Device.Init
use vroom.Device.Identify.{identify_controller, identify_namespace_list, identify_namespace}

-- The class of an NVMe device: 0x01 is mass storage, 0x08 its NVMe subclass.
abbrev pub nvme_class : ℕ
nvme_class = 0x0108

module _ (ctl : Controller) (k : Kernel) (commands : Dma → ℕ → NvmeCommand)
    (bytes entries : Dma → ℕ → ℕ) (fuel : ℕ) where
  abbrev On : Type 0 → Type 0
  On A = Action (Process k.State) A

  -- The identification of the namespaces in the list.
  unfoldable pub identify_all : List ℕ → On (Unit {0})
  identify_all [] = λ s. (ok tt, s)
  identify_all (n ∷ ns) = do identify_namespace ctl fuel n; identify_all ns

  -- What follows on the new device.
  unfoldable pub identify : On (Unit {0})
  identify = do
    identify_controller ctl fuel
    ns ← identify_namespace_list ctl fuel 0
    identify_all ns

  abbrev finish :
      Outcome (Unit {0})
      → Machine (Process k.State)
      → Outcome (Machine (Process k.State)) × Process k.State
  finish r s = elim r [
    | ok u ↦ (ok s, s.world)
    | err e ↦ (err e, s.world)
    | panic ↦ (panic, s.world)
    | spin ↦ (spin, s.world)
  ]

  -- The class of the device, from its configuration space. The two identifiers are read and not used.
  unfoldable pub class_of : String → Sys k ℕ
  class_of pci_addr = do
    vendor_file ← expect (pci_open_resource_ro k pci_addr "vendor")
    device_file ← expect (pci_open_resource_ro k pci_addr "device")
    config_file ← expect (pci_open_resource_ro k pci_addr "config")
    read_hex k vendor_file
    read_hex k device_file
    word ← read_io k 4 config_file 8
    pure (word >>> 16)

  -- The device that is set up once its class is known to be right.
  unfoldable pub bring_up : String → Pagesize → Host → Sys k (Machine (Process k.State))
  bring_up pci_addr page_size h = do
    allocator ← init_with_page_size k pci_addr page_size
    s ← Init.init ctl (mapping k allocator) commands bytes entries fuel pci_addr h
    λ w. (let (r, s') = identify s in finish r s')

  -- `init_with_page_size`
  unfoldable pub start : String → Pagesize → Host → Sys k (Machine (Process k.State))
  start pci_addr page_size h = do
    class_id ← class_of pci_addr
    if class_id == nvme_class
        then bring_up pci_addr page_size h
        else raise (vroom_error ("device " <> pci_addr <> " is not a block device"))

  -- `init`
  abbrev pub init : String → Host → Sys k (Machine (Process k.State))
  init pci_addr h = start pci_addr default_page_size h
