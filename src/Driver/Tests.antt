-- ===== src/Driver/Tests.antt =====
-- An instance for the start of the driver.
use mathlib.Core.Path.{◌≡◌}
use text.Mathlib.Text.{◌==◌ as str_eq}
use vroom.Common.{ℕ, ◌/◌, ◌^◌, refl, true, ◌==◌, if◌then◌else◌, List, [], ◌∷◌, some, inr}
use vroom.Common.Outcome.{ok}
use vroom.Memory.Pagesize.{page_2m}
use vroom.Command.{async_event_req}
use vroom.Host.{Host, Controller}
use vroom.Device.State.{Machine}
use vroom.System.{Kernel, Process}
use vroom.System.Example.{Memory, small, process}
use vroom.Pci.Bytes.{from_bytes}
use vroom.Driver.{class_of, bring_up, start}
use vroom.Driver.Class.{IsRead, behind_word, start-class}

-- A system with an NVMe device at "0000:00:04.0", bound to `pci-stub`: its class is in the bytes 10 and 11 of
-- the configuration, and its registers are 16 KiB.
abbrev with_device : Kernel
with_device = record (small 0x41000000) {
  exists = λ path w. str_eq path "/sys/bus/pci/drivers/pci-stub";
  read_dir = λ path w. (inr (inr (true, some "0000:00:04.0") ∷ []), w);
  read_to_string = λ fd w. (inr (48 ∷ 120 ∷ 49 ∷ 10 ∷ []), w);
  file_len = λ path w. (inr 0x4000, w);
}

abbrev before : Process Memory
before = record process {
  kernel = record (process.kernel) { byte = λ i. if i == 10 then 8 else if i == 11 then 1 else 0 };
}

-- Every register shows the value written last, and every completion is a success.
abbrev newest : List (ℕ × ℕ) → ℕ
newest [] = 0
newest ((a, v) ∷ log) = v

abbrev ctl : Controller
ctl = record {
  completions = λ log t base i. record {
    command_specific = 0;
    rsvd = 0;
    sq_head = 1;
    sq_id = 0;
    c_id = 0;
    status = 1;
  };
  reg = λ log t a. newest log;
  memory = λ log t a. 0;
}

abbrev idle : Host
idle = record { log = []; clock = 0 }

-- The driver starts, with a buffer of 512 pages.
started :
    (m : Machine (Process with_device.State)) × (p' : Process with_device.State) × (start ctl
        with_device
        (λ d i. async_event_req i)
        (λ d i. 0)
        (λ d i. 0)
        5
        "0000:00:04.0"
        page_2m
        idle
        before
      ≡ (ok m, p'))
unfolding start class_of vroom.Pci.pci_open_resource_ro vroom.Pci.read_hex vroom.Pci.Hex.parse_hex
    vroom.Pci.Hex.from_str_radix vroom.Pci.Hex.strip_0x vroom.Pci.Hex.trim_end
    vroom.Pci.Hex.trim_start vroom.Pci.Hex.is_white vroom.Pci.Hex.hex_digits vroom.Pci.Hex.hex_digit
    vroom.Pci.read_io vroom.Pci.Bytes.from_bytes bring_up vroom.Mapping.Access.init_with_page_size
    vroom.Physical.init_with_args vroom.Physical.is_bound_to_pci_stub vroom.Physical.find_link
    vroom.Physical.set_command_bit vroom.Pci.write_io vroom.Device.Init.init
    vroom.Device.Init.create vroom.Device.Init.build vroom.Mapping.Access.map_resource
    vroom.Physical.map_resource vroom.System.Calls.mmap_unsafe vroom.Mapping.Access.allocate
    vroom.Physical.allocate vroom.Physical.huge_page vroom.Physical.map_file
    vroom.Physical.lock_and_find vroom.System.Calls.mlock_unsafe vroom.Physical.virt_to_phys
    async_event_req vroom.Queues.Submission.new vroom.Queues.Completion.new
    vroom.Device.Init.configure vroom.Device.Registers.get_reg64 vroom.Device.Registers.check
    vroom.Device.Registers.get_reg32 vroom.Device.Init.stop vroom.Device.Registers.set_reg32
    vroom.Device.Init.wait vroom.Device.Init.setup vroom.Device.Registers.set_reg64
    vroom.Device.Init.start vroom.Device.Admin.submit_and_complete_admin
    vroom.Queues.Submission.submit vroom.Device.Registers.write_reg_idx
    vroom.Queues.Completion.complete_spin vroom.Queues.Completion.complete vroom.Driver.identify
    vroom.Device.Identify.identify_controller vroom.Memory.Dma.index_range
    vroom.Memory.Pagesize.shift_up vroom.Device.Identify.identify_namespace_list
    vroom.Driver.identify_all vroom.Device.Identify.ids_at
started = (_, _, refl)

start-class_example :
    (vendor : ℕ) × (dev : ℕ) × (config : ℕ) × (word : List ℕ) × IsRead with_device "0000:00:04.0"
      before.kernel vendor dev config word
    × (from_bytes word / 2 ^ 16 ≡ 0x0108)
    × (bring_up ctl with_device
          (λ d i. async_event_req i)
          (λ d i. 0)
          (λ d i. 0)
          5
          "0000:00:04.0"
          page_2m
          idle
          (behind_word with_device "0000:00:04.0" vendor dev config before)
        ≡ (ok started.0, started.1))
start-class_example =
    start-class ctl with_device (λ d i. async_event_req i) (λ d i. 0) (λ d i. 0) 5 "0000:00:04.0"
      page_2m idle before started.1 started.0 started.2
