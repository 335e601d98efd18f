-- ===== src/Device/Init.antt =====
-- The initialisation of the controller, as `NvmeDevice::init` does it once the device exists. The
-- registers that it reads only to print them take time all the same.
pub mod Ready
pub mod PageList
use Prim.Native.Nat.{bit_and, bit_or}
use Prim.Native.String.{String}
use vroom.Common.{
  ℕ, zero, suc, ◌+◌, ◌-◌, ◌*◌, ◌%◌, ◌^◌, Bool, true, false, not, ltb, ◌==◌, same, List, [],
}
use vroom.Common.Stateful.{Stateful, get}
use vroom.Common.Words.{u16, u32, u64, ◌<<◌, ◌>>>◌}
use vroom.Common.Slots.{update}
use vroom.Common.Outcome.{Outcome, ok, err, panic, spin}
use vroom.Memory.Dma.{Dma}
use vroom.Mapping.{Mapping}
use vroom.Command
use vroom.Command.{NvmeCommand}
use vroom.Queues.Entry.{queue_length}
use vroom.Queues.Submission
use vroom.Queues.Completion
use vroom.Host.{Controller, Host}
use vroom.Device.State.{NvmeDevice, Machine, Action, pure, lift, gets, modify, ◌>>=◌, ◌>>◌}
use vroom.Queues.Submission.{SubmissionQueue}
use vroom.Queues.Completion.{CompletionQueue}
use vroom.Device.Registers.{
  offset32, offset64, vs, cc, csts, aqa, cap, asq, acq, get_reg32, get_reg64, set_reg32, set_reg64,
}
use vroom.Device.Admin.{submit_and_complete_admin}

abbrev buffer_size : ℕ
buffer_size = 4096

abbrev prp_list_size : ℕ
prp_list_size = 4096

-- The device, before its list is set up. `commands`, `bytes` and `entries` are what newly mapped
-- memory holds. Reading the stride exponent takes a moment.
module _ (ctl : Controller) (m : Mapping) (commands : Dma → ℕ → NvmeCommand)
    (bytes entries : Dma → ℕ → ℕ) where
  open m use {World, allocate, map_resource}

  abbrev pub new_device :
      String
      → Host
      → ℕ × ℕ
      → (buffer prp_list : Dma) (admin_sq : SubmissionQueue) (admin_cq : CompletionQueue)
        (io_sq : SubmissionQueue) (io_cq : CompletionQueue)
      → World
      → Machine World
  new_device pci_addr h mapped buffer prp_list admin_sq admin_cq io_sq io_cq w = record {
    dev = record {
      pci_addr = pci_addr;
      addr = mapped.0;
      len = mapped.1;
      dstrd = bit_and (ctl.reg h.log h.clock (u64 (mapped.0 + offset64 cap)) >>> 32) 15;
      admin_sq = admin_sq;
      admin_cq = admin_cq;
      io_sq = io_sq;
      io_cq = io_cq;
      buffer = buffer;
      copied = bytes buffer;
      prp_list = prp_list;
      prp = entries prp_list;
      namespaces = [];
      stats = record { completions = 0; submissions = 0 };
      q_id = 1;
    };
    host = record h { clock = h.clock + 1 };
    world = w;
  }

  -- What follows the mapping of the registers.
  unfoldable pub build : String → Host → ℕ × ℕ → Stateful World (Machine World)
  build pci_addr h mapped = do
    buffer ← allocate buffer_size
    prp_list ← allocate prp_list_size
    admin_sq ← Submission.new m commands queue_length 0
    admin_cq ← Completion.new m queue_length 0
    io_sq ← Submission.new m commands queue_length 0
    io_cq ← Completion.new m queue_length 0
    w ← get
    pure (new_device pci_addr h mapped buffer prp_list admin_sq admin_cq io_sq io_cq w)

  unfoldable pub create : String → Host → Stateful World (Machine World)
  create pci_addr h = do mapped ← map_resource; build pci_addr h mapped

-- `for i in 1..512`, from `i` on for `n` entries: entry `i - 1` is the `i`-th page of the buffer.
unfoldable pub page_list : ℕ → ℕ → ℕ → (ℕ → ℕ) → ℕ → ℕ
page_list zero i phys prp = prp
page_list (suc n) i phys prp = page_list n (i + 1) phys (update prp (i - 1) (u64 (phys + i * 4096)))

-- `cc & 0xFFFF_FFFE`
abbrev pub disabled : ℕ → ℕ
disabled c = bit_and c 0xFFFF_FFFE

-- The entry sizes, 2^4 bytes and 2^6 bytes, in the configuration; most other fields are cleared.
abbrev pub configured : ℕ → ℕ
configured c = bit_or (bit_and c 0xFF00_000F) (bit_or (4 << 20) (6 << 16))

-- `cc | 1`
abbrev pub enabled : ℕ → ℕ
enabled c = bit_or c 1

-- The sizes of both admin queues.
abbrev pub admin_sizes : ℕ
admin_sizes = bit_or (u32 ((queue_length - 1) << 16)) (queue_length - 1)

module _ (ctl : Controller) {W : Type 0} where
  -- A loop that reads the status until its lowest bit is `b`, for at most `fuel` reads.
  unfoldable pub wait : Bool → ℕ → Action W (Unit {0})
  wait b zero = lift spin
  wait b (suc fuel) = do
    status ← get_reg32 ctl (offset32 csts)
    elim (same (bit_and status 1 == 1) b) [ true ↦ pure tt | false ↦ wait b fuel ]

  -- Disable the controller, and wait until it has stopped.
  unfoldable pub stop : ℕ → Action W (Unit {0})
  stop fuel = do
    c ← get_reg32 ctl (offset32 cc)
    set_reg32 (offset32 cc) (disabled c)
    wait false fuel

  -- Tell the controller where its admin queues are, and configure it.
  unfoldable pub setup : Action W (Unit {0})
  setup s =
      (do
        set_reg64 (offset64 asq) (Submission.get_addr s.dev.admin_sq)
        set_reg64 (offset64 acq) (Completion.get_addr s.dev.admin_cq)
        set_reg32 (offset32 aqa) admin_sizes
        c ← get_reg32 ctl (offset32 cc)
        set_reg32 (offset32 cc) (configured c))
        s

  -- Enable it, and wait until it is ready.
  unfoldable pub start : ℕ → Action W (Unit {0})
  start fuel = do
    c ← get_reg32 ctl (offset32 cc)
    set_reg32 (offset32 cc) (enabled c)
    wait true fuel

  abbrev pub enable : ℕ → Action W (Unit {0})
  enable fuel = do stop fuel; setup; start fuel

  -- The rest of `init` behind the creation of the device.
  unfoldable pub configure : ℕ → Action W (Unit {0})
  configure fuel = do
    modify λ d. record d { prp = page_list 511 1 d.buffer.phys d.prp }
    get_reg64 ctl (offset64 cap)
    get_reg64 ctl (offset64 cap)
    get_reg32 ctl (offset32 vs)
    get_reg32 ctl (offset32 cc)
    enable fuel
    d ← gets (λ d. d)
    submit_and_complete_admin ctl fuel λ c_id p.
        Command.create_io_completion_queue c_id d.q_id (Completion.get_addr d.io_cq)
          (u16 (queue_length - 1))
    submit_and_complete_admin ctl fuel λ c_id p.
        Command.create_io_submission_queue c_id d.q_id (Submission.get_addr d.io_sq)
          (u16 (queue_length - 1)) d.q_id
    modify λ d'. record d' { q_id = u16 (d'.q_id + 1) }

-- `NvmeDevice::init`
module _ (ctl : Controller) (m : Mapping) (commands : Dma → ℕ → NvmeCommand)
    (bytes entries : Dma → ℕ → ℕ) where
  open m use {World}

  abbrev pub finish : Outcome (Unit {0}) → Machine World → Outcome (Machine World) × World
  finish r s = elim r [
    | ok u ↦ (ok s, s.world)
    | err e ↦ (err e, s.world)
    | panic ↦ (panic, s.world)
    | spin ↦ (spin, s.world)
  ]

  unfoldable pub init : ℕ → String → Host → Stateful World (Machine World)
  init fuel pci_addr h = create ctl m commands bytes entries pci_addr h >>= λ s w.
      let (r, s') = configure ctl fuel s in finish r s'
