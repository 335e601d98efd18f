-- ===== src/Device/Tests.antt =====
-- Tests and instances for the device.
use vroom.Common.{ℕ, ◌+◌, ◌≤◌, ◌≡◌, refl, true, List, [], ◌∷◌, arith}
use vroom.Common.Slots.{is_even}
use vroom.Common.Outcome.{ok, spin}
use vroom.Memory.Dma.{Dma}
use vroom.Command
use vroom.Command.{async_event_req}
use vroom.Queues.Entry.{NvmeCompletion}
use vroom.Queues.Submission.{SubmissionQueue, push}
use vroom.Queues.Submission.Ring.{IsValid}
use vroom.Queues.Completion.{CompletionQueue}
use vroom.Queues.Completion.Position.{At}
use vroom.Host.{Controller}
use vroom.Device.Copied.{batch}
use vroom.Device.Copied.Whole.{batch_lem}
use vroom.Device.Copied.Overfull.{batch_hangs}
use vroom.Device.Copied.Batches.{Batched}
use vroom.Device.State.{NvmeNamespace, NvmeDevice, Machine}
use vroom.Device.Registers.{sq_tail, cq_head, doorbell, pair_offset, set_reg32, get_reg32}
use vroom.Device.Registers.Doorbells.{Fits, doorbells_apart, doorbell_collides}
use vroom.Device.Io.{io_command, namespace_io, fill_list, list_pointer}
use vroom.Device.Io.Lists.{list_reaches, entry_at}
use vroom.Device.Io.Request.{namespace_io_lem}
use vroom.Device.Init.{page_list}
use vroom.Device.Init.PageList.{initial_list_skips}

abbrev pub buffer : Dma
buffer = record { virt = 0x10000; phys = 0x80000; size = 20000 }

-- Status 0 with the phase tag 1, and the submission head 1.
abbrev pub done : NvmeCompletion
done = record { command_specific = 0; rsvd = 0; sq_head = 1; sq_id = 1; c_id = 0; status = 1 }

abbrev ctl : Controller
ctl = record { completions = λ log t base i. done; reg = λ log t a. 0; memory = λ log t a. 0 }

abbrev submissions : SubmissionQueue
submissions = record {
  commands = buffer;
  entries = λ i. async_event_req i;
  head = 0;
  tail = 0;
  len = 4;
  doorbell = 0;
}

abbrev completions : CompletionQueue
completions = record { commands = buffer; head = 0; phase = true; len = 4; doorbell = 0 }

-- A device whose registers lie at 0x100000, with the given doorbell stride exponent.
abbrev pub device : ℕ → NvmeDevice
device dstrd = record {
  pci_addr = "0000:00:04.0";
  addr = 0x100000;
  len = 0x4000;
  dstrd = dstrd;
  admin_sq = submissions;
  admin_cq = completions;
  io_sq = submissions;
  io_cq = completions;
  buffer = buffer;
  copied = λ i. 0;
  prp_list = buffer;
  prp = λ i. 0;
  namespaces = [];
  stats = record { completions = 0; submissions = 0 };
  q_id = 2;
}

abbrev pub machine : Machine (Unit {0})
machine = record { dev = device 0; host = record { log = []; clock = 0 }; world = tt }

doorbell_of_queue_2 : doorbell (device 0) cq_head 2 ≡ 0x101014
unfolding doorbell
doorbell_of_queue_2 = refl

submissions-IsValid : IsValid submissions
submissions-IsValid = record {
  positive = omega arith;
  bounded = omega arith;
  head_in = omega arith;
  tail_in = omega arith;
}

second_sq-Fits : Fits (device 0) sq_tail 2
second_sq-Fits = record { narrow = omega arith; near = omega arith; mapped = omega arith }

second_cq-Fits : Fits (device 0) cq_head 2
second_cq-Fits = record { narrow = omega arith; near = omega arith; mapped = omega arith }

doorbells_apart_example : doorbell (device 0) sq_tail 2 + 4 ≤ doorbell (device 0) cq_head 2
doorbells_apart_example =
    doorbells_apart (device 0) sq_tail cq_head 2 2 second_sq-Fits second_cq-Fits (omega arith)

doorbell_collides_example : doorbell (device 13) sq_tail 1 ≡ doorbell (device 13) sq_tail 0
doorbell_collides_example = doorbell_collides (device 13) (omega arith) (omega arith)

list_reaches_example :
    (prp : ℕ → ℕ) × (fill_list ctl 1 4 0 0x200000 machine
      ≡ (ok tt, record machine { dev = record (device 0) { prp = prp } }))
    × (entry_at
          (record (device 0) { prp = prp })
          (list_pointer (record (device 0) { prp = prp }) 32 0x200000)
          1
        ≡ 0x202000)
list_reaches_example =
    list_reaches ctl 1 4 32 0x200000 1 machine (omega arith) (omega arith) (omega arith)
      (omega arith) (omega arith) (omega arith)

start-At : At 0 completions
unfolding is_even
start-At = record { positive = omega arith; bounded = omega arith; head_at = refl; phase_at = refl }

namespace_io_lem_example :
    (s' : Machine (Unit {0})) × (namespace_io ctl 3 1 8 0 0x200000 true machine ≡ (ok tt, s'))
    × At 1 s'.dev.io_cq
    × (s'.dev.io_sq
        ≡ record (push (io_command (device 0) 1 8 0 0x200000 true) submissions) { head = 1 })
    × (s'.host.log ≡ (doorbell (device 0) cq_head 1, 1) ∷ (doorbell (device 0) sq_tail 1, 1) ∷ [])
    × (s'.host.clock ≡ 1)
    × (s'.dev.stats.submissions ≡ 1)
    × (s'.dev.stats.completions ≡ 1)
unfolding is_even
namespace_io_lem_example =
    namespace_io_lem ctl 3 1 8 0 0x200000 true machine 0 0 start-At submissions-IsValid
      (omega arith) (omega arith) (omega arith) (λ i lt. absurd (omega arith)) refl

-- A controller that shows the value written last in every register.
abbrev newest : List (ℕ × ℕ) → ℕ
newest [] = 0
newest ((a, v) ∷ log) = v

abbrev pub echo : Controller
echo = record {
  completions = λ log t base i. done;
  reg = λ log t a. newest log;
  memory = λ log t a. 0;
}

initial_list_skips_example :
    let d = record (device 0) { prp = page_list 511 1 0x80000 (λ i. 0) } in
    entry_at d (list_pointer d 32 0x80000) 0 ≡ 0x82000
initial_list_skips_example =
    initial_list_skips (device 0) 32 0 (omega arith) (omega arith) (omega arith) (omega arith)
      (omega arith)

abbrev blocks_of_512 : NvmeNamespace
blocks_of_512 = record { id = 1; blocks = 1000; block_size = 512 }

batch_lem_example :
    (s1 : Machine (Unit {0})) × (s' : Machine (Unit {0})) × Batched blocks_of_512 1024 2 true 0 100
      2 machine s1
    × (batch ctl 3 blocks_of_512 2 2048 100 true machine ≡ (ok 104, s'))
    × At 2 s'.dev.io_cq
    × (s'.dev.io_sq ≡ record (s1.dev.io_sq) { head = 1 })
    × (s'.host.log ≡ (doorbell (device 0) cq_head 1, 2) ∷ s1.host.log)
    × (s'.host.clock ≡ 1)
unfolding is_even
batch_lem_example =
    batch_lem ctl 3 blocks_of_512 2 2048 100 true machine 0 1 0 (omega arith) (omega arith)
      (omega arith) (omega arith) (omega arith) submissions-IsValid start-At (omega arith)
      (omega arith) (omega arith) (λ j h. absurd (omega arith)) refl

-- A controller that answers no command.
abbrev silent : Controller
silent = record {
  completions = λ log t base i. record done { status = 0 };
  reg = λ log t a. 0;
  memory = λ log t a. 0;
}

-- Four requests, on a queue with three free slots.
batch_hangs_example :
    (s' : Machine (Unit {0})) × (batch silent 1000 blocks_of_512 4 4096 100 true machine
      ≡ (spin, s'))
unfolding is_even
batch_hangs_example =
    batch_hangs silent 1000 blocks_of_512 4 4096 100 true machine 0 3 (omega arith) (omega arith)
      (omega arith) (omega arith) (omega arith) submissions-IsValid start-At (omega arith)
      (omega arith) (λ t. refl)
