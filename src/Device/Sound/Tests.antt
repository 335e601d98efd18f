-- ===== src/Device/Sound/Tests.antt =====
-- Instances for whole uses of a device.
use vroom.Common.{◌≡◌, refl, true, false, List, [], ◌∷◌, arith}
use vroom.Common.Outcome.{ok}
use vroom.Mapping.{Mapping}
use vroom.Command.{async_event_req}
use vroom.Host.{Host}
use vroom.Device.State.{Machine}
use vroom.Device.Init.{init}
use vroom.Device.Tests.{buffer, echo, machine}
use vroom.Device.Sound.{Window, Sound}
use vroom.Device.Sound.Histories.{
  Operation, allocate, identify_controller, create_io_queue_pair, transfer, run_all, run_all-Sound,
}
use vroom.Device.Sound.Start.{init-run_all}

-- Memory without end, and 16 KiB of registers.
abbrev plain : Mapping
plain = record {
  World = Unit {0};
  allocate = λ size w. (ok (record { virt = 0x10000; phys = 0x80000; size = size }), w);
  deallocate = λ dma w. (ok tt, w);
  map_resource = λ w. (ok (0x100000, 0x4000), w);
}

narrow-Window : Window 0x100000 0x4000 0
narrow-Window = record { narrow = omega arith; room = omega arith; top = omega arith }

abbrev idle : Host
idle = record { log = []; clock = 0 }

abbrev uses : List Operation
uses =
    allocate 8192
    ∷ identify_controller
    ∷ transfer buffer 7 true
    ∷ create_io_queue_pair 64
    ∷ transfer buffer 7 false
    ∷ []

machine-Sound : Sound 0x100000 0x4000 0 machine
machine-Sound = record {
  same_addr = refl;
  same_len = refl;
  same_dstrd = refl;
  admin_tail = record { fits = omega arith; within = omega arith };
  admin_head = record { fits = omega arith; within = omega arith };
  io_tail = record { fits = omega arith; within = omega arith };
  io_head = record { fits = omega arith; within = omega arith };
  inside = tt;
}

run_all-Sound_example :
    Sound 0x100000 0x4000 0 (run_all echo 3 plain (λ d i. async_event_req i) uses machine)
run_all-Sound_example =
    run_all-Sound echo 3 plain (λ d i. async_event_req i) narrow-Window uses machine machine-Sound

initialised :
    (s : Machine (Unit {0})) × (init echo plain
        (λ d i. async_event_req i)
        (λ d i. 0)
        (λ d i. 0)
        5
        "0000:00:04.0"
        idle
        tt
      ≡ (ok s, tt))
unfolding init vroom.Device.Init.create vroom.Device.Init.build vroom.Queues.Submission.new
    vroom.Queues.Completion.new vroom.Device.Init.configure vroom.Device.Registers.get_reg64
    vroom.Device.Registers.check vroom.Device.Registers.get_reg32 vroom.Device.Init.stop
    vroom.Device.Registers.set_reg32 vroom.Device.Init.wait vroom.Device.Init.setup
    vroom.Device.Registers.set_reg64 vroom.Device.Init.start
    vroom.Device.Admin.submit_and_complete_admin vroom.Queues.Submission.submit
    vroom.Device.Registers.write_reg_idx vroom.Queues.Completion.complete
    vroom.Queues.Completion.complete_spin
initialised = (_, refl)

init-run_all_example :
    Sound 0x100000 0x4000 0 (run_all echo 3 plain (λ d i. async_event_req i) uses initialised.0)
init-run_all_example =
    init-run_all echo plain (λ d i. async_event_req i) (λ d i. 0) (λ d i. 0) 5 3 "0000:00:04.0" idle
      tt tt tt 0x100000 0x4000 initialised.0 refl narrow-Window refl initialised.1 uses
