-- ===== src/Device/Io/Tests.antt =====
-- An instance for a transfer that the controller refuses in the middle.
use vroom.Common.{◌≡◌, refl, true, [], ◌∷◌, ◌==◌, if◌then◌else◌, arith}
use vroom.Common.Slots.{is_even}
use vroom.Common.Outcome.{ok, panic}
use vroom.Memory.Chunks.{DmaChunk, collect, next}
use vroom.Queues.Submission.{submit}
use vroom.Queues.Submission.Ring.{IsValid}
use vroom.Queues.Completion.{complete_spin, complete_n, skip, complete}
use vroom.Queues.Completion.Position.{At}
use vroom.Host.{Controller}
use vroom.Command.{io_write}
use vroom.Device.State.{Machine}
use vroom.Device.Registers.{write_reg_idx, doorbell, sq_tail, cq_head}
use vroom.Device.Io.{complete_io, namespace_io, transfer_chunks, transfer, io_command, list_pointer}
use vroom.Device.Io.Failure.{transfer_panics}
use vroom.Device.Tests.{buffer, machine, device, done}

-- The first command succeeds; the second ends with the status 1.
abbrev refusing : Controller
refusing = record {
  completions = λ log t base i. if i == 1 then record done { status = 3 } else done;
  reg = λ log t a. 0;
  memory = λ log t a. 0;
}

abbrev first : DmaChunk
first = record { phys_addr = 0x80000; ptr = 0x10000; len = 8192 }

abbrev second : DmaChunk
second = record { phys_addr = 0x82000; ptr = 0x12000; len = 8192 }

abbrev third : DmaChunk
third = record { phys_addr = 0x84000; ptr = 0x14000; len = 3616 }

-- The device behind the first chunk.
succeeded :
    (s1 : Machine (Unit {0})) × (transfer_chunks refusing 1 (first ∷ []) 0 true machine
      ≡ (ok tt, s1))
unfolding transfer_chunks namespace_io complete_io submit complete_spin complete write_reg_idx
    complete_n skip
succeeded = (_, refl)

behind-At : At 1 succeeded.0.dev.io_cq
unfolding is_even succeeded
behind-At = record {
  positive = omega arith;
  bounded = omega arith;
  head_at = refl;
  phase_at = refl;
}

behind-IsValid : IsValid succeeded.0.dev.io_sq
unfolding succeeded
behind-IsValid = record {
  positive = omega arith;
  bounded = omega arith;
  head_in = omega arith;
  tail_in = omega arith;
}

transfer_panics_example :
    (s' : Machine (Unit {0})) × (transfer refusing 1 buffer 0 true machine ≡ (panic, s'))
    × (s'.host.log
        ≡ (doorbell (device 0) cq_head 1, 2)
          ∷ (doorbell (device 0) sq_tail 1, 2)
          ∷ succeeded.0.host.log)
unfolding collect next io_command io_write list_pointer doorbell succeeded is_even
transfer_panics_example =
    transfer_panics refusing 1 buffer 0 true machine succeeded.0 (first ∷ []) (third ∷ []) second 1
      0 refl succeeded.1 (omega arith) (omega arith) behind-At behind-IsValid (omega arith)
      (λ j h. absurd (omega arith)) refl (omega arith)
