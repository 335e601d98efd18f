-- ===== src/Examples/Tests.antt =====
-- An instance for a whole load.
use Prim.Native.Nat.{bit_and}
use vroom.Common.{
  ℕ, ◌+◌, ◌/◌, ◌%◌, ◌<◌, ◌≡◌, refl, ◌∙◌, Bool, true, false, List, [], ◌∷◌, ltb, if◌then◌else◌, ◌==◌,
  same, arith,
}
use vroom.Common.Slots.{is_even}
use vroom.Common.Outcome.{ok, panic}
use vroom.Memory.Dma.{Dma}
use vroom.Command.{async_event_req}
use vroom.Host.{Host, Controller}
use vroom.Queues.Submission.{SubmissionQueue, is_empty}
use vroom.Queues.Completion.{CompletionQueue}
use vroom.Queues.Completion.Position.{At, is_posted}
use vroom.Examples.{Turn, Load}
use vroom.Examples.Latency.{nanos_turns}
use vroom.Examples.Latency.Overrun.{nanos_overrun}
use vroom.Examples.Throughput.{work}
use vroom.Examples.Throughput.Steps.{writes, shown, Serves, Setting}
use vroom.Examples.Throughput.Loop.{Made}
use vroom.Examples.Throughput.Whole.{new_load, work_lem}

-- A controller that answers at once: the first entries of the queue are posted, as many as the tail
-- doorbell at 8 was rung.
abbrev prompt : Controller
prompt = record {
  completions = λ log t base i. record {
    command_specific = 0;
    rsvd = 0;
    sq_head = i + 1;
    sq_id = 0;
    c_id = 0;
    status = if ltb i (writes 8 log) then 1 else 0;
  };
  reg = λ log t a. 0;
  memory = λ log t a. 0;
}

abbrev ring : Dma
ring = record { virt = 0x10000; phys = 0x80000; size = 4096 }

abbrev sq : SubmissionQueue
sq = record {
  commands = ring;
  entries = λ i. async_event_req i;
  head = 0;
  tail = 0;
  len = 8;
  doorbell = 8;
}

abbrev cq : CompletionQueue
cq = record { commands = ring; head = 0; phase = true; len = 8; doorbell = 12 }

abbrev buffer : Dma
buffer = record { virt = 0x20000; phys = 0x90000; size = 8192 }

abbrev plenty : List Turn
plenty =
    record { random = 5; elapsed = 4 }
    ∷ record { random = 9; elapsed = 4 }
    ∷ record { random = 2; elapsed = 4 }
    ∷ []

lap_status : (b : Bool) → same (bit_and (if b then 1 else 0) 1 == 1) (is_even 0) ≡ b
unfolding is_even
lap_status true = refl
lap_status false = refl

-- In the first lap an entry is posted exactly if its command is submitted.
first_lap :
    (log : List (ℕ × ℕ)) (t p : ℕ)
    → p < 8
    → is_posted (shown prompt cq log t) 8 p ≡ ltb p (writes 8 log)
first_lap log t p lt =
    let slot : p % 8 ≡ p = omega arith in
    let lap : p / 8 ≡ 0 = omega arith in rw (slot, lap) (lap_status (ltb p (writes 8 log)))

prompt-Serves : Serves prompt sq cq 3 2 5
prompt-Serves = record {
  idle = λ log t n e le. first_lap log t n (omega arith) ∙ ground arith;
  fetched = λ log t p. p + 1;
  reports = λ log t n p e le lt near posted. (omega arith, omega arith, omega arith);
  delay = λ log t p. 0;
  answers = λ log t n p e le lt near. (
    omega arith,
    λ j h. absurd (omega arith),
    first_lap log (t + 0) p (omega arith) ∙ ground arith,
  );
}

small-Setting : Setting sq cq 3 2
unfolding is_even
small-Setting = record {
  start = record { positive = omega arith; bounded = omega arith; head_at = refl; phase_at = refl };
  same_len = refl;
  apart = λ e. omega (arith, e);
  some_ops = omega arith;
  slots = omega arith;
  countable = omega arith;
}

abbrev idle : Host
idle = record { log = []; clock = 0 }

work_lem_example :
    (m : ℕ) × (l : Load) × (work prompt 5 2 100 10 true true buffer plenty 1 (new_load 1 sq cq idle)
      ≡ (ok tt, l))
    × Made 10 0 plenty m
    × (l.total_io_ops ≡ m)
    × (writes 8 l.host.log ≡ m)
    × At m l.qpair.comp_queue
    × (is_empty l.qpair.sub_queue ≡ true)
work_lem_example =
    work_lem prompt 1 sq cq idle 3 2 5 100 10 true true buffer plenty 1 prompt-Serves small-Setting
      refl refl refl (omega arith) (record { virt_fits = omega arith; phys_fits = omega arith })
      (omega arith) (omega arith) (omega arith) (omega arith)

-- A thread with one operation, for which the buffer has two parts.
abbrev full_load : Load
full_load = record (new_load 1 sq cq idle) { outstanding_ops = 1 }

nanos_overrun_example :
    (l' : Load) × (nanos_turns prompt 5 1 100 1000 true false buffer plenty full_load ≡ (panic, l'))
    × (l'.qpair.comp_queue ≡ cq)
nanos_overrun_example =
    nanos_overrun prompt 5 1 100 1000 true false buffer plenty full_load (omega arith)
      (record { virt_fits = omega arith; phys_fits = omega arith }) (omega arith)
      (record {
        positive = omega arith;
        bounded = omega arith;
        head_in = omega arith;
        tail_in = omega arith;
      })
      (omega arith) (omega arith) (omega arith) (omega arith)
