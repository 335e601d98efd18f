-- ===== src/Queues/Tests.antt =====
-- Tests and instances for the queues.
use vroom.Common.{
  ℕ, ◌+◌, ◌<◌, ◌≡◌, refl, true, Option, some, List, [], ◌∷◌, ◌++◌, length, arith, ◌==◌,
  if◌then◌else◌,
}
use vroom.Common.Slots.{is_even, update}
use vroom.Common.Outcome.{ok}
use vroom.Memory.Dma.{Dma}
use vroom.Command.{default, async_event_req}
use vroom.Queues.Entry.{NvmeCompletion}
use vroom.Queues.Completion.{
  CompletionQueue, CqMemory, Completed, complete, complete_spin, complete_n, skip,
}
use vroom.Queues.Completion.Position.{At, is_posted, after}
use vroom.Queues.Completion.Spin.{complete_spin_found}
use vroom.Queues.Completion.Batch.{complete_n-eq-each, complete_each, last?}
use vroom.Queues.Completion.Protocol.{Ring, Step, Reach, here, next, start, Answers, Reach-fifo}
use vroom.Queues.Submission.{SubmissionQueue, submit_checked}
use vroom.Queues.Submission.Ring.{IsValid, outstanding}
use vroom.Queues.Submission.Fifo.{contents, enqueue, Submits, submit_checked-Submits, head-drop}

abbrev buffer : Dma
buffer = record { virt = 0x10000; phys = 0x80000; size = 0x40000 }

abbrev entry : ℕ → ℕ → NvmeCompletion
entry id status = record {
  command_specific = 0;
  rsvd = 0;
  sq_head = 1;
  sq_id = 1;
  c_id = id;
  status = status;
}

-- Four slots; entries 2 and 3 of the first lap and entry 0 of the second one are posted.
abbrev cq : CompletionQueue
cq = record { commands = buffer; head = 2; phase = true; len = 4; doorbell = 0x1004 }

abbrev mem : CqMemory
mem i = entry i (if i == 0 then 0 else 1)

-- Nothing is posted at time 0, then `mem` is there.
abbrev late : ℕ → CqMemory
late t i = if t == 0 then entry i 0 else mem i

cq-At : At 2 cq
unfolding is_even
cq-At = record { positive = omega arith; bounded = omega arith; head_at = refl; phase_at = refl }

mem_posted : (j : ℕ) → j < 3 → is_posted mem 4 (2 + j) ≡ true
unfolding is_even
mem_posted j lt = ground arith

taken_three : complete_n (λ _. mem) 5 7 3 cq ≡ ok ((1, mem 0, 2), after 5 cq, 8)
unfolding complete_n skip complete_spin complete is_even
taken_three = refl

complete_spin_found_example : complete_spin late 9 0 cq ≡ ok ((3, mem 2, 2), after 3 cq, 2)
unfolding is_even
complete_spin_found_example =
    complete_spin_found late cq-At 1 9 0 (omega arith) (λ j lt. ground arith) refl

complete_n-eq-each_example :
    (cs : List Completed) × (c : Completed) × (q' : CompletionQueue) × (complete_each mem 3 cq
      ≡ ok (cs, q'))
    × (length cs ≡ 3)
    × (last? cs ≡ some c)
    × (complete_n (λ _. mem) 1 7 3 cq ≡ ok ((c.0, c.1, 2), q', 8))
complete_n-eq-each_example = complete_n-eq-each (λ _. mem) 2 0 7 cq-At (omega arith) mem_posted

abbrev clear : CqMemory
clear i = entry 0 0

abbrev initial : Ring
initial = start buffer 4 0x1004 clear

abbrev posted : Ring
posted = record initial { mem = update clear 0 (entry 9 1); posted = entry 9 1 ∷ [] }

initial-posted : Reach initial posted
unfolding is_even
initial-posted = next here (Step.post (entry 9 1) refl (omega arith) refl)

Reach-fifo_example :
    (waiting : List NvmeCompletion) × (entry 9 1 ∷ [] ≡ [] ++ waiting) × Answers posted waiting
Reach-fifo_example =
    Reach-fifo buffer 4 0x1004 clear posted (omega arith) (λ i. refl) initial-posted

-- Four slots, of which three can be used; the commands in slots 3 and 0 are outstanding.
abbrev sq : SubmissionQueue
sq = record {
  commands = buffer;
  entries = λ i. async_event_req i;
  head = 3;
  tail = 1;
  len = 4;
  doorbell = 0x1000;
}

sq-IsValid : IsValid sq
sq-IsValid = omega arith

submit_checked-Submits_example :
    (r : Option ℕ) × (q' : SubmissionQueue) × (submit_checked default sq ≡ ok (r, q'))
    × IsValid q'
    × Submits sq (enqueue 3 default (async_event_req 3 ∷ async_event_req 0 ∷ [])) (r, q')
submit_checked-Submits_example = submit_checked-Submits sq default sq-IsValid

head-drop_example :
    let q' = record sq { head = 0 } in
    IsValid q' × (contents q' ≡ async_event_req 0 ∷ []) × (outstanding q' + 1 ≡ 2)
head-drop_example = head-drop sq 1 sq-IsValid (omega arith)
