-- ===== src/Pair/Tests.antt =====
-- Tests and instances for the queue pair.
use vroom.Common.{
  ℕ, ◌+◌, ◌*◌, ◌≤◌, ◌<◌, min, ◌≡◌, refl, ◌≢◌, true, false, none, some, List, [], ◌∷◌, inr, length,
  leb, if◌then◌else◌, arith,
}
use vroom.Common.Slots.{is_even}
use vroom.Common.Outcome.{ok}
use vroom.Memory.Dma.{Dma}
use vroom.Memory.Dma.Views.{IsMapped}
use vroom.Memory.Chunks.{DmaChunk}
use vroom.Memory.Chunks.Tiling.{Tiles}
use vroom.Command.{async_event_req}
use vroom.Command.Fields.{Transfers}
use vroom.Queues.Entry.{NvmeCompletion, queue_length}
use vroom.Queues.Submission.Ring.{IsValid}
use vroom.Queues.Submission.Fifo.{contents}
use vroom.Queues.Completion.Position.{At, is_posted}
use vroom.Host.{Host, Controller}
use vroom.Pair.{
  NvmeQueuePair, chunk_bytes, command_id, chunk_command, submit_io, complete_io, quick_poll,
  quick_poll_result,
}
use vroom.Pair.Ids.{command_id-injective, command_id_collides}
use vroom.Pair.Prp.{chunk_command-Transfers, chunk_command_addresses, byte_address}
use vroom.Pair.Submit.{Submitted, free, submit_io_lem}
use vroom.Pair.Complete.{complete_io_lem, quick_poll_lem, taken_pair, rung_host}

abbrev buffer : Dma
buffer = record { virt = 0x10000; phys = 0x80000; size = 20000 }

buffer-IsMapped : IsMapped buffer
buffer-IsMapped = omega arith

abbrev chunk : DmaChunk
chunk = record { phys_addr = 0x80000; ptr = 0x10000; len = 8192 }

-- Status 0 with the phase tag 1, and the submission head 1.
abbrev done : NvmeCompletion
done = record { command_specific = 0; rsvd = 0; sq_head = 1; sq_id = 2; c_id = 0; status = 1 }

abbrev ctl : Controller
ctl = record { completions = λ log t base i. done; reg = λ log t a. 0; memory = λ log t a. 0 }

-- A new pair with id 2 of four slots; the command in slot 0 is outstanding.
abbrev pair : NvmeQueuePair
pair = record {
  id = 2;
  sub_queue = record {
    commands = buffer;
    entries = λ i. async_event_req i;
    head = 0;
    tail = 1;
    len = 4;
    doorbell = 0x1010;
  };
  comp_queue = record { commands = buffer; head = 0; phase = true; len = 4; doorbell = 0x1014 };
}

abbrev host : Host
host = record { log = []; clock = 0 }

pair-IsValid : IsValid pair.sub_queue
pair-IsValid = omega arith

pair-At : At 0 pair.comp_queue
unfolding is_even
pair-At = record { positive = omega arith; bounded = omega arith; head_at = refl; phase_at = refl }

command_id-injective_example : (◌≡◌ {A = ℕ} 3 3) × (◌≡◌ {A = ℕ} 9 9)
command_id-injective_example =
    command_id-injective 3 3 9 9 (omega arith) (omega arith) (omega arith) (omega arith) refl

command_id_collides_example :
    (0 ≢ 2 * 2048) × (2 * 2048 < queue_length) × (command_id 2 0 ≡ command_id 2 4096)
command_id_collides_example = command_id_collides 2 (omega arith) (omega arith)

chunk_command-Transfers_example :
    (n : ℕ) × (ptr1 : ℕ) × Transfers
      (chunk_command 2 1 100 true chunk)
      1
      (command_id 2 1)
      1
      100
      n
      0x80000
      ptr1
    × (8192 ≤ n * 512)
    × (n * 512 < 8192 + 512)
    × (ptr1 ≡ (if leb (n * 512) 4096 then 0 else 0x81000))
chunk_command-Transfers_example =
    chunk_command-Transfers 2 1 100 true chunk (omega arith) (omega arith) (omega arith)
      (omega arith)

chunk_command_addresses_example :
    byte_address (chunk_command 2 1 100 false chunk) 5000 ≡ 0x80000 + 5000
chunk_command_addresses_example =
    chunk_command_addresses 2 1 100 false chunk 5000 (omega arith) (omega arith) (omega arith)
      (omega arith) (omega arith)

submit_io_lem_example :
    (cs : List DmaChunk) × (qp' : NvmeQueuePair) × (h' : Host) × Tiles buffer chunk_bytes 0 cs
    × (submit_io buffer 100 true pair host ≡ ok (min (length cs) (free pair.sub_queue), qp', h'))
    × Submitted cs 100 true pair host (min (length cs) (free pair.sub_queue)) qp' h'
submit_io_lem_example = submit_io_lem buffer 100 true pair host buffer-IsMapped pair-IsValid

complete_io_lem_example :
    (qp' : NvmeQueuePair) × (h' : Host) × (complete_io ctl 3 1 pair host ≡ ok (some 1, qp', h'))
    × At 1 qp'.comp_queue
    × IsValid qp'.sub_queue
    × (contents qp'.sub_queue ≡ [])
    × (h'.log ≡ (0x1014, 1) ∷ [])
    × (h'.clock ≡ 1)
unfolding is_even
complete_io_lem_example =
    complete_io_lem ctl pair host 0 pair-At 0 0 3 1 pair-IsValid (omega arith) (omega arith)
      (λ i lt. absurd (omega arith)) refl (omega arith) refl

quick_poll_lem_example :
    (is_posted (λ i. done) 4 0 ≡ true
      → (quick_poll ctl pair host ≡ ok (some tt, taken_pair pair 0 done, rung_host pair host 0 1))
        × (quick_poll_result ctl (λ e. "failed") pair host
            ≡ ok (inr (some tt), taken_pair pair 0 done, rung_host pair host 0 1)))
    × (is_posted (λ i. done) 4 0 ≡ false
        → (quick_poll ctl pair host ≡ ok (none, pair, record host { clock = 1 }))
          × (quick_poll_result ctl (λ e. "failed") pair host
              ≡ ok (inr none, pair, record host { clock = 1 })))
quick_poll_lem_example = quick_poll_lem ctl pair host 0 pair-At (λ e. "failed")
