-- ===== src/Examples/Throughput/Sends.antt =====
-- The submission of a turn: one command, from a part of the buffer of its own.
use native.Mathlib.Nat.{mod-lt}
use vroom.Common.{ℕ, suc, ◌+◌, ◌-◌, ◌*◌, ◌%◌, ◌≤◌, ◌<◌, ◌≡◌, refl, ◌∙◌, Bool, some, [], ◌∷◌, arith}
use vroom.Common.Words.{u32, u64}
use vroom.Common.Slots
use vroom.Common.Slots.{slot-ne, slot_step}
use vroom.Common.Outcome.{ok}
use vroom.Memory.Dma.{Dma, slice}
use vroom.Memory.Dma.Views.{IsMapped}
use vroom.Memory.Chunks.{DmaChunk, chunks, collect, next}
use vroom.Command.{NvmeCommand}
use vroom.Host.{Controller}
use vroom.Queues.Submission.{SubmissionQueue, submit_checked, submit, is_full}
use vroom.Queues.Completion.{CompletionQueue}
use vroom.Pair.{submit_io, submit_chunks, chunk_command}
use vroom.Pair.Submit.{submit_io-collected}
use vroom.Examples.{Load, on_pair-ok, submit_part, bytes}
use vroom.Examples.Throughput.Steps.{Serves, Spot, load_at, Consistent, Setting}

-- The part of the buffer for the operation number `o`.
abbrev pub part : Dma → ℕ → Dma
part buffer o = record { virt = buffer.virt + o * 4096; phys = buffer.phys + o * 4096; size = 4096 }

pub slice-part :
    (buffer : Dma) (o : ℕ)
    → IsMapped buffer
    → (o + 1) * 4096 ≤ buffer.size
    → slice buffer (record { start = u64 (o * bytes); stop = u64 (u64 (o + 1) * bytes) })
      ≡ ok (part buffer o)
unfolding slice
slice-part buffer o m fits = ground (arith, m.virt_fits, m.phys_fits)

-- It is one chunk.
abbrev pub whole : Dma → DmaChunk
whole d = record { phys_addr = u64 (d.phys + 0); ptr = u64 (d.virt + 0); len = 4096 }

collect-part :
    (buffer : Dma) (o : ℕ)
    → collect 1 (suc 4096) (chunks (part buffer o) 8192) ≡ some (whole (part buffer o) ∷ [])
unfolding collect next
collect-part buffer o = refl

module _ (ctl : Controller) (id : ℕ) (sq : SubmissionQueue) (cq : CompletionQueue)
    (limit depth fuel latencies : ℕ) (serves : Serves ctl sq cq limit depth fuel)
    (set : Setting sq cq limit depth) where
  abbrev at_spot : Spot → Load
  at_spot s = load_at id sq cq latencies s

  -- The spot behind a submission.
  abbrev pub one_more : NvmeCommand → ℕ → Spot → Spot
  one_more command elapsed s = record s {
    n = s.n + 1;
    entries = Slots.update s.entries (s.n % sq.len) command;
    log = (sq.doorbell, u32 ((s.n + 1) % sq.len)) ∷ s.log;
    total = s.total + elapsed;
  }

  pub more-Consistent :
      (command : NvmeCommand) (elapsed : ℕ) (s : Spot)
      → Consistent sq limit depth s
      → s.n < limit
      → s.n < s.p + depth
      → Consistent sq limit depth (one_more command elapsed s)
  more-Consistent command elapsed s c lt room = ground (arith, c.taken, c.read, c.rung)

  -- The queue has a free slot.
  accepted :
      (command : NvmeCommand) (s : Spot)
      → Consistent sq limit depth s
      → s.n < s.p + depth
      → submit_checked command (at_spot s).qpair.sub_queue
        ≡ ok (
          some ((s.n + 1) % sq.len),
          record sq {
            entries = Slots.update s.entries (s.n % sq.len) command;
            head = s.f % sq.len;
            tail = (s.n + 1) % sq.len;
          },
        )
  unfolding submit_checked submit is_full
  accepted command s c room = ground (
    arith,
    slot_step sq.len s.n,
    mod-lt s.n {m = sq.len},
    set.start.positive,
    set.start.bounded,
    set.same_len,
    set.slots,
    c.taken,
    c.read,
    slot-ne sq.len s.f (s.n + 1),
  )

  abbrev pub command_at : Dma → ℕ → Bool → Spot → NvmeCommand
  command_at buffer lba write s =
      chunk_command id (s.n % sq.len) lba write (whole (part buffer (s.n - s.p)))

  sent :
      (buffer : Dma) (lba : ℕ) (write : Bool) (s : Spot)
      → Consistent sq limit depth s
      → s.n < s.p + depth
      → submit_io (part buffer (s.n - s.p)) lba write (at_spot s).qpair (at_spot s).host
        ≡ ok (
          1,
          (at_spot (one_more (command_at buffer lba write s) 0 s)).qpair,
          (at_spot (one_more (command_at buffer lba write s) 0 s)).host,
        )
  unfolding submit_chunks
  sent buffer lba write s c room =
      submit_io-collected (part buffer (s.n - s.p)) lba write (at_spot s).qpair (at_spot s).host
        (collect-part buffer (s.n - s.p))
      ∙ rw (accepted (command_at buffer lba write s) s c room) refl

  pub submit_part_lem :
      (buffer : Dma) (lba : ℕ) (write : Bool) (s : Spot)
      → IsMapped buffer
      → depth * 4096 ≤ buffer.size
      → Consistent sq limit depth s
      → s.n < s.p + depth
      → submit_part buffer lba write (at_spot s) ≡ (
        ok 1,
        record (at_spot s) {
          qpair = (at_spot (one_more (command_at buffer lba write s) 0 s)).qpair;
          host = (at_spot (one_more (command_at buffer lba write s) 0 s)).host;
        },
      )
  submit_part_lem buffer lba write s mapped fits c room =
      let mine : (s.n - s.p + 1) * 4096 ≤ buffer.size = omega (arith, room, c.taken, c.read) in
      rw (slice-part buffer (s.n - s.p) mapped mine) (
        on_pair-ok (submit_io (part buffer (s.n - s.p)) lba write) (at_spot s)
          (sent buffer lba write s c room))
