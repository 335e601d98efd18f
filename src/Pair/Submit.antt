-- ===== src/Pair/Submit.antt =====
-- `submit_io` against the bounded queue of commands.
use native.Mathlib.Nat.{add-zero}
use vroom.Common.{
  ℕ, zero, suc, ◌+◌, ◌-◌, ◌%◌, ◌<◌, min, ◌≡◌, refl, sym, ◌∙◌, ap, Bool, some, List, [], ◌∷◌, ◌++◌,
  length, take, arith,
}
use native.Mathlib.Decide.{dec_lt}
use mathlib.Core.List.{append-nil, append_assoc}
use vroom.Common.Words.{u32, u64}
use vroom.Common.Outcome.{Outcome, ok}
use vroom.Memory.Dma.{Dma}
use vroom.Memory.Chunks.{DmaChunk, chunks, collect}
use vroom.Command.{NvmeCommand}
use vroom.Queues.Submission.{SubmissionQueue, push}
use vroom.Queues.Submission.Ring.{IsValid, outstanding, outstanding-push, push-IsValid}
use vroom.Queues.Submission.Fifo.{contents, contents-push, submit_checked-none, submit_checked-some}
use vroom.Host.{Host, store}
use vroom.Memory.Dma.Views.{IsMapped}
use vroom.Memory.Chunks.Tiling.{Tiles, collect-Tiles}
use vroom.Pair.{NvmeQueuePair, chunk_bytes, block_count, chunk_command, submit_chunks, submit_io}

-- The commands for the chunks `cs` on a queue of `len` slots from the tail `tail` on: consecutive
-- slots, consecutive blocks.
abbrev pub requests : ℕ → ℕ → ℕ → ℕ → Bool → List DmaChunk → List NvmeCommand
requests id len tail lba write [] = []
requests id len tail lba write (c ∷ cs) =
    chunk_command id tail lba write c
    ∷ requests id len ((tail + 1) % len) (u64 (lba + block_count c.len)) write cs

-- The doorbell writes of `n` submissions from the tail `tail` on: each new tail, the newest first.
abbrev pub rings : ℕ → ℕ → ℕ → ℕ → List (ℕ × ℕ) → List (ℕ × ℕ)
rings doorbell len tail zero log = log
rings doorbell len tail (suc n) log =
    let tail' = (tail + 1) % len in rings doorbell len tail' n ((doorbell, u32 tail') ∷ log)

abbrev pub free : SubmissionQueue → ℕ
free q = q.len - 1 - outstanding q

-- What a run of `submit_chunks` over `cs` leaves: `n` of the commands were submitted.
pub record Submitted (cs : List DmaChunk) (lba : ℕ) (write : Bool) (qp : NvmeQueuePair) (h : Host)
    (n : ℕ) (qp' : NvmeQueuePair) (h' : Host) : Type 0 where
  pub valid : IsValid qp'.sub_queue
  pub queued :
      contents qp'.sub_queue
      ≡ contents qp.sub_queue
        ++ take n (requests qp.id qp.sub_queue.len qp.sub_queue.tail lba write cs)
  pub rung : h'.log ≡ rings qp.sub_queue.doorbell qp.sub_queue.len qp.sub_queue.tail n h.log
  pub same_id : qp'.id ≡ qp.id
  pub same_completions : qp'.comp_queue ≡ qp.comp_queue
  pub same_head : qp'.sub_queue.head ≡ qp.sub_queue.head
  pub same_len : qp'.sub_queue.len ≡ qp.sub_queue.len
  pub same_doorbell : qp'.sub_queue.doorbell ≡ qp.sub_queue.doorbell
  pub same_memory : qp'.sub_queue.commands ≡ qp.sub_queue.commands

-- A run that ends as `o`, with `n` of the commands submitted.
abbrev Done :
    List DmaChunk
    → ℕ
    → Bool
    → ℕ
    → NvmeQueuePair
    → Host
    → Outcome (ℕ × NvmeQueuePair × Host)
    → ℕ
    → Type 0
Done cs lba write reqs qp h o n =
    (qp' : NvmeQueuePair) × (h' : Host) × (o ≡ ok (reqs + n, qp', h'))
    × Submitted cs lba write qp h n qp' h'

module _ (write : Bool) (qp : NvmeQueuePair) (h : Host) (v : IsValid qp.sub_queue) where
  stop :
      (cs : List DmaChunk) (lba reqs n : ℕ)
      → n ≡ 0
      → Done cs lba write reqs qp h (ok (reqs, qp, h)) n
  stop cs lba reqs n e = rw e (
    qp,
    h,
    rw add-zero refl,
    record {
      valid = v;
      queued = sym (append-nil (contents qp.sub_queue));
      rung = refl;
      same_id = refl;
      same_completions = refl;
      same_head = refl;
      same_len = refl;
      same_doorbell = refl;
      same_memory = refl;
    },
  )

  abbrev command : ℕ → DmaChunk → NvmeCommand
  command lba c = chunk_command qp.id qp.sub_queue.tail lba write c

  -- The pair and the host behind the submission of one chunk.
  abbrev next_pair : ℕ → DmaChunk → NvmeQueuePair
  next_pair lba c = record qp { sub_queue = push (command lba c) qp.sub_queue }

  abbrev next_host : Host
  next_host = store qp.sub_queue.doorbell (u32 ((qp.sub_queue.tail + 1) % qp.sub_queue.len)) h

  step :
      (c : DmaChunk) (cs : List DmaChunk) (lba reqs n m : ℕ)
      (o : Outcome (ℕ × NvmeQueuePair × Host))
      → outstanding qp.sub_queue < qp.sub_queue.len - 1
      → m ≡ suc n
      → Done cs (u64 (lba + block_count c.len)) write (reqs + 1) (next_pair lba c) next_host o n
      → Done (c ∷ cs) lba write reqs qp h o m
  step c cs lba reqs n m o room e (qp', h', ended, s) =
      let count : reqs + 1 + n ≡ reqs + suc n = omega arith in
      rw e (
        qp',
        h',
        rw count at ended,
        record {
          valid = s.valid;
          queued =
              s.queued
              ∙ ap
                  (λ l.
                    l
                    ++ take n (
                        requests qp.id qp.sub_queue.len ((qp.sub_queue.tail + 1) % qp.sub_queue.len)
                          (u64 (lba + block_count c.len)) write cs))
                  (contents-push (command lba c) v room)
              ∙ append_assoc (contents qp.sub_queue) (command lba c ∷ []) _;
          rung = s.rung;
          same_id = s.same_id;
          same_completions = s.same_completions;
          same_head = s.same_head;
          same_len = s.same_len;
          same_doorbell = s.same_doorbell;
          same_memory = s.same_memory;
        },
      )

-- On a valid queue `submit_chunks` submits the chunks in their order until they or the free slots
-- run out.
submit_chunks_lem :
    (cs : List DmaChunk) (lba : ℕ) (write : Bool) (reqs : ℕ) (qp : NvmeQueuePair) (h : Host)
    → IsValid qp.sub_queue
    → Done cs lba write reqs qp h
        (submit_chunks cs lba write reqs qp h)
        (min (length cs) (free qp.sub_queue))
unfolding submit_chunks
submit_chunks_lem [] lba write reqs qp h v = stop write qp h v [] lba reqs _ (omega arith)
submit_chunks_lem (c ∷ cs) lba write reqs qp h v =
    elim (dec_lt (outstanding qp.sub_queue) (qp.sub_queue.len - 1)) [
      | yes room ↦
          let grown = outstanding-push v (command write qp h v lba c) room in
          rw (submit_checked-some (command write qp h v lba c) v room) (
            step write qp h v c cs lba reqs _ _ _ room (omega (arith, grown)) (
              submit_chunks_lem cs (u64 (lba + block_count c.len)) write (reqs + 1)
                (next_pair write qp h v lba c) (next_host write qp h v)
                (push-IsValid v (command write qp h v lba c))))
      | no full ↦
          rw (submit_checked-none (command write qp h v lba c) v full)
            (stop write qp h v (c ∷ cs) lba reqs _ (omega arith))
    ]

pub submit_io-collected :
    (d : Dma) (lba : ℕ) (write : Bool) (qp : NvmeQueuePair) (h : Host) {cs : List DmaChunk}
    → collect 1 (suc d.size) (chunks d chunk_bytes) ≡ some cs
    → submit_io d lba write qp h ≡ submit_chunks cs lba write 0 qp h
unfolding submit_io
submit_io-collected d lba write qp h e = rw (e, submit_io) refl

-- Submitting a mapped buffer on a valid queue ends, and never panics. The buffer is cut into chunks
-- of at most 8192 bytes that tile it. As many of their commands as the queue has free slots, in
-- order, at consecutive slots and consecutive blocks, are put behind the commands that were
-- outstanding; the number is returned; the doorbell is rung once for each with the new tail. The
-- identifier, the completion queue, and of the submission queue the head, the length, the doorbell
-- and the place of its memory stay as they were.
pub submit_io_lem :
    (d : Dma) (lba : ℕ) (write : Bool) (qp : NvmeQueuePair) (h : Host)
    → IsMapped d
    → IsValid qp.sub_queue
    → (cs : List DmaChunk) × (qp' : NvmeQueuePair) × (h' : Host) × Tiles d chunk_bytes 0 cs
      × (submit_io d lba write qp h ≡ ok (min (length cs) (free qp.sub_queue), qp', h'))
      × Submitted cs lba write qp h (min (length cs) (free qp.sub_queue)) qp' h'
submit_io_lem d lba write qp h mapped v =
    let (cs, collected, tiles) = collect-Tiles d chunk_bytes mapped (omega arith) in
    let (qp', h', ended, s) = submit_chunks_lem cs lba write 0 qp h v in
    let count : 0 + min (length cs) (free qp.sub_queue) ≡ min (length cs) (free qp.sub_queue) =
      omega arith in
    (cs, qp', h', tiles, submit_io-collected d lba write qp h collected ∙ (rw count at ended), s)
