-- ===== src/Device/Copied/Batches.antt =====
-- The loop of `batched_write` and `batched_read` over the requests of one batch.
use native.Mathlib.Decide.{dec_lt}
use mathlib.Core.List.{append-nil, append_assoc}
use vroom.Common.{
  ℕ, zero, suc, ◌+◌, ◌-◌, ◌*◌, ◌%◌, ◌^◌, ◌≤◌, ◌<◌, ◌≡◌, refl, sym, ◌∙◌, ap, Bool, Option, none,
  some, List, [], ◌∷◌, ◌++◌, min, arith, lt→ltb,
}
use vroom.Common.Words.{u32, u64}
use vroom.Common.Outcome.{Outcome, ok, err, panic, spin}
use vroom.Command.{NvmeCommand}
use vroom.Queues.Submission.{SubmissionQueue, push, submit_checked}
use vroom.Queues.Submission.Ring.{IsValid, outstanding, outstanding-push, push-IsValid}
use vroom.Queues.Submission.Fifo.{contents, contents-push, submit_checked-none, submit_checked-some}
use vroom.Host.{store}
use vroom.Pair.Submit.{rings, free}
use vroom.Device.Io.Request.{le→leb}
use vroom.Device.State.{NvmeDevice, NvmeNamespace, Machine, modify, pure, ◌>>◌, bind-ok}
use vroom.Device.Registers.{sq_tail, doorbell, write_reg_idx}
use vroom.Device.Io.{count_submission}
use vroom.Device.Copied.{batch_command, batch_pointer, try_submit, submit_io, submit_batch}

abbrev pub with_tail : ℕ → NvmeDevice → NvmeDevice
with_tail t d = record d { io_sq = record (d.io_sq) { tail = t } }

-- `n` requests from the `i`-th on: consecutive slots, parts of the buffer, and blocks.
abbrev pub requests : (ℕ → ℕ → ℕ → NvmeCommand) → ℕ → ℕ → ℕ → ℕ → ℕ → ℕ → List NvmeCommand
requests command blocks len zero tail i lba = []
requests command blocks len (suc n) tail i lba =
    command tail i lba ∷ requests command blocks len n ((tail + 1) % len) (i + 1) (lba + blocks)

tried :
    {W : Type 0} (c : NvmeCommand) (s : Machine W) {r : Option ℕ} {q : SubmissionQueue}
    → submit_checked c s.dev.io_sq ≡ ok (r, q)
    → try_submit c s ≡ (ok r, record s { dev = record (s.dev) { io_sq = q } })
tried {W} c s e =
    ap
      (λ o. elim o as (λ x. Outcome (Option ℕ) × Machine W) [
        | ok (r, q) ↦ (ok r, record s { dev = record (s.dev) { io_sq = q } })
        | err e ↦ (err e, s)
        | panic ↦ (panic, s)
        | spin ↦ (spin, s)
      ])
      e

module _ (ns : NvmeNamespace) (batch_size blocks : ℕ) (write : Bool) where
  -- The command for the part `i` of the buffer.
  abbrev pub command : NvmeDevice → ℕ → ℕ → ℕ → NvmeCommand
  command d tail i lba =
      batch_command (with_tail tail d) ns (u64 (d.buffer.phys + u64 (i * batch_size))) blocks lba
        write

  module _ {W : Type 0} where
    -- What a run leaves if `m` requests were submitted, the first for part `i` at `lba`.
    pub record Batched (i lba m : ℕ) (s s' : Machine W) : Type 0 where
      pub valid : IsValid s'.dev.io_sq
      pub queued :
          contents s'.dev.io_sq
          ≡ contents s.dev.io_sq
            ++ requests (command s.dev) blocks s.dev.io_sq.len m s.dev.io_sq.tail i lba
      pub rung :
          s'.host.log
          ≡ rings (doorbell s.dev sq_tail 1) s.dev.io_sq.len s.dev.io_sq.tail m s.host.log
      pub same_clock : s'.host.clock ≡ s.host.clock
      pub same_completions : s'.dev.io_cq ≡ s.dev.io_cq
      pub same_buffer : s'.dev.copied ≡ s.dev.copied
      pub same_addr : s'.dev.addr ≡ s.dev.addr
      pub same_stride : s'.dev.dstrd ≡ s.dev.dstrd

    abbrev entry : ℕ → ℕ → Machine W → NvmeCommand
    entry i lba s = command s.dev s.dev.io_sq.tail i lba

    abbrev queued_one : ℕ → ℕ → Machine W → Machine W
    queued_one i lba s = record s {
      dev = record (s.dev) { io_sq = push (entry i lba s) s.dev.io_sq };
    }

    abbrev next : ℕ → ℕ → Machine W → Machine W
    next i lba s = record s {
      dev = count_submission (queued_one i lba s).dev;
      host = store (doorbell s.dev sq_tail 1) (u32 (push (entry i lba s) s.dev.io_sq).tail) s.host;
    }

    module _ (some_blocks : 0 < blocks) (few_blocks : blocks ≤ 0x1_0000) where
      submit_io-some :
          (i lba : ℕ) (s : Machine W)
          → IsValid s.dev.io_sq
          → outstanding s.dev.io_sq < s.dev.io_sq.len - 1
          → submit_io ns (u64 (s.dev.buffer.phys + u64 (i * batch_size))) blocks lba write s
            ≡ (ok (some (push (entry i lba s) s.dev.io_sq).tail), queued_one i lba s)
      unfolding submit_io
      submit_io-some i lba s v room =
          rw (lt→ltb 0 blocks some_blocks, le→leb blocks 0x1_0000 few_blocks)
            (tried (entry i lba s) s (submit_checked-some (entry i lba s) v room))

      submit_io-none :
          (i lba : ℕ) (s : Machine W)
          → IsValid s.dev.io_sq
          → ¬ (outstanding s.dev.io_sq < s.dev.io_sq.len - 1)
          → submit_io ns (u64 (s.dev.buffer.phys + u64 (i * batch_size))) blocks lba write s
            ≡ (ok none, s)
      unfolding submit_io
      submit_io-none i lba s v full =
          rw (lt→ltb 0 blocks some_blocks, le→leb blocks 0x1_0000 few_blocks)
            (tried (entry i lba s) s (submit_checked-none (entry i lba s) v full))

      step_some :
          (n i lba : ℕ) (s : Machine W)
          → IsValid s.dev.io_sq
          → outstanding s.dev.io_sq < s.dev.io_sq.len - 1
          → submit_batch ns batch_size blocks write (suc n) i lba s
            ≡ submit_batch ns batch_size blocks write n (i + 1) (u64 (lba + blocks)) (next i lba s)
      unfolding submit_batch write_reg_idx doorbell
      step_some n i lba s v room =
          bind-ok (submit_io ns (u64 (s.dev.buffer.phys + u64 (i * batch_size))) blocks lba write)
            (λ r.
              elim r [
                | none ↦ pure tt
                | some tail ↦ (modify count_submission >> write_reg_idx sq_tail 1 (u32 tail))
              ]
              >> submit_batch ns batch_size blocks write n (i + 1) (u64 (lba + blocks)))
            (submit_io-some i lba s v room)

      step_none :
          (n i lba : ℕ) (s : Machine W)
          → IsValid s.dev.io_sq
          → ¬ (outstanding s.dev.io_sq < s.dev.io_sq.len - 1)
          → submit_batch ns batch_size blocks write (suc n) i lba s
            ≡ submit_batch ns batch_size blocks write n (i + 1) (u64 (lba + blocks)) s
      unfolding submit_batch
      step_none n i lba s v full =
          bind-ok (submit_io ns (u64 (s.dev.buffer.phys + u64 (i * batch_size))) blocks lba write)
            (λ r.
              elim r [
                | none ↦ pure tt
                | some tail ↦ (modify count_submission >> write_reg_idx sq_tail 1 (u32 tail))
              ]
              >> submit_batch ns batch_size blocks write n (i + 1) (u64 (lba + blocks)))
            (submit_io-none i lba s v full)

      all_dropped :
          (n i lba : ℕ) (s : Machine W)
          → IsValid s.dev.io_sq
          → ¬ (outstanding s.dev.io_sq < s.dev.io_sq.len - 1)
          → lba + n * blocks < 2 ^ 64
          → submit_batch ns batch_size blocks write n i lba s ≡ (ok (lba + n * blocks), s)
      unfolding submit_batch
      all_dropped zero i lba s v full fits = ap (λ x. (ok x, s)) (omega arith)
      all_dropped (suc n) i lba s v full fits =
          let once : u64 (lba + blocks) ≡ lba + blocks = omega arith in
          step_none n i lba s v full
          ∙ all_dropped n (i + 1) (u64 (lba + blocks)) s v full (omega arith)
          ∙ ap (λ x. (ok x, s)) (omega arith)

      unchanged : (i lba m : ℕ) (s : Machine W) → IsValid s.dev.io_sq → m ≡ 0 → Batched i lba m s s
      unchanged i lba m s v e = rw e (record {
        valid = v;
        queued = sym (append-nil (contents s.dev.io_sq));
        rung = refl;
        same_clock = refl;
        same_completions = refl;
        same_buffer = refl;
        same_addr = refl;
        same_stride = refl;
      })

      one_more :
          (i lba m : ℕ) (s s' : Machine W)
          → IsValid s.dev.io_sq
          → outstanding s.dev.io_sq < s.dev.io_sq.len - 1
          → Batched (i + 1) (lba + blocks) m (next i lba s) s'
          → Batched i lba (suc m) s s'
      unfolding doorbell batch_command batch_pointer
      one_more i lba m s s' v room b = record {
        valid = b.valid;
        queued =
            b.queued
            ∙ ap
                (λ l.
                  l
                  ++ requests (command s.dev) blocks s.dev.io_sq.len m
                      ((s.dev.io_sq.tail + 1) % s.dev.io_sq.len) (i + 1) (lba + blocks))
                (contents-push (entry i lba s) v room)
            ∙ append_assoc (contents s.dev.io_sq) (entry i lba s ∷ []) _;
        rung = b.rung;
        same_clock = b.same_clock;
        same_completions = b.same_completions;
        same_buffer = b.same_buffer;
        same_addr = b.same_addr;
        same_stride = b.same_stride;
      }

      pub submit_batch_lem :
          (n i lba : ℕ) (s : Machine W)
          → IsValid s.dev.io_sq
          → lba + n * blocks < 2 ^ 64
          → (s' : Machine W) × (submit_batch ns batch_size blocks write n i lba s
              ≡ (ok (lba + n * blocks), s'))
            × Batched i lba (min n (free s.dev.io_sq)) s s'
      unfolding submit_batch
      submit_batch_lem zero i lba s v fits =
          (s, ap (λ x. (ok x, s)) (omega arith), unchanged i lba _ s v (omega arith))
      submit_batch_lem (suc n) i lba s v fits =
          elim (dec_lt (outstanding s.dev.io_sq) (s.dev.io_sq.len - 1)) [
            | yes room ↦
                let (s', ran, b) =
                  submit_batch_lem n (i + 1) (lba + blocks) (next i lba s)
                    (push-IsValid v (entry i lba s)) (omega arith) in
                let grown = outstanding-push v (entry i lba s) room in
                let more : min (suc n) (free s.dev.io_sq)
                    ≡ suc (min n (free (next i lba s).dev.io_sq)) =
                  omega (arith, grown) in
                let once : u64 (lba + blocks) ≡ lba + blocks = omega arith in
                (
                  s',
                  step_some n i lba s v room
                      ∙ ap (λ l. submit_batch ns batch_size blocks write n (i + 1) l (next i lba s))
                          once
                      ∙ ran
                      ∙ ap (λ x. (ok x, s')) (omega arith),
                  rw more (one_more i lba _ s s' v room b),
                )
            | no full ↦
                (s, all_dropped (suc n) i lba s v full fits, unchanged i lba _ s v (omega arith))
          ]
