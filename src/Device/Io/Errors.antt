-- ===== src/Device/Io/Errors.antt =====
-- The synchronous transfers never end in an `Err`.
use vroom.Common.{
  ℕ, zero, suc, ◌+◌, ◌*◌, ◌/◌, Bool, true, false, ◌≡◌, refl, Option, none, some, List, [], ◌∷◌,
  arith,
}
use vroom.Common.Words.{u64}
use vroom.Common.Outcome
use vroom.Common.Outcome.{Outcome, ok, err, panic, spin, Error, assert}
use vroom.Memory.Dma.{Dma}
use vroom.Memory.Chunks.{DmaChunk, collect, chunks}
use vroom.Command.{NvmeCommand}
use vroom.Queues.Submission.{SubmissionQueue, submit}
use vroom.Queues.Completion.{
  Completed, CompletionQueue, CqMemory, complete, complete_spin, complete_n, skip,
}
use vroom.Host.{Controller, view}
use vroom.Pair.{block_count}
use vroom.Device.State.{Machine, Action, lift}
use vroom.Device.Registers.{write_reg_idx}
use vroom.Device.Io.{
  submit_one, take_n, complete_io, namespace_io, transfer_chunks, transfer, fill_list,
  transfer_lists, write_prp,
}

-- An `Err`.
abbrev pub is_err : {A : Type 0} → Outcome A → Bool
is_err (err e) = true
is_err r = false

-- An action that never ends in an `Err`.
abbrev Quiet : {W A : Type 0} → Action W A → Type 0
Quiet {W} m = (s : Machine W) → is_err (m s).0 ≡ false

complete_quiet : (mem : CqMemory) (q : CompletionQueue) → is_err (complete mem q) ≡ false
unfolding complete
complete_quiet mem q = ground arith

submit_quiet : (c : NvmeCommand) (q : SubmissionQueue) → is_err (submit c q) ≡ false
unfolding submit
submit_quiet c q = ground arith

complete_spin_quiet :
    (v : ℕ → CqMemory) (fuel t : ℕ) (q : CompletionQueue)
    → is_err (complete_spin v fuel t q) ≡ false
unfolding complete_spin
complete_spin_quiet v zero t q = refl
complete_spin_quiet v (suc fuel) t q =
    goes (complete (v t) q) (complete_quiet (v t) q) (complete_spin_quiet v fuel (t + 1))
  where
    goes :
        (r : Outcome (Option Completed × CompletionQueue))
        → is_err r ≡ false
        → ((q' : CompletionQueue) → is_err (complete_spin v fuel (t + 1) q') ≡ false)
        → is_err (
            Outcome.◌>>=◌ r λ x. elim x.0 [
              | none ↦ complete_spin v fuel (t + 1) x.1
              | some c ↦ ok (c, x.1, t + 1)
            ])
          ≡ false
    goes (ok (none, q')) h rest = rest q'
    goes (ok (some c, q')) h rest = refl
    goes (err e) h rest = h
    goes panic h rest = refl
    goes spin h rest = refl

complete_n_quiet :
    (v : ℕ → CqMemory) (fuel t n : ℕ) (q : CompletionQueue)
    → is_err (complete_n v fuel t n q) ≡ false
unfolding complete_n
complete_n_quiet v fuel t n q = ground (arith, complete_spin_quiet v fuel t (skip n q))

module _ {W : Type 0} where
  submit_one-Quiet : (c : NvmeCommand) → Quiet {W = W} (submit_one c)
  submit_one-Quiet c s = goes (submit c s.dev.io_sq) (submit_quiet c s.dev.io_sq)
    where
      goes :
          (r : Outcome (ℕ × SubmissionQueue))
          → is_err r ≡ false
          → is_err
              (elim r as (λ x. Outcome ℕ × Machine W) [
                | ok (tail, q) ↦ (ok tail, record s { dev = record (s.dev) { io_sq = q } })
                | err e ↦ (err e, s)
                | panic ↦ (panic, s)
                | spin ↦ (spin, s)
              ]).0
            ≡ false
      goes (ok a) h = refl
      goes (err e) h = h
      goes panic h = refl
      goes spin h = refl

module _ (ctl : Controller) (fuel : ℕ) {W : Type 0} where
  take_n-Quiet : (n : ℕ) → Quiet {W = W} (take_n ctl fuel n)
  take_n-Quiet n s =
      goes (complete_n v fuel s.host.clock n q) (complete_n_quiet v fuel s.host.clock n q)
    where
      q : CompletionQueue
      q = s.dev.io_cq

      v : ℕ → CqMemory
      v = view ctl s.host q.commands.virt

      goes :
          (r : Outcome (Completed × CompletionQueue × ℕ))
          → is_err r ≡ false
          → is_err
              (elim r as (λ x. Outcome Completed × Machine W) [
                | ok (c, q', t) ↦ (
                  ok c,
                  record s {
                    dev = record (s.dev) { io_cq = q' };
                    host = record (s.host) { clock = t };
                  },
                )
                | err e ↦ (err e, s)
                | panic ↦ (panic, s)
                | spin ↦ (spin, s)
              ]).0
            ≡ false
      goes (ok a) h = refl
      goes (err e) h = h
      goes panic h = refl
      goes spin h = refl

  complete_io-Quiet : (n : ℕ) → Quiet {W = W} (complete_io ctl fuel n)
  unfolding complete_io write_reg_idx
  complete_io-Quiet n s = grind (arith, take_n-Quiet n s)

  namespace_io-Quiet :
      (ns_id blocks lba addr : ℕ) (write : Bool)
      → Quiet {W = W} (namespace_io ctl fuel ns_id blocks lba addr write)
  unfolding namespace_io write_reg_idx submit
  namespace_io-Quiet ns_id blocks lba addr write s = grind (arith, complete_io-Quiet 1)

  transfer_chunks-Quiet :
      (cs : List DmaChunk) (lba : ℕ) (write : Bool)
      → Quiet {W = W} (transfer_chunks ctl fuel cs lba write)
  unfolding transfer_chunks
  transfer_chunks-Quiet [] lba write s = refl
  transfer_chunks-Quiet (c ∷ cs) lba write s =
      let rest = transfer_chunks-Quiet cs (u64 (lba + block_count c.len)) write in
      grind (arith, namespace_io-Quiet 1 (block_count c.len) lba c.phys_addr write s, rest)

  fill_list-Quiet : (n i phys : ℕ) → Quiet {W = W} (fill_list ctl fuel n i phys)
  unfolding fill_list
  fill_list-Quiet zero i phys s = refl
  fill_list-Quiet (suc n) i phys s =
      let rest = fill_list-Quiet n (i + 1) phys in grind (arith, rest)

  transfer_lists-Quiet :
      (cs : List DmaChunk) (lba : ℕ) (write : Bool)
      → Quiet {W = W} (transfer_lists ctl fuel cs lba write)
  unfolding transfer_lists
  transfer_lists-Quiet [] lba write s = refl
  transfer_lists-Quiet (c ∷ cs) lba write s =
      let rest = transfer_lists-Quiet cs (u64 (lba + block_count c.len)) write in
      grind (
        arith,
        fill_list-Quiet (c.len / 4096) 0 c.phys_addr s,
        namespace_io-Quiet 1 (block_count c.len) lba c.phys_addr write,
        rest,
      )

  -- Neither `read`, `write` nor `write_prp` ever returns an `Err`, although their type has one.
  pub transfer_quiet :
      (d : Dma) (lba : ℕ) (write : Bool) (s : Machine W)
      → (is_err (transfer ctl fuel d lba write s).0 ≡ false)
        × (is_err (write_prp ctl fuel d lba write s).0 ≡ false)
  unfolding transfer write_prp
  transfer_quiet d lba write s = (
    elim (collect 1 (suc d.size) (chunks d (2 * 4096)))
        as (λ r.
          is_err
            ((elim r as (λ x. Action W (Unit {0})) [
              | none ↦ lift spin
              | some cs ↦ transfer_chunks ctl fuel cs lba write
            ])
              s).0
          ≡ false) [ none ↦ refl | some cs ↦ transfer_chunks-Quiet cs lba write s ],
    elim (collect 1 (suc d.size) (chunks d (128 * 4096)))
        as (λ r.
          is_err
            ((elim r as (λ x. Action W (Unit {0})) [
              | none ↦ lift spin
              | some cs ↦ transfer_lists ctl fuel cs lba write
            ])
              s).0
          ≡ false) [ none ↦ refl | some cs ↦ transfer_lists-Quiet cs lba write s ],
  )
