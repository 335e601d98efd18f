-- ===== src/Device/Admin.antt =====
-- Admin commands and I/O queue pairs of `NvmeDevice`.
use vroom.Common.{ℕ, ◌+◌, leb, ◌==◌, if◌then◌else◌}
use vroom.Common.Words.{u16, u32, u64, sub_u64}
use vroom.Common.Outcome.{ok, err, panic, spin, vroom_error, assert}
use vroom.Memory.Dma.{Dma}
use vroom.Mapping.{Mapping}
use vroom.Command
use vroom.Command.{NvmeCommand}
use vroom.Queues.Entry.{NvmeCompletion}
use vroom.Queues.Submission
use vroom.Queues.Submission.{SubmissionQueue, submit}
use vroom.Queues.Completion
use vroom.Queues.Completion.{CompletionQueue, Completed, complete_spin}
use vroom.Host.{Controller, view}
use vroom.Pair.{NvmeQueuePair, status_of}
use vroom.Device.State.{Action, pure, raise, lift, gets, modify, ◌>>=◌, ◌>>◌}
use vroom.Device.Registers.{pair_offset, sq_tail, cq_head, write_reg_idx}

module _ {W : Type 0} where
  -- `self.admin_sq.submit`, `self.admin_cq.complete_spin`
  abbrev pub submit_admin : NvmeCommand → Action W ℕ
  submit_admin entry s = elim (submit entry s.dev.admin_sq) [
    | ok (tail, q) ↦ (ok tail, record s { dev = record (s.dev) { admin_sq = q } })
    | err e ↦ (err e, s)
    | panic ↦ (panic, s)
    | spin ↦ (spin, s)
  ]

  abbrev pub spin_admin : Controller → ℕ → Action W Completed
  spin_admin ctl fuel s =
      let q = s.dev.admin_cq in
      elim (complete_spin (view ctl s.host q.commands.virt) fuel s.host.clock q) [
        | ok (c, q', t) ↦ (
          ok c,
          record s { dev = record (s.dev) { admin_cq = q' }; host = record (s.host) { clock = t } },
        )
        | err e ↦ (err e, s)
        | panic ↦ (panic, s)
        | spin ↦ (spin, s)
      ]

module _ (ctl : Controller) (fuel : ℕ) where
  -- The command is built from the tail as its id and the address of the buffer.
  unfoldable pub submit_and_complete_admin :
      {W : Type 0} → (ℕ → ℕ → NvmeCommand) → Action W NvmeCompletion
  submit_and_complete_admin cmd_init = do
    cid ← gets (λ d. d.admin_sq.tail)
    phys ← gets (λ d. d.buffer.phys)
    tail ← submit_admin (cmd_init (u16 cid) phys)
    write_reg_idx sq_tail 0 (u32 tail)
    c ← spin_admin ctl fuel
    write_reg_idx cq_head 0 (u32 c.0)
    if status_of c.1 == 0
        then pure c.1
        else raise (vroom_error "Requesting i/o completion queue failed")

  module _ (m : Mapping) (fresh_memory : Dma → ℕ → NvmeCommand) where
    open m use {World, allocate, deallocate}

    abbrev pub new_cq : ℕ → ℕ → Action World CompletionQueue
    new_cq len dbl s = let (r, w) = Completion.new m len dbl s.world in (r, record s { world = w })

    abbrev pub new_sq : ℕ → ℕ → Action World SubmissionQueue
    new_sq len dbl s =
        let (r, w) = Submission.new m fresh_memory len dbl s.world in (r, record s { world = w })

    abbrev pub free : Dma → Action World (Unit {0})
    free dma s = let (r, w) = deallocate dma s.world in (r, record s { world = w })

    unfoldable pub create_io_queue_pair : ℕ → Action World NvmeQueuePair
    create_io_queue_pair len = do
      d ← gets (λ d. d)
      lift (assert (leb (pair_offset d 1) (sub_u64 d.len 4)))
      comp_queue ← new_cq len (u64 (d.addr + pair_offset d 1))
      submit_and_complete_admin λ c_id _.
          Command.create_io_completion_queue c_id d.q_id (Completion.get_addr comp_queue)
            (u16 (sub_u64 len 1))
      sub_queue ← new_sq len (u64 (d.addr + pair_offset d 0))
      submit_and_complete_admin λ c_id _.
          Command.create_io_submission_queue c_id d.q_id (Submission.get_addr sub_queue)
            (u16 (sub_u64 len 1)) d.q_id
      modify λ d'. record d' { q_id = u16 (d'.q_id + 1) }
      pure (record { id = d.q_id; sub_queue = sub_queue; comp_queue = comp_queue })

    unfoldable pub delete_io_queue_pair : NvmeQueuePair → Action World (Unit {0})
    delete_io_queue_pair qpair = do
      submit_and_complete_admin λ c_id _. Command.delete_io_submission_queue c_id qpair.id
      submit_and_complete_admin λ c_id _. Command.delete_io_completion_queue c_id qpair.id
      free qpair.sub_queue.commands
      free qpair.comp_queue.commands
