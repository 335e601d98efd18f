-- ===== src/Device/Sound/Rings.antt =====
-- The invariant through the calls of the device's rings.
use vroom.Common.{ℕ}
use vroom.Common.Keeps.{Gives}
use vroom.Common.Outcome.{Outcome, ok, err, panic, spin}
use vroom.Command.{NvmeCommand}
use vroom.Queues.Submission.{SubmissionQueue, submit, submit_checked}
use vroom.Queues.Completion.{CompletionQueue, complete_spin, complete_n}
use vroom.Queues.Bounds.{
  HasTail, HasHead, submit-HasTail, submit_checked-HasTail, complete_spin-HasHead,
  complete_n-HasHead,
}
use vroom.Host.{Controller, view}
use vroom.Device.State.{Machine}
use vroom.Device.Sound.{KeepsSound, Sound}
use vroom.Device.Admin.{submit_admin, spin_admin}
use vroom.Device.Io.{submit_one, take_n}
use vroom.Device.Copied.{try_submit}

module _ {W : Type 0} where
  abbrev with_admin : SubmissionQueue → CompletionQueue → ℕ → Machine W → Machine W
  with_admin sq cq t s = record s {
    dev = record (s.dev) { admin_sq = sq; admin_cq = cq };
    host = record (s.host) { clock = t };
  }

  abbrev with_io : SubmissionQueue → CompletionQueue → ℕ → Machine W → Machine W
  with_io sq cq t s = record s {
    dev = record (s.dev) { io_sq = sq; io_cq = cq };
    host = record (s.host) { clock = t };
  }

module _ {W : Type 0} {addr len dstrd : ℕ} where
  admin_Sound :
      (sq : SubmissionQueue) (cq : CompletionQueue) (t : ℕ) (s : Machine W)
      → Sound addr len dstrd s
      → HasTail sq
      → HasHead cq
      → Sound addr len dstrd (with_admin sq cq t s)
  admin_Sound sq cq t s p tail head = search

  io_Sound :
      (sq : SubmissionQueue) (cq : CompletionQueue) (t : ℕ) (s : Machine W)
      → Sound addr len dstrd s
      → HasTail sq
      → HasHead cq
      → Sound addr len dstrd (with_io sq cq t s)
  io_Sound sq cq t s p tail head = search

  -- What a call of a ring leaves, with or without a value.
  landed :
      {A B : Type 0} (s : Machine W) (Q : A → Type 0) (value : A → B) (next : A → Machine W)
      → Sound addr len dstrd s
      → ((a : A) → Q a → Sound addr len dstrd (next a))
      → (r : Outcome A) → Gives Q r
      → Sound addr len dstrd
          (elim r as (λ x. Outcome B × Machine W) [
            | ok a ↦ (ok (value a), next a)
            | err e ↦ (err e, s)
            | panic ↦ (panic, s)
            | spin ↦ (spin, s)
          ]).1
  landed s Q value next p keep (ok a) q = keep a q
  landed s Q value next p keep (err e) q = p
  landed s Q value next p keep panic q = p
  landed s Q value next p keep spin q = p

  pub submit_one-Sound : (c : NvmeCommand) → KeepsSound W addr len dstrd (submit_one c)
  submit_one-Sound c = record {
    holds = λ s p.
        landed s (λ x. HasTail x.1) (λ x. x.0) (λ x. with_io x.1 s.dev.io_cq s.host.clock s) p
          (λ x t. io_Sound x.1 s.dev.io_cq s.host.clock s p t p.io_head) (submit c s.dev.io_sq)
          (submit-HasTail c s.dev.io_sq p.io_tail);
  }

  pub submit_admin-Sound : (c : NvmeCommand) → KeepsSound W addr len dstrd (submit_admin c)
  submit_admin-Sound c = record {
    holds = λ s p.
        landed s (λ x. HasTail x.1) (λ x. x.0) (λ x. with_admin x.1 s.dev.admin_cq s.host.clock s) p
          (λ x t. admin_Sound x.1 s.dev.admin_cq s.host.clock s p t p.admin_head)
          (submit c s.dev.admin_sq) (submit-HasTail c s.dev.admin_sq p.admin_tail);
  }

  pub take_n-Sound :
      (ctl : Controller) (fuel n : ℕ) → KeepsSound W addr len dstrd (take_n ctl fuel n)
  take_n-Sound ctl fuel n = record {
    holds = λ s p.
        let v = view ctl s.host s.dev.io_cq.commands.virt in
        landed s (λ x. HasHead x.1) (λ x. x.0) (λ x. with_io s.dev.io_sq x.1 x.2 s) p
          (λ x h. io_Sound s.dev.io_sq x.1 x.2 s p p.io_tail h)
          (complete_n v fuel s.host.clock n s.dev.io_cq)
          (complete_n-HasHead v fuel s.host.clock n s.dev.io_cq p.io_head);
  }

  pub spin_admin-Sound :
      (ctl : Controller) (fuel : ℕ) → KeepsSound W addr len dstrd (spin_admin ctl fuel)
  spin_admin-Sound ctl fuel = record {
    holds = λ s p.
        let v = view ctl s.host s.dev.admin_cq.commands.virt in
        landed s (λ x. HasHead x.1) (λ x. x.0) (λ x. with_admin s.dev.admin_sq x.1 x.2 s) p
          (λ x h. admin_Sound s.dev.admin_sq x.1 x.2 s p p.admin_tail h)
          (complete_spin v fuel s.host.clock s.dev.admin_cq)
          (complete_spin-HasHead v fuel s.host.clock s.dev.admin_cq p.admin_head);
  }

  pub try_submit-Sound : (c : NvmeCommand) → KeepsSound W addr len dstrd (try_submit c)
  try_submit-Sound c = record {
    holds = λ s p.
        landed s (λ x. HasTail x.1) (λ x. x.0) (λ x. with_io x.1 s.dev.io_cq s.host.clock s) p
          (λ x t. io_Sound x.1 s.dev.io_cq s.host.clock s p t p.io_head)
          (submit_checked c s.dev.io_sq) (submit_checked-HasTail c s.dev.io_sq p.io_tail);
  }
