-- ===== src/Device/Sound/Admin.antt =====
-- The invariant through the admin commands and the initialisation.
use vroom.Common.{ℕ, zero, suc, ◌+◌, refl, Bool, true, false, Option, none, some, arith}
use vroom.Common.Words.{u16}
use vroom.Common.Outcome.{Outcome, ok, err, panic, spin}
use vroom.Common.Keeps.{Keeps-lift, Keeps-pure, Keeps-bind, keeps_rules}
use vroom.Command.{NvmeCommand}
use vroom.Host.{Controller}
use vroom.Device.State.{NvmeNamespace, Machine, Action, modify, pure, ◌>>=◌, ◌>>◌}
use vroom.Device.Registers.{
  sq_tail, cq_head, write_reg_idx, cc, csts, aqa, asq, acq, offset32, offset64, get_reg32,
}
use vroom.Device.Registers.{set_reg32, set_reg64}
use vroom.Device.Admin.{submit_and_complete_admin}
use vroom.Device.Identify.{
  ignore, insert, identify_controller, identify_namespace_list, identify_namespace,
  format_namespace,
}
use vroom.Queues.Submission
use vroom.Queues.Completion
use vroom.Device.Init.{admin_sizes, configured, wait, stop, setup, start, configure, page_list}
use vroom.Device.Sound.{
  Window, Sound, KeepsSound, gets-Sound, modify-Sound, write_reg_idx-Sound, get_reg32-Sound,
  get_reg64-Sound, set_reg32-Sound, set_reg64-Sound,
}
use vroom.Device.Sound.Rings.{submit_admin-Sound, spin_admin-Sound}

module _ {W : Type 0} {addr len dstrd : ℕ} (w : Window addr len dstrd) where
  tail_doorbell : (v : ℕ) → KeepsSound W addr len dstrd (write_reg_idx sq_tail 0 v)
  tail_doorbell v = write_reg_idx-Sound w sq_tail 0 v (omega arith)

  head_doorbell : (v : ℕ) → KeepsSound W addr len dstrd (write_reg_idx cq_head 0 v)
  head_doorbell v = write_reg_idx-Sound w cq_head 0 v (omega arith)

  pub submit_and_complete_admin-Sound :
      (ctl : Controller) (fuel : ℕ) (cmd_init : ℕ → ℕ → NvmeCommand)
      → KeepsSound W addr len dstrd (submit_and_complete_admin ctl fuel cmd_init)
  unfolding submit_and_complete_admin
  submit_and_complete_admin-Sound ctl fuel cmd_init =
      search
        (
          keeps_rules,
          gets-Sound w,
          submit_admin-Sound,
          tail_doorbell,
          spin_admin-Sound,
          head_doorbell,
        )
        depth 20

  ignore-Sound :
      {A : Type 0} (m : Action W A)
      → KeepsSound W addr len dstrd m
      → KeepsSound W addr len dstrd (ignore m)
  ignore-Sound {A} m keeps = record { holds = λ s p. forgotten (m s).0 (m s).1 (keeps.holds s p) }
    where
      forgotten :
          (r : Outcome A) (s : Machine W)
          → Sound addr len dstrd s
          → Sound addr len dstrd
              (elim r as (λ x. Outcome (Unit {0}) × Machine W) [
                | ok a ↦ (ok tt, s)
                | err e ↦ (ok tt, s)
                | panic ↦ (panic, s)
                | spin ↦ (spin, s)
              ]).1
      forgotten (ok a) s p = p
      forgotten (err e) s p = p
      forgotten panic s p = p
      forgotten spin s p = p

  -- A step that only looks at the machine.
  looked : {A : Type 0} (f : Machine W → Outcome A) → KeepsSound W addr len dstrd (λ s. (f s, s))
  looked f = record { holds = λ s p. p }

  pub identify_controller-Sound :
      (ctl : Controller) (fuel : ℕ) → KeepsSound W addr len dstrd (identify_controller ctl fuel)
  unfolding identify_controller
  identify_controller-Sound ctl fuel =
      search (keeps_rules, submit_and_complete_admin-Sound, looked) depth 20

  pub identify_namespace_list-Sound :
      (ctl : Controller) (fuel base : ℕ)
      → KeepsSound W addr len dstrd (identify_namespace_list ctl fuel base)
  unfolding identify_namespace_list
  identify_namespace_list-Sound ctl fuel base =
      search (keeps_rules, ignore-Sound, submit_and_complete_admin-Sound, looked) depth 20

  inserted : (id : ℕ) (ns : NvmeNamespace) → KeepsSound W addr len dstrd (modify (insert id ns))
  inserted id ns = modify-Sound w _ (λ d. (refl, refl, refl, refl, refl, refl, refl, refl))

  pub identify_namespace-Sound :
      (ctl : Controller) (fuel id : ℕ)
      → KeepsSound W addr len dstrd (identify_namespace ctl fuel id)
  unfolding identify_namespace
  identify_namespace-Sound ctl fuel id =
      search (keeps_rules, ignore-Sound, submit_and_complete_admin-Sound, looked, inserted) depth 20

  pub format_namespace-Sound :
      (ctl : Controller) (fuel : ℕ) (ns_id : Option ℕ)
      → KeepsSound W addr len dstrd (format_namespace ctl fuel ns_id)
  unfolding format_namespace
  format_namespace-Sound ctl fuel none =
      search (keeps_rules, ignore-Sound, submit_and_complete_admin-Sound) depth 20
  format_namespace-Sound ctl fuel (some id) =
      search (keeps_rules, gets-Sound w, ignore-Sound, submit_and_complete_admin-Sound) depth 20

  pub next_queue : KeepsSound W addr len dstrd (modify λ d. record d { q_id = u16 (d.q_id + 1) })
  next_queue = modify-Sound w _ (λ d. (refl, refl, refl, refl, refl, refl, refl, refl))

  wait-Sound :
      (ctl : Controller) (b : Bool) (fuel : ℕ) → KeepsSound W addr len dstrd (wait ctl b fuel)
  unfolding wait
  wait-Sound ctl b zero = Keeps-lift spin
  wait-Sound ctl b (suc fuel) =
      Keeps-bind _ _ (get_reg32-Sound w ctl (offset32 csts))
        (λ status. again _ (wait-Sound ctl b fuel))
    where
      again :
          (found : Bool) {m : Action W (Unit {0})}
          → KeepsSound W addr len dstrd m
          → KeepsSound W addr len dstrd
              (elim found as (λ x. Action W (Unit {0})) [ true ↦ pure tt | false ↦ m ])
      again true rest = Keeps-pure tt
      again false rest = rest

  stop-Sound : (ctl : Controller) (fuel : ℕ) → KeepsSound W addr len dstrd (stop ctl fuel)
  unfolding stop
  stop-Sound ctl fuel =
      search (keeps_rules, get_reg32-Sound w, set_reg32-Sound w, wait-Sound) depth 20

  set_up :
      (ctl : Controller) (sq cq : ℕ)
      → KeepsSound W addr len dstrd (do
        set_reg64 (offset64 asq) sq
        set_reg64 (offset64 acq) cq
        set_reg32 (offset32 aqa) admin_sizes
        c ← get_reg32 ctl (offset32 cc)
        set_reg32 (offset32 cc) (configured c))
  set_up ctl sq cq =
      search (keeps_rules, set_reg64-Sound w, set_reg32-Sound w, get_reg32-Sound w) depth 20

  setup-Sound : (ctl : Controller) → KeepsSound W addr len dstrd (setup ctl)
  unfolding setup
  setup-Sound ctl = record {
    holds = λ s p.
        (set_up ctl (Submission.get_addr s.dev.admin_sq) (Completion.get_addr s.dev.admin_cq)).holds
          s p;
  }

  start-Sound : (ctl : Controller) (fuel : ℕ) → KeepsSound W addr len dstrd (start ctl fuel)
  unfolding start
  start-Sound ctl fuel =
      search (keeps_rules, get_reg32-Sound w, set_reg32-Sound w, wait-Sound) depth 20

  listed :
      KeepsSound W addr len dstrd
        (modify λ d. record d { prp = page_list 511 1 d.buffer.phys d.prp })
  listed = modify-Sound w _ (λ d. (refl, refl, refl, refl, refl, refl, refl, refl))

  pub configure-Sound :
      (ctl : Controller) (fuel : ℕ) → KeepsSound W addr len dstrd (configure ctl fuel)
  unfolding configure
  configure-Sound ctl fuel =
      search
        (
          keeps_rules,
          listed,
          get_reg64-Sound w,
          get_reg32-Sound w,
          stop-Sound,
          setup-Sound,
          start-Sound,
          gets-Sound w,
          submit_and_complete_admin-Sound,
          next_queue,
        )
        depth 30
