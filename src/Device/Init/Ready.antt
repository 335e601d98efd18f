-- ===== src/Device/Init/Ready.antt =====
-- The order in which the initialisation writes the registers of the controller, and when its wait
-- loops end.
use Prim.Native.Nat.{bit_and}
use vroom.Common.{ℕ, ◌+◌, ◌^◌, ◌≤◌, ◌<◌, Bool, ◌==◌, List, ◌∷◌}
use vroom.Common.Words.{u64}
use vroom.Host.{Controller}
use vroom.Queues.Submission
use vroom.Queues.Completion
use vroom.Device.State.{Machine}
use vroom.Device.Registers.{offset32, csts}
use vroom.Device.Init.{disabled, configured, enabled, admin_sizes}

-- The time passes; a write is received.
abbrev later_by : {W : Type 0} → ℕ → Machine W → Machine W
later_by k s = record s { host = record (s.host) { clock = s.host.clock + k } }

-- The machine with other writes at another time.
abbrev pub at_time : {W : Type 0} → List (ℕ × ℕ) → ℕ → Machine W → Machine W
at_time log t s = record s { host = record { log = log; clock = t } }

module _ (ctl : Controller) {W : Type 0} where
  abbrev pub address : Machine W → ℕ → ℕ
  address s reg = u64 (s.dev.addr + reg)

  -- The value of a register at time `t`, after the writes `log`.
  abbrev pub value_at : Machine W → List (ℕ × ℕ) → ℕ → ℕ → ℕ
  value_at s log t reg = ctl.reg log t (u64 (s.dev.addr + reg))

  -- Whether the lowest bit of the status is set.
  abbrev pub is_ready : Machine W → List (ℕ × ℕ) → ℕ → Bool
  is_ready s log t = bit_and (value_at s log t (offset32 csts)) 1 == 1

  -- The writes after each of the three parts, the newest first.
  abbrev pub stopped : Machine W → List (ℕ × ℕ)
  stopped s = (address s 0x14, disabled (value_at s s.host.log s.host.clock 0x14)) ∷ s.host.log

  abbrev pub queues_set : Machine W → List (ℕ × ℕ)
  queues_set s =
      (address s 0x24, admin_sizes)
      ∷ (address s 0x30, Completion.get_addr s.dev.admin_cq)
      ∷ (address s 0x28, Submission.get_addr s.dev.admin_sq)
      ∷ s.host.log

  abbrev pub set_up : Machine W → List (ℕ × ℕ)
  set_up s =
      (address s 0x14, configured (value_at s (queues_set s) s.host.clock 0x14)) ∷ queues_set s

  abbrev pub started : Machine W → List (ℕ × ℕ)
  started s = (address s 0x14, enabled (value_at s s.host.log s.host.clock 0x14)) ∷ s.host.log

  -- Reading the configuration, writing a value made from it, and waiting.
  module _ (f : ℕ → ℕ) (b : Bool) (k fuel : ℕ) (s : Machine W) (small : s.dev.len < 2 ^ 64)
      (wide : 0x38 ≤ s.dev.len) where
    abbrev wrote : List (ℕ × ℕ)
    wrote = (address s 0x14, f (value_at s s.host.log s.host.clock 0x14)) ∷ s.host.log
