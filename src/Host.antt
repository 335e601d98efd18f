-- ===== src/Host.antt =====
-- What the driver and the controller share: the registers, which the driver writes, and the
-- completion entries, which the controller writes into memory. The controller is not in the
-- repository, so it is a parameter: a function of the writes that it has received and of the time.
use vroom.Common.{ℕ, List, ◌∷◌}
use vroom.Queues.Completion.{CqMemory}

-- The register writes so far as pairs of address and value, the newest first, and a clock that
-- every look at what the controller may change moves on.
pub record Host : Type 0 where
  pub log : List (ℕ × ℕ)
  pub clock : ℕ

-- `completions log t base` are the entries at the address `base` after the writes `log` at time
-- `t`, `reg log t a` is the value of the register at the address `a`, and `memory log t a` is the byte
-- at the address `a` of a buffer that the controller writes into.
pub record Controller : Type 0 where
  pub completions : List (ℕ × ℕ) → ℕ → ℕ → CqMemory
  pub reg : List (ℕ × ℕ) → ℕ → ℕ → ℕ
  pub memory : List (ℕ × ℕ) → ℕ → ℕ → ℕ

-- `write_volatile`
abbrev pub store : ℕ → ℕ → Host → Host
store address value h = record h { log = (address, value) ∷ h.log }

-- What a busy-wait loop sees: no write happens while it spins.
abbrev pub view : Controller → Host → ℕ → ℕ → CqMemory
view c h base t = c.completions h.log t base
