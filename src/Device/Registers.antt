-- ===== src/Device/Registers.antt =====
-- The registers of `NvmeDevice`: their offsets, the bounds checks, and the doorbells.
pub mod Doorbells
pub mod Bounds
use vroom.Common.{ℕ, ◌+◌, ◌-◌, ◌*◌, ◌%◌, ◌^◌, ◌≤◌, Bool, true, false, leb, if◌then◌else◌}
use vroom.Common.Words.{u16, u64, sub_u64, ◌<<◌}
use vroom.Common.Outcome.{Outcome, ok, assert}
use vroom.Host.{Host, Controller, store}
use vroom.Device.State.{NvmeDevice, Machine, Action, pure, lift, gets, ◌>>=◌, ◌>>◌}

-- `NvmeRegs32`; the rest of its variants are not used.
pub data NvmeRegs32 : Type 0 where
  vs cc csts aqa : NvmeRegs32

-- `NvmeRegs64`
pub data NvmeRegs64 : Type 0 where
  cap asq acq : NvmeRegs64

-- `NvmeArrayRegs`: the tail doorbell of a submission queue, the head doorbell of a completion queue.
pub data NvmeArrayRegs : Type 0 where
  sq_tail cq_head : NvmeArrayRegs

abbrev pub offset32 : NvmeRegs32 → ℕ
offset32 vs = 0x8
offset32 cc = 0x14
offset32 csts = 0x1C
offset32 aqa = 0x24

abbrev pub offset64 : NvmeRegs64 → ℕ
offset64 cap = 0x0
offset64 asq = 0x28
offset64 acq = 0x30

-- `write_reg_idx`: the product is computed in `u16`.
unfoldable pub doorbell : NvmeDevice → NvmeArrayRegs → ℕ → ℕ
doorbell d sq_tail qid = u64 (d.addr + 0x1000 + u16 (u16 (4 << d.dstrd) * u16 (2 * qid)))
doorbell d cq_head qid = u64 (d.addr + 0x1000 + u16 (u16 (4 << d.dstrd) * u16 (2 * qid + 1)))

-- In `create_io_queue_pair`: `0x1000 + (4 << self.dstrd) * (2 * q_id + odd) as usize`. Here only the factor with the queue is a `u16`.
abbrev pub pair_offset : NvmeDevice → ℕ → ℕ
pair_offset d odd = u64 (0x1000 + u64 ((4 << d.dstrd) * u16 (2 * d.q_id + odd)))

module _ {W : Type 0} where
  unfoldable pub write_reg_idx : NvmeArrayRegs → ℕ → ℕ → Action W (Unit {0})
  write_reg_idx reg qid val s =
      (ok tt, record s { host = store (doorbell s.dev reg qid) val s.host })

  -- `assert!(reg as usize <= self.len - width)`
  unfoldable pub check : ℕ → ℕ → Action W (Unit {0})
  check width reg s = (assert (leb reg (sub_u64 s.dev.len width)), s)

  abbrev pub write : ℕ → ℕ → Action W (Unit {0})
  write reg value s = (ok tt, record s { host = store (u64 (s.dev.addr + reg)) value s.host })

  unfoldable pub set_reg32 : ℕ → ℕ → Action W (Unit {0})
  set_reg32 reg value = check 4 reg >> write reg value

  unfoldable pub set_reg64 : ℕ → ℕ → Action W (Unit {0})
  set_reg64 reg value = check 8 reg >> write reg value

  -- A read takes a moment.
  abbrev pub read : Controller → ℕ → Action W ℕ
  read ctl reg s = (
    ok (ctl.reg s.host.log s.host.clock (u64 (s.dev.addr + reg))),
    record s { host = record (s.host) { clock = s.host.clock + 1 } },
  )

  unfoldable pub get_reg32 : Controller → ℕ → Action W ℕ
  get_reg32 ctl reg = check 4 reg >> read ctl reg

  unfoldable pub get_reg64 : Controller → ℕ → Action W ℕ
  get_reg64 ctl reg = check 8 reg >> read ctl reg
