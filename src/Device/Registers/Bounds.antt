-- ===== src/Device/Registers/Bounds.antt =====
-- The bounds checks of the register accesses.
use vroom.Common.{ℕ, ◌+◌, ◌^◌, ◌≤◌, ◌<◌, ◌≡◌, refl, Bool, true, false, arith, leb}
use vroom.Common.Words.{u64, sub_u64}
use vroom.Common.Outcome.{ok, panic, assert}
use vroom.Host.{Controller, store}
use vroom.Device.State.{Machine, Action, lift, ◌>>◌}
use vroom.Device.Registers.{check, read, write, set_reg32, set_reg64, get_reg32, get_reg64}

inside : (len width reg : ℕ) → len < 2 ^ 64 → reg + width ≤ len → leb reg (sub_u64 len width) ≡ true
inside len width reg small le = ground arith

outside :
    (len width reg : ℕ)
    → len < 2 ^ 64
    → width ≤ len
    → len < reg + width
    → leb reg (sub_u64 len width) ≡ false
outside len width reg small wide lt = ground arith

module _ {W : Type 0} where
  check_inside :
      {A : Type 0} (width reg : ℕ) (s : Machine W) (m : Action W A)
      → s.dev.len < 2 ^ 64
      → reg + width ≤ s.dev.len
      → (check width reg >> m) s ≡ m s
  unfolding check
  check_inside width reg s m small le = goes (inside s.dev.len width reg small le)
    where
      goes : {b : Bool} → b ≡ true → (lift (assert b) >> m) s ≡ m s
      goes e = rw e refl

  check_outside :
      {A : Type 0} (width reg : ℕ) (s : Machine W) (m : Action W A)
      → s.dev.len < 2 ^ 64
      → width ≤ s.dev.len
      → s.dev.len < reg + width
      → (check width reg >> m) s ≡ (panic, s)
  unfolding check
  check_outside width reg s m small wide lt = goes (outside s.dev.len width reg small wide lt)
    where
      goes : {b : Bool} → b ≡ false → (lift (assert b) >> m) s ≡ (panic, s)
      goes e = rw e refl

  -- A register access of 4 or 8 bytes to a mapping of at least that size: it goes through exactly
  -- if all its bytes lie inside the mapping, and then a write reaches the controller at the
  -- register's address, and a read returns what the controller holds there and takes one moment;
  -- otherwise it panics and changes nothing.
  pub register_access :
      (ctl : Controller) (reg v : ℕ) (s : Machine W)
      → s.dev.len < 2 ^ 64
      → 8 ≤ s.dev.len
      → (reg + 4 ≤ s.dev.len
          → (set_reg32 reg v s
              ≡ (ok tt, record s { host = store (u64 (s.dev.addr + reg)) v s.host }))
            × (get_reg32 ctl reg s ≡ (
              ok (ctl.reg s.host.log s.host.clock (u64 (s.dev.addr + reg))),
              record s { host = record (s.host) { clock = s.host.clock + 1 } },
            )))
        × (s.dev.len < reg + 4
            → (set_reg32 reg v s ≡ (panic, s)) × (get_reg32 ctl reg s ≡ (panic, s)))
        × (reg + 8 ≤ s.dev.len
            → (set_reg64 reg v s
                ≡ (ok tt, record s { host = store (u64 (s.dev.addr + reg)) v s.host }))
              × (get_reg64 ctl reg s ≡ (
                ok (ctl.reg s.host.log s.host.clock (u64 (s.dev.addr + reg))),
                record s { host = record (s.host) { clock = s.host.clock + 1 } },
              )))
        × (s.dev.len < reg + 8
            → (set_reg64 reg v s ≡ (panic, s)) × (get_reg64 ctl reg s ≡ (panic, s)))
  unfolding set_reg32 set_reg64 get_reg32 get_reg64
  register_access ctl reg v s small wide = (
    λ h. (check_inside 4 reg s (write reg v) small h, check_inside 4 reg s (read ctl reg) small h),
    λ h. (
      check_outside 4 reg s (write reg v) small (omega (arith, wide)) h,
      check_outside 4 reg s (read ctl reg) small (omega (arith, wide)) h,
    ),
    λ h. (check_inside 8 reg s (write reg v) small h, check_inside 8 reg s (read ctl reg) small h),
    λ h. (
      check_outside 8 reg s (write reg v) small wide h,
      check_outside 8 reg s (read ctl reg) small wide h,
    ),
  )
