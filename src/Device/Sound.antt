-- ===== src/Device/Sound.antt =====
-- What holds of a device after every operation, whatever the controller does: its rings, and where
-- it has written.
pub mod Rings
pub mod Io
pub mod Copied
pub mod Admin
pub mod Pairs
pub mod Histories
pub mod Start
mod Tests
use native.Mathlib.Nat.{one-le-pow, pow-le-pow_right, mul-le-mul_left}
use vroom.Common.{
  ℕ, ◌+◌, ◌*◌, ◌^◌, ◌≤◌, ◌<◌, ◌≡◌, refl, ◌∙◌, Bool, true, false, Option, none, some, List, [], ◌∷◌,
  leb, arith,
}
use vroom.Common.Words.{u32, u64, ◌<<◌}
use vroom.Common.Keeps.{Gives, Keeps, Keeps-bind, keeps_rules}
use vroom.Common.Outcome.{Outcome, ok, err, panic, spin, assert}
use vroom.Command.{NvmeCommand}
use vroom.Queues.Submission.{SubmissionQueue, submit, submit_checked}
use vroom.Queues.Completion.{CompletionQueue, Completed, complete_spin, complete_n}
use vroom.Queues.Bounds.{
  HasTail, HasHead, submit-HasTail, submit_checked-HasTail, complete_spin-HasHead,
  complete_n-HasHead,
}
use vroom.Host.{Host, Controller, view, store}
use vroom.Device.State.{NvmeDevice, Machine, Action, gets, modify, lift, ◌>>=◌, ◌>>◌}
use vroom.Device.Registers.{
  NvmeArrayRegs, sq_tail, cq_head, doorbell, write_reg_idx, NvmeRegs32, NvmeRegs64, offset32,
  offset64, set_reg32, set_reg64, get_reg32, get_reg64, check, write, read,
}
use vroom.Device.Registers.Doorbells.{Fits, doorbell_lem, stride, index}
use vroom.Device.Admin.{submit_admin, spin_admin}
use vroom.Device.Io.{submit_one, take_n}

-- The registers from `addr` on, `len` bytes, of a device with the doorbell stride `4 << dstrd`: the
-- doorbells of the admin queue and of queue 1 lie inside.
pub record Window (addr len dstrd : ℕ) : Type 0 where
  pub narrow : dstrd ≤ 12
  pub room : 0x1000 + 4 * (4 << dstrd) ≤ len
  pub top : addr + len + 2 ^ 17 < 2 ^ 64

-- Every write to a register so far begins in the mapping, four bytes before its end or earlier.
abbrev pub Inside : ℕ → ℕ → List (ℕ × ℕ) → Type 0
Inside addr len [] = Unit {0}
Inside addr len ((a, v) ∷ log) = ((addr ≤ a) × (a + 4 ≤ addr + len)) × Inside addr len log

-- The places that the driver moves itself: the tails of its submission rings and the heads of its
-- completion rings. The head of a submission ring is what the controller reports, unchecked, and
-- no part of this.
pub record Sound {W : Type 0} (addr len dstrd : ℕ) (s : Machine W) : Type 0 where
  pub same_addr : s.dev.addr ≡ addr
  pub same_len : s.dev.len ≡ len
  pub same_dstrd : s.dev.dstrd ≡ dstrd
  pub admin_tail : HasTail s.dev.admin_sq
  pub admin_head : HasHead s.dev.admin_cq
  pub io_tail : HasTail s.dev.io_sq
  pub io_head : HasHead s.dev.io_cq
  pub inside : Inside addr len s.host.log

-- An operation keeps the invariant, however it ends.
abbrev pub KeepsSound : (W : Type 0) → ℕ → ℕ → ℕ → {A : Type 0} → Action W A → Type 0
KeepsSound W addr len dstrd m = Keeps (Sound {W = W} addr len dstrd) m

offset32_low : (reg : NvmeRegs32) → offset32 reg ≤ 0x30
offset32_low reg = ground arith

offset64_low : (reg : NvmeRegs64) → offset64 reg ≤ 0x30
offset64_low reg = ground arith

index_low : (reg : NvmeArrayRegs) (qid : ℕ) → qid ≤ 1 → index reg qid ≤ 3
index_low sq_tail qid first = omega arith
index_low cq_head qid first = omega arith

module _ {addr len dstrd : ℕ} (w : Window addr len dstrd) where
  narrow_stride : 2 ^ dstrd ≤ 4096
  narrow_stride = pow-le-pow_right {n = 2} (omega arith) w.narrow

  -- The offset of a doorbell of queue 0 or 1.
  scaled :
      (d : NvmeDevice) (reg : NvmeArrayRegs) (qid : ℕ)
      → d.dstrd ≡ dstrd
      → qid ≤ 1
      → stride d * index reg qid ≤ (4 << dstrd) * 3
  scaled d reg qid e first = rw e (mul-le-mul_left (4 << dstrd) (index_low reg qid first))

  window_Fits :
      (d : NvmeDevice) (reg : NvmeArrayRegs) (qid : ℕ)
      → d.addr ≡ addr
      → d.dstrd ≡ dstrd
      → qid ≤ 1
      → Fits d reg qid
  window_Fits d reg qid ea ed first = record {
    narrow = rw ed (omega (arith, narrow_stride));
    near = omega (arith, scaled d reg qid ed first, narrow_stride);
    mapped = omega (arith, ea, w.top, w.room);
  }

module _ {W : Type 0} {addr len dstrd : ℕ} (w : Window addr len dstrd) where
  pub gets-Sound : {A : Type 0} (f : NvmeDevice → A) → KeepsSound W addr len dstrd (gets f)
  gets-Sound f = record { holds = λ s p. p }

  -- A change of the device that leaves its registers and its rings.
  pub modify-Sound :
      (f : NvmeDevice → NvmeDevice)
      → ((d : NvmeDevice)
          → ((f d).addr ≡ d.addr)
            × ((f d).len ≡ d.len)
            × ((f d).dstrd ≡ d.dstrd)
            × ((f d).admin_sq ≡ d.admin_sq)
            × ((f d).admin_cq ≡ d.admin_cq)
            × ((f d).io_cq ≡ d.io_cq)
            × ((f d).io_sq.len ≡ d.io_sq.len)
            × ((f d).io_sq.tail ≡ d.io_sq.tail))
      → KeepsSound W addr len dstrd (modify f)
  modify-Sound f same = record {
    holds = λ s p.
        let e = same s.dev in
        record {
          same_addr = e.0 ∙ p.same_addr;
          same_len = e.1 ∙ p.same_len;
          same_dstrd = e.2 ∙ p.same_dstrd;
          admin_tail = rw e.3 p.admin_tail;
          admin_head = rw e.4 p.admin_head;
          io_tail = record {
            fits = rw e.6 p.io_tail.fits;
            within = rw (e.6, e.7) p.io_tail.within;
          };
          io_head = rw e.5 p.io_head;
          inside = p.inside;
        };
  }

  stored :
      (s : Machine W) (a v : ℕ)
      → Sound addr len dstrd s
      → addr ≤ a
      → a + 4 ≤ addr + len
      → Sound addr len dstrd (record s { host = store a v s.host })
  stored s a v p low high = record {
    same_addr = p.same_addr;
    same_len = p.same_len;
    same_dstrd = p.same_dstrd;
    admin_tail = p.admin_tail;
    admin_head = p.admin_head;
    io_tail = p.io_tail;
    io_head = p.io_head;
    inside = ((low, high), p.inside);
  }

  pub write_reg_idx-Sound :
      (reg : NvmeArrayRegs) (qid v : ℕ)
      → qid ≤ 1
      → KeepsSound W addr len dstrd (write_reg_idx reg qid v)
  unfolding write_reg_idx
  write_reg_idx-Sound reg qid v first = record {
    holds = λ s p.
        let at =
          doorbell_lem s.dev reg qid (window_Fits w s.dev reg qid p.same_addr p.same_dstrd first) in
        let index = index_low reg qid first in
        stored s (doorbell s.dev reg qid) v p (omega (arith, at, p.same_addr)) (
          omega (
            arith,
            at,
            p.same_addr,
            w.room,
            scaled w s.dev reg qid p.same_dstrd first,
            one-le-pow dstrd 2,
          ));
  }

  check-Sound : (width reg : ℕ) → KeepsSound W addr len dstrd (check width reg)
  unfolding check
  check-Sound width reg = record { holds = λ s p. p }

  write-Sound : (reg v : ℕ) → reg ≤ 0x30 → KeepsSound W addr len dstrd (write reg v)
  write-Sound reg v low = record {
    holds = λ s p.
        stored s (u64 (s.dev.addr + reg)) v p (omega (arith, p.same_addr, w.room, w.top))
          (omega (arith, p.same_addr, w.room, w.top));
  }

  pub set_reg32-Sound :
      (reg : NvmeRegs32) (v : ℕ) → KeepsSound W addr len dstrd (set_reg32 (offset32 reg) v)
  unfolding set_reg32
  set_reg32-Sound reg v =
      Keeps-bind _ _ (check-Sound 4 (offset32 reg))
        (λ u. write-Sound (offset32 reg) v (offset32_low reg))

  pub set_reg64-Sound :
      (reg : NvmeRegs64) (v : ℕ) → KeepsSound W addr len dstrd (set_reg64 (offset64 reg) v)
  unfolding set_reg64
  set_reg64-Sound reg v =
      Keeps-bind _ _ (check-Sound 8 (offset64 reg))
        (λ u. write-Sound (offset64 reg) v (offset64_low reg))

  read-Sound : (ctl : Controller) (reg : ℕ) → KeepsSound W addr len dstrd (read ctl reg)
  read-Sound ctl reg = record {
    holds = λ s p. record {
      same_addr = p.same_addr;
      same_len = p.same_len;
      same_dstrd = p.same_dstrd;
      admin_tail = p.admin_tail;
      admin_head = p.admin_head;
      io_tail = p.io_tail;
      io_head = p.io_head;
      inside = p.inside;
    };
  }

  pub get_reg32-Sound :
      (ctl : Controller) (reg : ℕ) → KeepsSound W addr len dstrd (get_reg32 ctl reg)
  unfolding get_reg32
  get_reg32-Sound ctl reg = search (keeps_rules, check-Sound, read-Sound)

  pub get_reg64-Sound :
      (ctl : Controller) (reg : ℕ) → KeepsSound W addr len dstrd (get_reg64 ctl reg)
  unfolding get_reg64
  get_reg64-Sound ctl reg = search (keeps_rules, check-Sound, read-Sound)
