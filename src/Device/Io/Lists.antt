-- ===== src/Device/Io/Lists.antt =====
-- The list of pages that `write_prp` builds, and the pointer to it.
use native.Mathlib.Decide.{ℕ_discrete}
use vroom.Common.{
  ℕ, zero, suc, ◌+◌, ◌-◌, ◌*◌, ◌/◌, ◌^◌, ◌≤◌, ◌<◌, ◌≡◌, refl, fun_ext, ap, sym, ltb, leb,
  if◌then◌else◌, arith, lt→ltb,
}
use vroom.Common.Words.{u64}
use vroom.Common.Slots.{update}
use vroom.Common.Outcome.{ok}
use vroom.Host.{Controller}
use vroom.Device.State.{NvmeDevice, Machine}
use vroom.Device.Io.{fill_list, list_pointer}

-- The entries of the list after `n` of them from entry `i` on are set to pages of a buffer.
abbrev pub filled : ℕ → ℕ → ℕ → (ℕ → ℕ) → ℕ → ℕ
filled n i phys prp j =
    if leb i j then (if ltb j (i + n) then u64 (phys + j * 4096) else prp j) else prp j

filled_none : (i phys : ℕ) (prp : ℕ → ℕ) → filled 0 i phys prp ≡ prp
filled_none i phys prp = fun_ext λ j. ground arith

filled_more :
    (n i phys : ℕ) (prp : ℕ → ℕ)
    → filled n (i + 1) phys (update prp i (u64 (phys + i * 4096))) ≡ filled (suc n) i phys prp
unfolding update
filled_more n i phys prp =
    fun_ext λ j. elim (ℕ_discrete i j) [ yes e ↦ rw e (ground arith) | no ne ↦ ground arith ]

module _ (ctl : Controller) (fuel : ℕ) {W : Type 0} where
  fill_list_ok :
      (n i phys : ℕ) (s : Machine W)
      → i + n ≤ 512
      → fill_list ctl fuel n i phys s
        ≡ (ok tt, record s { dev = record (s.dev) { prp = filled n i phys s.dev.prp } })
  unfolding fill_list
  fill_list_ok zero i phys s le =
      ap (λ p. (ok tt, record s { dev = record (s.dev) { prp = p } }))
        (sym (filled_none i phys s.dev.prp))
  fill_list_ok (suc n) i phys s le =
      rw
        (
          lt→ltb i 512 (omega arith),
          fill_list_ok n (i + 1) phys
              (record s {
                dev = record (s.dev) { prp = update s.dev.prp i (u64 (phys + i * 4096)) };
              })
              (omega arith),
          filled_more n i phys s.dev.prp,
        )
        refl

-- Entry `k` behind the address `a` in the memory of the list.
abbrev pub entry_at : NvmeDevice → ℕ → ℕ → ℕ
entry_at d a k = d.prp ((a - d.prp_list.phys) / 8 + k)

pub list_pointer_long :
    (d : NvmeDevice) (blocks addr : ℕ)
    → d.prp_list.phys + 4096 < 2 ^ 64
    → 16 < blocks
    → blocks ≤ 2 ^ 16
    → list_pointer d blocks addr ≡ d.prp_list.phys + 8
unfolding list_pointer
list_pointer_long d blocks addr near many few = ground arith

pub second : (p k : ℕ) → (p + 8 - p) / 8 + k ≡ k + 1
second p k = omega arith

filled_page :
    (n phys j : ℕ) (prp : ℕ → ℕ)
    → j < n
    → phys + n * 4096 < 2 ^ 64
    → filled n 0 phys prp j ≡ phys + j * 4096
filled_page n phys j prp lt below = ground arith

module _ (ctl : Controller) (fuel : ℕ) {W : Type 0} where
  -- The list that `write_prp` fills for a chunk of `n` pages, at most the 512 of the list: it goes
  -- through, and for a command of more than two pages the pointer that the command carries is to
  -- the second entry of the list, from where the controller reads the addresses of the second, the
  -- third and all further pages of the chunk, in order. Nothing but the list changes.
  pub list_reaches :
      (n blocks phys k : ℕ) (s : Machine W)
      → n ≤ 512
      → phys + n * 4096 < 2 ^ 64
      → s.dev.prp_list.phys + 4096 < 2 ^ 64
      → 16 < blocks
      → blocks ≤ 2 ^ 16
      → k + 1 < n
      → (prp : ℕ → ℕ) × (fill_list ctl fuel n 0 phys s
          ≡ (ok tt, record s { dev = record (s.dev) { prp = prp } }))
        × (let d = record (s.dev) { prp = prp } in
            entry_at d (list_pointer d blocks phys) k ≡ phys + (k + 1) * 4096)
  list_reaches n blocks phys k s room below near many few lt =
      (filled n 0 phys s.dev.prp, fill_list_ok ctl fuel n 0 phys s (omega arith), reached)
    where
      d : NvmeDevice
      d = record (s.dev) { prp = filled n 0 phys s.dev.prp }

      reached : entry_at d (list_pointer d blocks phys) k ≡ phys + (k + 1) * 4096
      reached =
          rw (list_pointer_long d blocks phys near many few, second s.dev.prp_list.phys k)
            (filled_page n phys (k + 1) s.dev.prp lt below)
