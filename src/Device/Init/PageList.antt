-- ===== src/Device/Init/PageList.antt =====
-- The list of pages that the initialisation leaves in memory.
use native.Mathlib.Decide.{ℕ_discrete}
use vroom.Common.{
  ℕ, zero, suc, ◌+◌, ◌-◌, ◌*◌, ◌^◌, ◌≤◌, ◌<◌, ◌≡◌, ◌∙◌, ltb, leb, if◌then◌else◌, arith,
}
use vroom.Common.Words.{u64}
use vroom.Common.Slots.{update}
use vroom.Device.State.{NvmeDevice}
use vroom.Device.Io.{list_pointer}
use vroom.Device.Io.Lists.{entry_at, list_pointer_long, second}
use vroom.Device.Init.{page_list}

abbrev listed : ℕ → ℕ → ℕ → (ℕ → ℕ) → ℕ → ℕ
listed n i phys prp j =
    if leb i j then (if ltb j (i + n) then u64 (phys + (j + 1) * 4096) else prp j) else prp j

listed_more :
    (n i phys : ℕ) (prp : ℕ → ℕ) (j : ℕ)
    → listed n (i + 1) phys (update prp i (u64 (phys + (i + 1) * 4096))) j
      ≡ listed (suc n) i phys prp j
unfolding update
listed_more n i phys prp j = elim (ℕ_discrete i j) [
  | yes e ↦ rw e (ground arith)
  | no ne ↦ ground arith
]

page_list_lem :
    (n i phys : ℕ) (prp : ℕ → ℕ) (j : ℕ) → page_list n (i + 1) phys prp j ≡ listed n i phys prp j
unfolding page_list
page_list_lem zero i phys prp j = ground arith
page_list_lem (suc n) i phys prp j =
    let e : i + 1 - 1 ≡ i = omega arith in
    rw e (
      page_list_lem n (i + 1) phys (update prp i (u64 (phys + (i + 1) * 4096))) j
      ∙ listed_more n i phys prp j)

-- As long as the list is the one of the initialisation, whose entry `i - 1` is the `i`-th page of
-- the driver's buffer, a command of more than two pages from the start of that buffer leaves out the
-- second page: the list that it points to begins with the third.
pub initial_list_skips :
    (d : NvmeDevice) (blocks k : ℕ)
    → d.prp_list.phys + 4096 < 2 ^ 64
    → d.buffer.phys + 512 * 4096 < 2 ^ 64
    → 16 < blocks
    → blocks ≤ 2 ^ 16
    → k + 1 < 511
    → let d' = record d { prp = page_list 511 1 d.buffer.phys d.prp } in
      entry_at d' (list_pointer d' blocks d.buffer.phys) k ≡ d.buffer.phys + (k + 2) * 4096
initial_list_skips d blocks k near below many few lt =
    let d' : NvmeDevice = record d { prp = page_list 511 1 d.buffer.phys d.prp } in
    let page : listed 511 0 d.buffer.phys d.prp (k + 1) ≡ d.buffer.phys + (k + 2) * 4096 =
      ground arith in
    rw (list_pointer_long d' blocks d.buffer.phys near many few, second d.prp_list.phys k)
      (page_list_lem 511 0 d.buffer.phys d.prp (k + 1) ∙ page)
