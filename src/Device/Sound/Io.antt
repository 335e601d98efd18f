-- ===== src/Device/Sound/Io.antt =====
-- The invariant through the reads and writes of `NvmeDevice`.
use vroom.Common.{ℕ, zero, suc, ◌+◌, ◌*◌, ◌/◌, refl, Bool, List, [], ◌∷◌, arith}
use vroom.Common.Words.{u64}
use vroom.Common.Slots.{update}
use vroom.Common.Outcome.{spin}
use vroom.Common.Keeps.{Keeps-elim, Keeps-lift, Keeps-bind, keeps_rules}
use vroom.Memory.Dma.{Dma}
use vroom.Memory.Chunks.{DmaChunk, chunks, collect}
use vroom.Host.{Controller}
use vroom.Pair.{block_count}
use vroom.Device.State.{modify, lift}
use vroom.Device.Registers.{sq_tail, cq_head, write_reg_idx}
use vroom.Device.Io.{
  count_submission, count_completion, complete_io, namespace_io, transfer_chunks, transfer,
  fill_list, transfer_lists, write_prp,
}
use vroom.Device.Sound.{Window, KeepsSound, gets-Sound, modify-Sound, write_reg_idx-Sound}
use vroom.Device.Sound.Rings.{submit_one-Sound, take_n-Sound}

module _ {W : Type 0} {addr len dstrd : ℕ} (w : Window addr len dstrd) where
  pub tail_doorbell : (v : ℕ) → KeepsSound W addr len dstrd (write_reg_idx sq_tail 1 v)
  tail_doorbell v = write_reg_idx-Sound w sq_tail 1 v (omega arith)

  head_doorbell : (v : ℕ) → KeepsSound W addr len dstrd (write_reg_idx cq_head 1 v)
  head_doorbell v = write_reg_idx-Sound w cq_head 1 v (omega arith)

  pub submission : KeepsSound W addr len dstrd (modify count_submission)
  submission =
      modify-Sound w count_submission (λ d. (refl, refl, refl, refl, refl, refl, refl, refl))

  completion : KeepsSound W addr len dstrd (modify count_completion)
  completion =
      modify-Sound w count_completion (λ d. (refl, refl, refl, refl, refl, refl, refl, refl))

  pub reported :
      (head : ℕ)
      → KeepsSound W addr len dstrd
          (modify λ d. record d { io_sq = record (d.io_sq) { head = head } })
  reported head = modify-Sound w _ (λ d. (refl, refl, refl, refl, refl, refl, refl, refl))

  pub complete_io-Sound :
      (ctl : Controller) (fuel n : ℕ) → KeepsSound W addr len dstrd (complete_io ctl fuel n)
  unfolding complete_io
  complete_io-Sound ctl fuel n = search (keeps_rules, take_n-Sound, head_doorbell, completion)

  pub namespace_io-Sound :
      (ctl : Controller) (fuel ns_id blocks lba addr' : ℕ) (write : Bool)
      → KeepsSound W addr len dstrd (namespace_io ctl fuel ns_id blocks lba addr' write)
  unfolding namespace_io
  namespace_io-Sound ctl fuel ns_id blocks lba addr' write =
      search
        (
          keeps_rules,
          gets-Sound w,
          submit_one-Sound,
          submission,
          tail_doorbell,
          complete_io-Sound,
          reported,
        )
        depth 20

  transfer_chunks-Sound :
      (ctl : Controller) (fuel : ℕ) (cs : List DmaChunk) (lba : ℕ) (write : Bool)
      → KeepsSound W addr len dstrd (transfer_chunks ctl fuel cs lba write)
  unfolding transfer_chunks
  transfer_chunks-Sound ctl fuel [] lba write = search keeps_rules
  transfer_chunks-Sound ctl fuel (c ∷ cs) lba write =
      Keeps-bind _ _ (namespace_io-Sound ctl fuel 1 (block_count c.len) lba c.phys_addr write)
        (λ u. transfer_chunks-Sound ctl fuel cs (u64 (lba + block_count c.len)) write)

  pub transfer-Sound :
      (ctl : Controller) (fuel : ℕ) (d : Dma) (lba : ℕ) (write : Bool)
      → KeepsSound W addr len dstrd (transfer ctl fuel d lba write)
  unfolding transfer
  transfer-Sound ctl fuel d lba write =
      Keeps-elim (collect 1 (suc d.size) (chunks d (2 * 4096))) (lift spin)
        (λ cs. transfer_chunks ctl fuel cs lba write) (Keeps-lift spin)
        (λ cs. transfer_chunks-Sound ctl fuel cs lba write)

  page :
      (i phys : ℕ)
      → KeepsSound W addr len dstrd
          (modify λ d. record d { prp = update d.prp i (u64 (phys + i * 4096)) })
  page i phys = modify-Sound w _ (λ d. (refl, refl, refl, refl, refl, refl, refl, refl))

  fill_list-Sound :
      (ctl : Controller) (fuel n i phys : ℕ)
      → KeepsSound W addr len dstrd (fill_list ctl fuel n i phys)
  unfolding fill_list
  fill_list-Sound ctl fuel zero i phys = search keeps_rules
  fill_list-Sound ctl fuel (suc n) i phys =
      Keeps-bind _ _ (Keeps-lift _)
        (λ u. Keeps-bind _ _ (page i phys) (λ v. fill_list-Sound ctl fuel n (i + 1) phys))

  transfer_lists-Sound :
      (ctl : Controller) (fuel : ℕ) (cs : List DmaChunk) (lba : ℕ) (write : Bool)
      → KeepsSound W addr len dstrd (transfer_lists ctl fuel cs lba write)
  unfolding transfer_lists
  transfer_lists-Sound ctl fuel [] lba write = search keeps_rules
  transfer_lists-Sound ctl fuel (c ∷ cs) lba write =
      Keeps-bind _ _ (fill_list-Sound ctl fuel (c.len / 4096) 0 c.phys_addr) (λ u.
        Keeps-bind _ _ (namespace_io-Sound ctl fuel 1 (block_count c.len) lba c.phys_addr write)
          (λ v.
            Keeps-bind _ _ (Keeps-lift _)
              (λ t. transfer_lists-Sound ctl fuel cs (u64 (lba + block_count c.len)) write)))

  pub write_prp-Sound :
      (ctl : Controller) (fuel : ℕ) (d : Dma) (lba : ℕ) (write : Bool)
      → KeepsSound W addr len dstrd (write_prp ctl fuel d lba write)
  unfolding write_prp
  write_prp-Sound ctl fuel d lba write =
      Keeps-elim (collect 1 (suc d.size) (chunks d (128 * 4096))) (lift spin)
        (λ cs. transfer_lists ctl fuel cs lba write) (Keeps-lift spin)
        (λ cs. transfer_lists-Sound ctl fuel cs lba write)
