-- ===== src/Device/Sound/Copied.antt =====
-- The invariant through the transfers that copy through the device's own buffer.
use vroom.Common.{ℕ, zero, suc, ◌+◌, ◌*◌, ◌^◌, refl, Bool, true, false, Option, none, some}
use vroom.Common.{ltb, if◌then◌else◌}
use vroom.Common.Words.{u32, u64}
use vroom.Common.Keeps.{Keeps-elim, Keeps-lift, Keeps-pure, Keeps-bind, keeps_rules}
use vroom.Host.{Controller}
use vroom.Device.State.{NvmeNamespace, modify, pure, ◌>>◌}
use vroom.Device.Registers.{sq_tail, write_reg_idx}
use vroom.Device.Io.{count_submission}
use vroom.Device.Copied.{
  chunk_len, blocks_for, submit_io, submit_batch, prefix, copy_in, copy_out, batch, write_batches,
  read_batches, batched_write, batched_read, write_chunks, read_chunks, write_copied, read_copied,
}
use vroom.Device.Sound.{Window, KeepsSound, gets-Sound, modify-Sound}
use vroom.Device.Sound.Rings.{try_submit-Sound}
use vroom.Device.Sound.Io.{
  submission, tail_doorbell, reported, complete_io-Sound, namespace_io-Sound,
}

module _ {W : Type 0} {addr len dstrd : ℕ} (w : Window addr len dstrd) where
  submit_io-Sound :
      (ns : NvmeNamespace) (addr' blocks lba : ℕ) (write : Bool)
      → KeepsSound W addr len dstrd (submit_io ns addr' blocks lba write)
  unfolding submit_io
  submit_io-Sound ns addr' blocks lba write =
      search (keeps_rules, gets-Sound w, try_submit-Sound) depth 12

  prefix-Sound : (n : ℕ) → KeepsSound W addr len dstrd (prefix n)
  prefix-Sound n = record { holds = λ s p. p }

  filled :
      (input : ℕ → ℕ) (offset n : ℕ)
      → KeepsSound W addr len dstrd (
          modify λ d. record d { copied = λ i. if ltb i n then input (offset + i) else d.copied i })
  filled input offset n = modify-Sound w _ (λ d. (refl, refl, refl, refl, refl, refl, refl, refl))

  copy_in-Sound :
      (input : ℕ → ℕ) (offset n : ℕ) → KeepsSound W addr len dstrd (copy_in input offset n)
  copy_in-Sound input offset n = Keeps-bind _ _ (prefix-Sound n) (λ u. filled input offset n)

  copy_out-Sound :
      (ctl : Controller) (dest : ℕ → ℕ) (offset n : ℕ)
      → KeepsSound W addr len dstrd (copy_out ctl dest offset n)
  copy_out-Sound ctl dest offset n = record {
    holds = λ s p. (Keeps-bind (prefix n) _ (prefix-Sound n) (λ u. Keeps-pure _)).holds s p;
  }

  rung :
      (r : Option ℕ)
      → KeepsSound W addr len dstrd (elim r [
        | none ↦ pure tt
        | some tail ↦ (modify count_submission >> write_reg_idx sq_tail 1 (u32 tail))
      ])
  rung r =
      Keeps-elim r (pure tt) _ (Keeps-pure tt)
        (λ tail. Keeps-bind _ _ (submission w) (λ u. tail_doorbell w (u32 tail)))

  submit_batch-Sound :
      (ns : NvmeNamespace) (batch_size blocks : ℕ) (write : Bool) (n i lba : ℕ)
      → KeepsSound W addr len dstrd (submit_batch ns batch_size blocks write n i lba)
  unfolding submit_batch
  submit_batch-Sound ns batch_size blocks write zero i lba = Keeps-pure lba
  submit_batch-Sound ns batch_size blocks write (suc n) i lba =
      Keeps-bind _ _ (gets-Sound w (λ d. d.buffer.phys)) (λ phys.
        Keeps-bind _ _ (submit_io-Sound ns (u64 (phys + u64 (i * batch_size))) blocks lba write)
          (λ r.
            Keeps-bind _ _ (rung r)
              (λ u. submit_batch-Sound ns batch_size blocks write n (i + 1) (u64 (lba + blocks)))))

  batch-Sound :
      (ctl : Controller) (fuel : ℕ) (ns : NvmeNamespace) (batch_len n lba : ℕ) (write : Bool)
      → KeepsSound W addr len dstrd (batch ctl fuel ns batch_len n lba write)
  unfolding batch
  batch-Sound ctl fuel ns batch_len n lba write =
      search (keeps_rules, submit_batch-Sound, complete_io-Sound w, reported w) depth 20

  write_batches-Sound :
      (ctl : Controller) (fuel : ℕ) (ns : NvmeNamespace) (input : ℕ → ℕ)
      (size batch_len n j lba : ℕ)
      → KeepsSound W addr len dstrd (write_batches ctl fuel ns input size batch_len n j lba)
  unfolding write_batches
  write_batches-Sound ctl fuel ns input size batch_len zero j lba = Keeps-pure tt
  write_batches-Sound ctl fuel ns input size batch_len (suc n) j lba =
      Keeps-bind _ _ (copy_in-Sound input (j * 2 ^ 21) (chunk_len (2 ^ 21) size j)) (λ u.
        Keeps-bind _ _ (batch-Sound ctl fuel ns batch_len (chunk_len (2 ^ 21) size j) lba true)
          (λ lba'. write_batches-Sound ctl fuel ns input size batch_len n (j + 1) lba'))

  read_batches-Sound :
      (ctl : Controller) (fuel : ℕ) (ns : NvmeNamespace) (dest : ℕ → ℕ) (size batch_len n j lba : ℕ)
      → KeepsSound W addr len dstrd (read_batches ctl fuel ns dest size batch_len n j lba)
  unfolding read_batches
  read_batches-Sound ctl fuel ns dest size batch_len zero j lba = Keeps-pure dest
  read_batches-Sound ctl fuel ns dest size batch_len (suc n) j lba =
      Keeps-bind _ _ (batch-Sound ctl fuel ns batch_len (chunk_len (2 ^ 21) size j) lba false)
        (λ lba'.
          Keeps-bind _ _ (copy_out-Sound ctl dest (j * 2 ^ 21) (chunk_len (2 ^ 21) size j))
            (λ dest'. read_batches-Sound ctl fuel ns dest' size batch_len n (j + 1) lba'))

  pub batched_write-Sound :
      (ctl : Controller) (fuel ns_id : ℕ) (input : ℕ → ℕ) (size lba batch_len : ℕ)
      → KeepsSound W addr len dstrd (batched_write ctl fuel ns_id input size lba batch_len)
  unfolding batched_write
  batched_write-Sound ctl fuel ns_id input size lba batch_len =
      search (keeps_rules, gets-Sound w, write_batches-Sound) depth 12

  pub batched_read-Sound :
      (ctl : Controller) (fuel ns_id : ℕ) (dest : ℕ → ℕ) (size lba batch_len : ℕ)
      → KeepsSound W addr len dstrd (batched_read ctl fuel ns_id dest size lba batch_len)
  unfolding batched_read
  batched_read-Sound ctl fuel ns_id dest size lba batch_len =
      search (keeps_rules, gets-Sound w, read_batches-Sound) depth 12

  write_chunks-Sound :
      (ctl : Controller) (fuel : ℕ) (ns : NvmeNamespace) (input : ℕ → ℕ) (size n j lba : ℕ)
      → KeepsSound W addr len dstrd (write_chunks ctl fuel ns input size n j lba)
  unfolding write_chunks
  write_chunks-Sound ctl fuel ns input size zero j lba = Keeps-pure tt
  write_chunks-Sound ctl fuel ns input size (suc n) j lba =
      let k = chunk_len (128 * 4096) size j in
      Keeps-bind _ _ (copy_in-Sound input (j * (128 * 4096)) k) (λ u.
        Keeps-bind _ _ (Keeps-lift _) (λ v.
          Keeps-bind _ _ (gets-Sound w (λ d. d.buffer.phys)) (λ phys.
            Keeps-bind _ _ (namespace_io-Sound w ctl fuel 1 (blocks_for ns k) lba phys true) (λ x.
              write_chunks-Sound ctl fuel ns input size n (j + 1) (u64 (lba + blocks_for ns k))))))

  read_chunks-Sound :
      (ctl : Controller) (fuel : ℕ) (ns : NvmeNamespace) (dest : ℕ → ℕ) (size n j lba : ℕ)
      → KeepsSound W addr len dstrd (read_chunks ctl fuel ns dest size n j lba)
  unfolding read_chunks
  read_chunks-Sound ctl fuel ns dest size zero j lba = Keeps-pure dest
  read_chunks-Sound ctl fuel ns dest size (suc n) j lba =
      let k = chunk_len (128 * 4096) size j in
      Keeps-bind _ _ (Keeps-lift _) (λ v.
        Keeps-bind _ _ (gets-Sound w (λ d. d.buffer.phys)) (λ phys.
          Keeps-bind _ _ (namespace_io-Sound w ctl fuel 1 (blocks_for ns k) lba phys false) (λ x.
            Keeps-bind _ _ (copy_out-Sound ctl dest (j * (128 * 4096)) k) (λ dest'.
              read_chunks-Sound ctl fuel ns dest' size n (j + 1) (u64 (lba + blocks_for ns k))))))

  pub write_copied-Sound :
      (ctl : Controller) (fuel : ℕ) (input : ℕ → ℕ) (size lba : ℕ)
      → KeepsSound W addr len dstrd (write_copied ctl fuel input size lba)
  unfolding write_copied
  write_copied-Sound ctl fuel input size lba =
      search (keeps_rules, gets-Sound w, write_chunks-Sound) depth 12

  pub read_copied-Sound :
      (ctl : Controller) (fuel : ℕ) (dest : ℕ → ℕ) (size lba : ℕ)
      → KeepsSound W addr len dstrd (read_copied ctl fuel dest size lba)
  unfolding read_copied
  read_copied-Sound ctl fuel dest size lba =
      search (keeps_rules, gets-Sound w, read_chunks-Sound) depth 12
