-- ===== src/Device/Io/Failure.antt =====
-- How `read` and `write` of `NvmeDevice` end when the controller refuses one of their commands.
use vroom.Common.{
  ℕ, suc, ◌+◌, ◌%◌, ◌≤◌, ◌<◌, ◌≡◌, refl, ◌∙◌, ap, ◌≢◌, Bool, true, false, some, List, [], ◌∷◌, ◌++◌,
  ◌==◌, if◌then◌else◌, arith,
}
use vroom.Common.Words.{u32, u64}
use vroom.Common.Outcome.{Outcome, ok, panic}
use vroom.Common.Stateful.{bind-ok, bind-inv, bind-panic}
use vroom.Memory.Dma.{Dma}
use vroom.Memory.Chunks.{DmaChunk, collect, chunks}
use vroom.Queues.Submission.{push}
use vroom.Queues.Submission.Ring.{IsValid}
use vroom.Queues.Completion.{CqMemory}
use vroom.Queues.Completion.Position.{At, is_posted}
use vroom.Host.{Controller}
use vroom.Pair.{block_count, status_of}
use vroom.Device.State.{Machine}
use vroom.Device.Registers.{sq_tail, cq_head, doorbell}
use vroom.Device.Io.{io_command, namespace_io, transfer_chunks, transfer}
use vroom.Device.Io.Request.{namespace_io_lem, seen}

-- The block behind the chunks.
abbrev pub block_behind : List DmaChunk → ℕ → ℕ
block_behind [] lba = lba
block_behind (c ∷ cs) lba = block_behind cs (u64 (lba + block_count c.len))

refused : (n : ℕ) → n ≢ 0 → ◌≡◌ {A = Outcome (Unit {0})} (if n == 0 then ok tt else panic) panic
refused n ne = ground (arith, ne)

module _ (ctl : Controller) (fuel : ℕ) {W : Type 0} where
  transfer_chunks-panic :
      (done : List DmaChunk) (c : DmaChunk) (rest : List DmaChunk) (lba : ℕ) (write : Bool)
      (s s1 s' : Machine W)
      → transfer_chunks ctl fuel done lba write s ≡ (ok tt, s1)
      → namespace_io ctl fuel 1 (block_count c.len) (block_behind done lba) c.phys_addr write s1
        ≡ (panic, s')
      → transfer_chunks ctl fuel (done ++ c ∷ rest) lba write s ≡ (panic, s')
  unfolding transfer_chunks
  transfer_chunks-panic [] c rest lba write s s1 s' e fails =
      bind-panic (namespace_io ctl fuel 1 (block_count c.len) lba c.phys_addr write)
        (λ u. transfer_chunks ctl fuel rest (u64 (lba + block_count c.len)) write)
        (ap (namespace_io ctl fuel 1 (block_count c.len) lba c.phys_addr write) (ap (λ r. r.1) e)
          ∙ fails)
  transfer_chunks-panic (d ∷ done) c rest lba write s s1 s' e fails =
      let first = namespace_io ctl fuel 1 (block_count d.len) lba d.phys_addr write in
      let lba' = u64 (lba + block_count d.len) in
      let i = bind-inv first (λ u. transfer_chunks ctl fuel done lba' write) e in
      bind-ok first (λ u. transfer_chunks ctl fuel (done ++ c ∷ rest) lba' write) i.2
      ∙ transfer_chunks-panic done c rest lba' write i.1 s1 s' i.3 fails

  transfer-chunks :
      (d : Dma) (lba : ℕ) (write : Bool) (s : Machine W) {cs : List DmaChunk}
      → collect 1 (suc d.size) (chunks d 8192) ≡ some cs
      → transfer ctl fuel d lba write s ≡ transfer_chunks ctl fuel cs lba write s
  unfolding transfer
  transfer-chunks d lba write s e = rw (e, transfer) refl

  -- When the controller answers the command for a chunk of a `read` or `write`, of 1 to 8192 bytes,
  -- with an error status, the call panics, although its type has an `Err`. The commands for the
  -- chunks before had succeeded and left the device `s1`, with valid rings, the completions at the
  -- position `p`; the entry of that position is first seen at the poll `k`, one of the `fuel` polls
  -- allowed, and has the error. From `s1` on only the two doorbells of this command are rung: no
  -- command for a later chunk is submitted.
  pub transfer_panics :
      (d : Dma) (lba : ℕ) (write : Bool) (s s1 : Machine W) (done rest : List DmaChunk)
      (c : DmaChunk) (p k : ℕ)
      → collect 1 (suc d.size) (chunks d 8192) ≡ some (done ++ c ∷ rest)
      → transfer_chunks ctl fuel done lba write s ≡ (ok tt, s1)
      → 0 < c.len
      → c.len ≤ 8192
      → At p s1.dev.io_cq
      → IsValid s1.dev.io_sq
      → k < fuel
      → let entry =
          io_command s1.dev 1 (block_count c.len) (block_behind done lba) c.phys_addr write in
        let shown : ℕ → CqMemory = λ t. seen ctl entry s1 (s1.host.clock + t) in
        ((j : ℕ) → j < k → is_posted (shown j) s1.dev.io_cq.len p ≡ false)
        → is_posted (shown k) s1.dev.io_cq.len p ≡ true
        → status_of (shown k (p % s1.dev.io_cq.len)) ≢ 0
        → (s' : Machine W) × (transfer ctl fuel d lba write s ≡ (panic, s'))
          × (s'.host.log
              ≡ (doorbell s1.dev cq_head 1, u32 ((p + 1) % s1.dev.io_cq.len))
                ∷ (doorbell s1.dev sq_tail 1, u32 (push entry s1.dev.io_sq).tail)
                ∷ s1.host.log)
  transfer_panics d lba write s s1 done rest c p k cut before pos small at v lt unposted found bad =
      let entry =
        io_command s1.dev 1 (block_count c.len) (block_behind done lba) c.phys_addr write in
      let status = status_of (seen ctl entry s1 (s1.host.clock + k) (p % s1.dev.io_cq.len)) in
      let one =
        namespace_io_lem ctl fuel 1 (block_count c.len) (block_behind done lba) c.phys_addr write s1
          p k at v (omega arith) (omega arith) lt unposted found in
      (
        one.0,
        transfer-chunks d lba write s cut
            ∙ transfer_chunks-panic done c rest lba write s s1 one.0 before
                (one.1 ∙ ap (λ r. (r, one.0)) (refused status bad)),
        one.4,
      )
