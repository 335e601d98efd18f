-- ===== src/Pair/Complete.antt =====
-- Taking completions on a queue pair.
use Prim.Native.String.{String}
use vroom.Common.{
  ℕ, suc, ◌+◌, ◌%◌, ◌≤◌, ◌<◌, ◌≡◌, refl, true, false, none, some, ◌∷◌, inl, inr, drop, arith,
  lt→ltb, ◌==◌, if◌then◌else◌,
}
use vroom.Common.Words.{u32}
use vroom.Common.Outcome.{ok, vroom_error}
use vroom.Queues.Entry.{NvmeCompletion}
use vroom.Queues.Submission.Ring.{IsValid, outstanding}
use vroom.Queues.Submission.Fifo.{contents, head-drop}
use vroom.Queues.Completion.{CqMemory}
use vroom.Queues.Completion.Position.{At, is_posted, after, after-At, complete_lem}
use vroom.Queues.Completion.Batch.{complete_n_lem}
use vroom.Host.{Host, Controller, store, view}
use vroom.Pair.{NvmeQueuePair, acknowledge, status_of, complete_io, quick_poll, quick_poll_result}

-- The entries of the pair's completion queue at time `t`.
abbrev pub seen : Controller → NvmeQueuePair → Host → ℕ → CqMemory
seen ctl qp h t = view ctl h qp.comp_queue.commands.virt t

-- The pair and the host behind a completion: the entry `e` is taken at position `p`, with the clock
-- at `t`.
abbrev pub taken_pair : NvmeQueuePair → ℕ → NvmeCompletion → NvmeQueuePair
taken_pair qp p e = acknowledge e qp (after (p + 1) qp.comp_queue)

abbrev pub rung_host : NvmeQueuePair → Host → ℕ → ℕ → Host
rung_host qp h p t =
    store qp.comp_queue.doorbell (u32 ((p + 1) % qp.comp_queue.len)) (record h { clock = t })

module _ (ctl : Controller) (qp : NvmeQueuePair) (h : Host) (p : ℕ) (at : At p qp.comp_queue) where
  pub complete_io-eq :
      (m k fuel : ℕ)
      → m < qp.comp_queue.len
      → k < fuel
      → ((j : ℕ)
          → j < k
          → is_posted (seen ctl qp h (h.clock + j)) qp.comp_queue.len (p + m) ≡ false)
      → is_posted (seen ctl qp h (h.clock + k)) qp.comp_queue.len (p + m) ≡ true
      → let e = seen ctl qp h (h.clock + k) ((p + m) % qp.comp_queue.len) in
        complete_io ctl fuel (suc m) qp h
        ≡ ok (
          (if status_of e == 0 then some e.sq_head else none),
          taken_pair qp (p + m) e,
          rung_host qp h (p + m) (h.clock + k + 1),
        )
  unfolding complete_io
  complete_io-eq m k fuel lt lt' before found =
      rw
        (
          lt→ltb 0 (suc m) (omega arith),
          complete_n_lem at (seen ctl qp h) m k fuel h.clock lt lt' before found,
        )
        refl

  -- Taking a batch of `m + 1` completions, at most as many as the ring holds: `complete_io` waits for
  -- the last of them, and ends right after the first poll `k` that sees it, which must be among the
  -- `fuel` polls allowed. It rings the completion doorbell once, with the new head. If the controller
  -- reports a submission head `j` slots on, no further than the tail, exactly the `j` oldest
  -- commands leave the submission queue, which stays valid. The result is that head if the status of
  -- the last entry is 0, and nothing otherwise.
  pub complete_io_lem :
      (m k fuel j : ℕ)
      → IsValid qp.sub_queue
      → m < qp.comp_queue.len
      → k < fuel
      → ((i : ℕ)
          → i < k
          → is_posted (seen ctl qp h (h.clock + i)) qp.comp_queue.len (p + m) ≡ false)
      → is_posted (seen ctl qp h (h.clock + k)) qp.comp_queue.len (p + m) ≡ true
      → j ≤ outstanding qp.sub_queue
      → (seen ctl qp h (h.clock + k) ((p + m) % qp.comp_queue.len)).sq_head
        ≡ (qp.sub_queue.head + j) % qp.sub_queue.len
      → let e = seen ctl qp h (h.clock + k) ((p + m) % qp.comp_queue.len) in
        (qp' : NvmeQueuePair) × (h' : Host) × (complete_io ctl fuel (suc m) qp h
          ≡ ok ((if status_of e == 0 then some e.sq_head else none), qp', h'))
        × At (p + m + 1) qp'.comp_queue
        × IsValid qp'.sub_queue
        × (contents qp'.sub_queue ≡ drop j (contents qp.sub_queue))
        × (h'.log ≡ (qp.comp_queue.doorbell, u32 ((p + m + 1) % qp.comp_queue.len)) ∷ h.log)
        × (h'.clock ≡ h.clock + k + 1)
  complete_io_lem m k fuel j v lt lt' before found le reported =
      let e = seen ctl qp h (h.clock + k) ((p + m) % qp.comp_queue.len) in
      let dropped = head-drop qp.sub_queue j v le in
      (
        taken_pair qp (p + m) e,
        rung_host qp h (p + m) (h.clock + k + 1),
        complete_io-eq m k fuel lt lt' before found,
        after-At at (p + m + 1),
        rw reported dropped.0,
        rw reported dropped.1,
        refl,
        refl,
      )

  -- One look at the queue. If the entry at the position is posted, `quick_poll` takes it, rings the
  -- doorbell and returns `Some`, whatever the status of the entry; `quick_poll_result` does the same
  -- to the queues and the controller, but returns `Err` exactly if that status is not 0. If it is
  -- not posted, both return `None`, and only time has passed.
  pub quick_poll_lem :
      (describe : NvmeCompletion → String)
      → let e = seen ctl qp h h.clock (p % qp.comp_queue.len) in
        let answer = if status_of e == 0 then inr (some tt) else inl (vroom_error (describe e)) in
        (is_posted (seen ctl qp h h.clock) qp.comp_queue.len p ≡ true
          → (quick_poll ctl qp h ≡ ok (some tt, taken_pair qp p e, rung_host qp h p (h.clock + 1)))
            × (quick_poll_result ctl describe qp h
                ≡ ok (answer, taken_pair qp p e, rung_host qp h p (h.clock + 1))))
        × (is_posted (seen ctl qp h h.clock) qp.comp_queue.len p ≡ false
            → (quick_poll ctl qp h ≡ ok (none, qp, record h { clock = h.clock + 1 }))
              × (quick_poll_result ctl describe qp h
                  ≡ ok (inr none, qp, record h { clock = h.clock + 1 })))
  unfolding quick_poll quick_poll_result
  quick_poll_lem describe = (
    λ e. let c = (complete_lem at (seen ctl qp h h.clock)).0 e in (rw c refl, rw c refl),
    λ e. let c = (complete_lem at (seen ctl qp h h.clock)).1 e in (rw c refl, rw c refl),
  )
