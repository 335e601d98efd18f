-- ===== src/Examples/Throughput/Finish.antt =====
-- What follows the loop of a thread: the wait for the operations that are left.
use vroom.Common.{
  ℕ, suc, ◌+◌, ◌-◌, ◌%◌, ◌<◌, ◌≡◌, refl, ◌∙◌, ap, Bool, true, false, not, Option, ◌==◌,
  if◌then◌else◌, arith,
}
use native.Mathlib.Decide.{ℕ_discrete}
use vroom.Common.Words.{u64}
use vroom.Common.Stateful.{get, lift, bind-ok, pure, ◌>>=◌, ◌>>◌}
use vroom.Common.Outcome.{Outcome, ok, assert}
use vroom.Memory.Dma.{Dma}
use vroom.Command.{NvmeCommand}
use vroom.Queues.Entry.{NvmeCompletion}
use vroom.Host.{Controller}
use vroom.Queues.Submission.{SubmissionQueue, is_empty}
use vroom.Queues.Completion.{CompletionQueue}
use vroom.Queues.Completion.Position.{At, after, after-At}
use vroom.Pair.{complete_io}
use vroom.Pair.Complete.{taken_pair, rung_host, complete_io-eq}
use vroom.Examples.{Load, Work, on_pair, on_pair-ok, update}
use vroom.Examples.Throughput.{finish}
use vroom.Examples.Throughput.Steps.{writes, shown, Serves, Spot, load_at, Consistent, Setting}

module _ (ctl : Controller) (id : ℕ) (sq : SubmissionQueue) (cq : CompletionQueue)
    (limit depth fuel latencies : ℕ) (serves : Serves ctl sq cq limit depth fuel)
    (set : Setting sq cq limit depth) (ns_blocks duration : ℕ) (random write : Bool)
    (buffer : Dma) where
  abbrev at_spot : Spot → Load
  at_spot s = load_at id sq cq latencies s

  -- What is left when the queue is empty.
  settle :
      (f : Load → Load) (l : Load)
      → is_empty (f l).qpair.sub_queue ≡ true
      → (update f >> (get >>= λ l. lift (assert (is_empty l.qpair.sub_queue)))) l ≡ (ok tt, f l)
  settle f l e = rw e refl

  abbrev finish_of : ℕ → Work (Unit {0})
  finish_of elapsed = finish ctl fuel depth ns_blocks duration random write buffer elapsed

  empty_queue :
      (entries : ℕ → NvmeCommand) {a b : ℕ}
      → a ≡ b
      → is_empty (record sq { entries = entries; head = a; tail = b }) ≡ true
  unfolding is_empty
  empty_queue entries e = ground arith

  at_all : (a b : ℕ) → a ≡ b → At b (after a cq)
  at_all a b e = rw e (after-At set.start b)

  -- The time at which the last completion is seen.
  abbrev last_seen : Spot → ℕ
  last_seen s = s.clock + serves.delay s.log s.clock (s.n - 1)

  abbrev waited : ℕ → Spot → NvmeCompletion → Load
  waited elapsed s e = record (at_spot s) {
    qpair = taken_pair (at_spot s).qpair (s.n - 1) e;
    host = rung_host (at_spot s).qpair (at_spot s).host (s.n - 1) (last_seen s + 1);
    total = s.total + elapsed;
  }

  wait_all :
      (s : Spot)
      → Consistent sq limit depth s
      → s.p < s.n
      → let e = shown ctl cq s.log (last_seen s) ((s.n - 1) % cq.len) in
        (r : Option ℕ) × (complete_io ctl fuel (s.n - s.p) (at_spot s).qpair (at_spot s).host
          ≡ ok (
            r,
            taken_pair (at_spot s).qpair (s.n - 1) e,
            rung_host (at_spot s).qpair (at_spot s).host (s.n - 1) (last_seen s + 1),
          ))
        × (e.sq_head ≡ s.n % sq.len)
  wait_all s c lt =
      let m = s.n - s.p - 1 in
      let count : suc m ≡ s.n - s.p = omega arith in
      let position : s.p + m ≡ s.n - 1 = omega arith in
      let a =
        serves.answers s.log s.clock s.n (s.n - 1) c.rung c.bounded (omega arith)
          (omega (arith, set.some_ops)) in
      let r =
        serves.reports s.log (last_seen s) s.n (s.n - 1) c.rung c.bounded (omega arith)
          (omega (arith, set.some_ops)) a.2 in
      let all : serves.fetched s.log (last_seen s) (s.n - 1) ≡ s.n = omega (arith, r.0, r.1) in
      (
        _,
        rw (count, position) at
            (complete_io-eq ctl (at_spot s).qpair (at_spot s).host s.p (after-At set.start s.p) m
              (serves.delay s.log s.clock (s.n - 1)) fuel (omega (arith, c.room, set.slots)) a.0
              (rw position a.1) (rw position a.2)),
        r.2 ∙ ap (λ k. k % sq.len) all,
      )

  abbrev summed : Load → Load
  summed l = record l { total_io_ops = u64 (l.total_io_ops + l.outstanding_ops) }

  abbrev after_test : Load → ℕ → ℕ → Bool → Outcome (Unit {0}) × Load
  after_test l n elapsed b =
      ((if not b
            then (on_pair (complete_io ctl fuel n)
                >> update (λ l. record l { total = l.total + elapsed }))
            else pure tt)
          >> (update summed >> (get >>= λ l. lift (assert (is_empty l.qpair.sub_queue)))))
        l

  -- The last wait takes all completions that are left.
  pub finish_lem :
      (elapsed : ℕ) (s : Spot)
      → Consistent sq limit depth s
      → (l : Load) × (finish_of elapsed (at_spot s) ≡ (ok tt, l))
        × (l.total_io_ops ≡ s.n)
        × (writes sq.doorbell l.host.log ≡ s.n)
        × At s.n l.qpair.comp_queue
        × (is_empty l.qpair.sub_queue ≡ true)
  unfolding finish
  finish_lem elapsed s c = elim (ℕ_discrete (s.n - s.p) 0) [
    | yes none_left ↦
        let test : ((s.n - s.p) == 0) ≡ true = ground arith in
        let same : s.p ≡ s.n = omega (arith, c.taken, c.read) in
        let read : s.f ≡ s.n = omega (arith, c.taken, c.read) in
        let empty = empty_queue s.entries (ap (λ k. k % sq.len) read) in
        (
          summed (at_spot s),
          ap (after_test (at_spot s) (s.n - s.p) elapsed) test ∙ settle summed (at_spot s) empty,
          omega (arith, c.bounded, set.countable),
          c.rung,
          at_all s.p s.n same,
          empty,
        )
    | no some_left ↦
        let test : ((s.n - s.p) == 0) ≡ false = ground arith in
        let last = wait_all s c (omega (arith, c.taken, c.read)) in
        let e = shown ctl cq s.log (last_seen s) ((s.n - 1) % cq.len) in
        let l2 : Load = waited elapsed s e in
        let empty = empty_queue s.entries last.2 in
        (
          summed l2,
          ap (after_test (at_spot s) (s.n - s.p) elapsed) test
              ∙ bind-ok
                  (on_pair (complete_io ctl fuel (s.n - s.p))
                    >> update (λ l. record l { total = l.total + elapsed }))
                  (λ u. update summed >> (get >>= λ l. lift (assert (is_empty l.qpair.sub_queue))))
                  (bind-ok (on_pair (complete_io ctl fuel (s.n - s.p)))
                    (λ r. update (λ l. record l { total = l.total + elapsed }))
                    (on_pair-ok (complete_io ctl fuel (s.n - s.p)) (at_spot s) last.1))
              ∙ settle summed l2 empty,
          omega (arith, c.bounded, set.countable, c.taken, c.read),
          ground (arith, set.apart, c.rung),
          at_all (s.n - 1 + 1) s.n (omega arith),
          empty,
        )
  ]
