-- ===== src/Examples/Throughput/Turns.antt =====
-- One turn of a load: it makes room, and submits one command.
use native.Mathlib.Nat.{add-zero}
use vroom.Common.{
  ℕ, ◌+◌, ◌-◌, ◌*◌, ◌%◌, ◌≤◌, ◌<◌, ◌≡◌, refl, ◌∙◌, ap, Bool, true, false, Option, ◌==◌, lt→ltb,
  arith,
}
use native.Mathlib.Decide.{ℕ_discrete}
use vroom.Common.Words.{u64}
use vroom.Common.Stateful.{bind-ok, ◌>>◌}
use vroom.Common.Outcome.{ok}
use vroom.Memory.Dma.{Dma}
use vroom.Memory.Dma.Views.{IsMapped}
use vroom.Host.{Controller}
use vroom.Queues.Submission.{SubmissionQueue}
use vroom.Queues.Completion.{CompletionQueue}
use vroom.Queues.Completion.Position.{after-At}
use vroom.Pair.{complete_io}
use vroom.Pair.Complete.{taken_pair, rung_host, complete_io-eq}
use vroom.Examples.{Turn, Load, Work, on_pair, on_pair-ok, update, one_done, submit_part, poll_all}
use vroom.Examples.Throughput.{make_room, turn, pick}
use vroom.Examples.Throughput.Steps.{
  shown, Serves, Spot, load_at, Consistent, Setting, one_taken, taken-Consistent, taken_load,
  poll_all_lem,
}
use vroom.Examples.Throughput.Sends.{one_more, more-Consistent, command_at, submit_part_lem}

module _ (ctl : Controller) (id : ℕ) (sq : SubmissionQueue) (cq : CompletionQueue)
    (limit depth fuel latencies : ℕ) (serves : Serves ctl sq cq limit depth fuel)
    (set : Setting sq cq limit depth) where
  abbrev at_spot : Spot → Load
  at_spot s = load_at id sq cq latencies s

  -- The time at which a wait for the completion `p` finds it.
  abbrev seen_at : Spot → ℕ → ℕ
  seen_at s p = s.clock + serves.delay s.log s.clock p

  wait_lem :
      (s : Spot)
      → Consistent sq limit depth s
      → s.p < s.n
      → (r : Option ℕ) × (complete_io ctl fuel 1 (at_spot s).qpair (at_spot s).host
          ≡ ok (
            r,
            taken_pair (at_spot s).qpair s.p (shown ctl cq s.log (seen_at s s.p) (s.p % cq.len)),
            rung_host (at_spot s).qpair (at_spot s).host s.p (seen_at s s.p + 1),
          ))
  wait_lem s c lt =
      let a = serves.answers s.log s.clock s.n s.p c.rung c.bounded lt c.room in
      (
        _,
        rw add-zero at (
            complete_io-eq ctl (at_spot s).qpair (at_spot s).host s.p (after-At set.start s.p) 0
              (serves.delay s.log s.clock s.p) fuel set.start.positive a.0 (rw add-zero a.1)
              (rw add-zero a.2)),
      )

  make_room_lem :
      (s : Spot) (ns_blocks duration : ℕ) (random write : Bool) (buffer : Dma)
      → Consistent sq limit depth s
      → (s' : Spot) × (make_room ctl fuel depth ns_blocks duration random write buffer (at_spot s)
          ≡ (ok tt, at_spot s'))
        × Consistent sq limit depth s'
        × (s'.n ≡ s.n)
        × (s'.total ≡ s.total)
        × (s'.n < s'.p + depth)
  unfolding make_room
  make_room_lem s ns_blocks duration random write buffer c = elim (ℕ_discrete (s.n - s.p) depth) [
    | yes full ↦
        let test : ((s.n - s.p) == depth) ≡ true = ground arith in
        let lt : s.p < s.n = omega (arith, set.some_ops) in
        let a = serves.answers s.log s.clock s.n s.p c.rung c.bounded lt c.room in
        let r = serves.reports s.log (seen_at s s.p) s.n s.p c.rung c.bounded lt c.room a.2 in
        let wait = wait_lem s c lt in
        let e = shown ctl cq s.log (seen_at s s.p) (s.p % cq.len) in
        let c' =
          taken-Consistent ctl id sq cq limit depth fuel latencies serves set (seen_at s s.p) s c lt
            a.2 in
        (
          one_taken ctl id sq cq limit depth fuel latencies serves set (seen_at s s.p) s,
          rw test (
              bind-ok (on_pair (complete_io ctl fuel 1)) (λ r. update one_done)
                (on_pair-ok (complete_io ctl fuel 1) (at_spot s) wait.1)
              ∙ ap (λ l. (ok tt, l))
                  (taken_load ctl id sq cq limit depth fuel latencies serves set (seen_at s s.p) s e
                    c lt r.2)),
          c',
          refl,
          refl,
          omega (arith, c.room),
        )
    | no room ↦
        let test : ((s.n - s.p) == depth) ≡ false = ground arith in
        (s, rw test refl, c, refl, refl, omega (arith, c.room, c.taken, c.read))
  ]

  -- A turn sends one command, from a part of the buffer.
  pub turn_lem :
      (ns_blocks duration : ℕ) (random write : Bool) (buffer : Dma) (t : Turn) (s : Spot)
      → 0 < ns_blocks
      → IsMapped buffer
      → depth * 4096 ≤ buffer.size
      → depth < fuel
      → Consistent sq limit depth s
      → s.n < limit
      → (s' : Spot) × (turn ctl fuel depth ns_blocks duration random write buffer t (at_spot s)
          ≡ (ok tt, at_spot s'))
        × Consistent sq limit depth s'
        × (s'.n ≡ s.n + 1)
        × (s'.total ≡ s.total + t.elapsed)
  unfolding turn
  turn_lem ns_blocks duration random write buffer t s pos mapped fits enough c more =
      let lba = u64 (pick random ns_blocks t * 8) in
      let polled =
        poll_all_lem ctl id sq cq limit depth fuel latencies serves set fuel s c
          (omega (arith, c.room, c.taken)) in
      let roomy = make_room_lem polled.0 ns_blocks duration random write buffer polled.2 in
      let s2 : Spot = roomy.0 in
      let s3 : Spot =
        one_more ctl id sq cq limit depth fuel latencies serves set
          (command_at ctl id sq cq limit depth fuel latencies serves set buffer lba write s2)
          t.elapsed s2 in
      let c2 : Consistent sq limit depth s2 = roomy.2 in
      let count : u64 (s2.n - s2.p + 1) ≡ s2.n + 1 - s2.p =
        omega (arith, c2.taken, c2.read, c2.bounded, set.countable, roomy.3, polled.3) in
      let counted : Work (Unit {0}) = update λ l. record l {
        total = l.total + t.elapsed;
        outstanding_ops = u64 (l.outstanding_ops + 1);
      } in
      (
        s3,
        rw (lt→ltb 0 ns_blocks pos) (
            bind-ok (poll_all ctl one_done fuel)
              (λ u.
                make_room ctl fuel depth ns_blocks duration random write buffer
                >> (submit_part buffer lba write >> counted))
              polled.1
            ∙ bind-ok (make_room ctl fuel depth ns_blocks duration random write buffer)
                (λ u. submit_part buffer lba write >> counted) roomy.1
            ∙ bind-ok (submit_part buffer lba write) (λ r. counted)
                (submit_part_lem ctl id sq cq limit depth fuel latencies serves set buffer lba write
                  s2 mapped fits c2 roomy.5)
            ∙ rw count refl),
        more-Consistent ctl id sq cq limit depth fuel latencies serves set
            (command_at ctl id sq cq limit depth fuel latencies serves set buffer lba write s2)
            t.elapsed s2 c2 (omega (arith, roomy.3, polled.3)) roomy.5,
        ap (λ k. k + 1) (roomy.3 ∙ polled.3),
        ap (λ k. k + t.elapsed) (roomy.4 ∙ polled.4),
      )
