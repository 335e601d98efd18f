-- ===== src/Examples/Throughput/Steps.antt =====
-- One turn of a load, seen by the numbers of the commands that it has submitted and of the
-- completions that it has taken.
use vroom.Common.{
  ℕ, zero, suc, ◌+◌, ◌-◌, ◌%◌, ◌^◌, ◌≤◌, ◌<◌, ◌≡◌, ◌≢◌, refl, ◌∙◌, ap, true, false, Option, none,
  some, List, [], ◌∷◌, Bool-cases, inl, inr, ◌==◌, if◌then◌else◌, arith,
}
use native.Mathlib.Decide.{dec_lt}
use vroom.Common.Words.{u32, u64, sub_u64}
use vroom.Common.Stateful.{bind-ok, pure, ◌>>◌}
use vroom.Common.Outcome.{ok}
use vroom.Command.{NvmeCommand}
use vroom.Host.{Host, Controller}
use vroom.Queues.Entry.{NvmeCompletion}
use vroom.Queues.Submission.{SubmissionQueue}
use vroom.Queues.Completion.{CompletionQueue, CqMemory}
use vroom.Queues.Completion.Position.{At, is_posted, after, after-At}
use vroom.Pair.{NvmeQueuePair, quick_poll}
use vroom.Pair.Complete.{taken_pair, rung_host, quick_poll_lem}
use vroom.Examples.{Load, Work, on_pair, on_pair-ok, update, one_done, poll_all}

-- The number of writes to the register at `address`.
abbrev pub writes : ℕ → List (ℕ × ℕ) → ℕ
writes address [] = 0
writes address ((a, v) ∷ log) =
    if a == address then suc (writes address log) else writes address log

-- The entries of the completion queue `cq` after the writes `log`, at time `t`.
abbrev pub shown : Controller → CompletionQueue → List (ℕ × ℕ) → ℕ → CqMemory
shown ctl cq log t = ctl.completions log t cq.commands.virt

-- A controller that serves a queue pair, as the NVMe specification wants it, while at most `limit`
-- commands are submitted and at most `depth` of them are not taken: `n` is the number of doorbell
-- writes, which is that of the commands. An entry is posted only for a submitted command, it reports a head of the submission
-- queue behind that command and not behind the tail, and it is seen within `fuel` polls.
pub record Serves (ctl : Controller) (sq : SubmissionQueue) (cq : CompletionQueue)
    (limit depth fuel : ℕ) : Type 0 where
  pub idle :
      (log : List (ℕ × ℕ)) (t n : ℕ)
      → writes sq.doorbell log ≡ n
      → n ≤ limit
      → is_posted (shown ctl cq log t) cq.len n ≡ false
  pub fetched : List (ℕ × ℕ) → ℕ → ℕ → ℕ
  pub reports :
      (log : List (ℕ × ℕ)) (t n p : ℕ)
      → writes sq.doorbell log ≡ n
      → n ≤ limit
      → p < n
      → n ≤ p + depth
      → is_posted (shown ctl cq log t) cq.len p ≡ true
      → (p < fetched log t p)
        × (fetched log t p ≤ n)
        × ((shown ctl cq log t (p % cq.len)).sq_head ≡ fetched log t p % sq.len)
  pub delay : List (ℕ × ℕ) → ℕ → ℕ → ℕ
  pub answers :
      (log : List (ℕ × ℕ)) (t n p : ℕ)
      → writes sq.doorbell log ≡ n
      → n ≤ limit
      → p < n
      → n ≤ p + depth
      → (delay log t p < fuel)
        × ((j : ℕ) → j < delay log t p → is_posted (shown ctl cq log (t + j)) cq.len p ≡ false)
        × (is_posted (shown ctl cq log (t + delay log t p)) cq.len p ≡ true)

-- Where a thread stands: `n` commands submitted, `p` completions taken, the first `f` commands
-- read by the controller, as far as the driver knows.
pub record Spot : Type 0 where
  pub n : ℕ
  pub p : ℕ
  pub f : ℕ
  pub entries : ℕ → NvmeCommand
  pub log : List (ℕ × ℕ)
  pub clock : ℕ
  pub total : ℕ

-- The variables of a thread there, with the queues `sq` and `cq`.
abbrev pub load_at : ℕ → SubmissionQueue → CompletionQueue → ℕ → Spot → Load
load_at id sq cq latencies s = record {
  qpair = record {
    id = id;
    sub_queue = record sq { entries = s.entries; head = s.f % sq.len; tail = s.n % sq.len };
    comp_queue = after s.p cq;
  };
  host = record { log = s.log; clock = s.clock };
  outstanding_ops = s.n - s.p;
  total_io_ops = s.p;
  total = s.total;
  latencies = latencies;
}

pub record Consistent (sq : SubmissionQueue) (limit depth : ℕ) (s : Spot) : Type 0 where
  pub taken : s.p ≤ s.f
  pub read : s.f ≤ s.n
  pub bounded : s.n ≤ limit
  pub room : s.n ≤ s.p + depth
  pub rung : writes sq.doorbell s.log ≡ s.n

-- The fixed parts: the queues, of one length and with different doorbells, fewer operations at a
-- time than the queues have slots, and fewer altogether than a counter holds.
pub record Setting (sq : SubmissionQueue) (cq : CompletionQueue) (limit depth : ℕ) : Type 0 where
  pub start : At 0 cq
  pub same_len : sq.len ≡ cq.len
  pub apart : cq.doorbell ≢ sq.doorbell
  pub some_ops : 0 < depth
  pub slots : depth < cq.len
  pub countable : limit < 2 ^ 64

-- One round of the polling loop.
poll_round :
    (ctl : Controller) (each : Load → Load) (fuel : ℕ) (l : Load) {r : Option (Unit {0})}
    {qp : NvmeQueuePair} {h : Host}
    → quick_poll ctl l.qpair l.host ≡ ok (r, qp, h)
    → poll_all ctl each (suc fuel) l
      ≡ (elim r as (λ x. Work (Unit {0})) [
        | none ↦ pure tt
        | some u ↦ (do update each; poll_all ctl each fuel)
      ])
          (record l { qpair = qp; host = h })
unfolding poll_all
poll_round ctl each fuel l e =
    bind-ok (on_pair (quick_poll ctl))
      (λ r. elim r as (λ x. Work (Unit {0})) [
        | none ↦ pure tt
        | some u ↦ (do update each; poll_all ctl each fuel)
      ])
      (on_pair-ok (quick_poll ctl) l e)

module _ (ctl : Controller) (id : ℕ) (sq : SubmissionQueue) (cq : CompletionQueue)
    (limit depth fuel latencies : ℕ) (serves : Serves ctl sq cq limit depth fuel)
    (set : Setting sq cq limit depth) where
  abbrev at_spot : Spot → Load
  at_spot s = load_at id sq cq latencies s

  -- The spot behind a completion seen at time `t`.
  abbrev pub one_taken : ℕ → Spot → Spot
  one_taken t s = record s {
    p = s.p + 1;
    f = serves.fetched s.log t s.p;
    log = (cq.doorbell, u32 ((s.p + 1) % cq.len)) ∷ s.log;
    clock = t + 1;
  }

  pub taken-Consistent :
      (t : ℕ) (s : Spot)
      → Consistent sq limit depth s
      → s.p < s.n
      → is_posted (shown ctl cq s.log t) cq.len s.p ≡ true
      → Consistent sq limit depth (one_taken t s)
  taken-Consistent t s c lt posted =
      let r = serves.reports s.log t s.n s.p c.rung c.bounded lt c.room posted in
      ground (arith, r, c.rung, set.apart, c.bounded, c.room)

  -- The variables of the thread behind a completion.
  pub taken_load :
      (t : ℕ) (s : Spot) (e : NvmeCompletion)
      → Consistent sq limit depth s
      → s.p < s.n
      → e.sq_head ≡ serves.fetched s.log t s.p % sq.len
      → one_done (record (at_spot s) {
        qpair = taken_pair (at_spot s).qpair s.p e;
        host = rung_host (at_spot s).qpair (at_spot s).host s.p (t + 1);
      })
        ≡ at_spot (one_taken t s)
  taken_load t s e c lt head =
      let less : sub_u64 (s.n - s.p) 1 ≡ s.n - (s.p + 1) =
        omega (arith, c.bounded, set.countable) in
      let more : u64 (s.p + 1) ≡ s.p + 1 = omega (arith, c.bounded, set.countable) in
      rw (head, less, more) refl

  poll_step :
      (fuel' : ℕ) (s : Spot)
      → Consistent sq limit depth s
      → s.p < s.n
      → is_posted (shown ctl cq s.log s.clock) cq.len s.p ≡ true
      → poll_all ctl one_done (suc fuel') (at_spot s)
        ≡ poll_all ctl one_done fuel' (at_spot (one_taken s.clock s))
  poll_step fuel' s c lt posted =
      let qp = (at_spot s).qpair in
      let quick =
        ((quick_poll_lem ctl qp (at_spot s).host s.p (after-At set.start s.p) (λ e. "")).0
          posted).0 in
      let r = serves.reports s.log s.clock s.n s.p c.rung c.bounded lt c.room posted in
      let e = shown ctl cq s.log s.clock (s.p % cq.len) in
      poll_round ctl one_done fuel' (at_spot s) quick
      ∙ ap (poll_all ctl one_done fuel') (taken_load s.clock s e c lt r.2)

  poll_stop :
      (fuel' : ℕ) (s : Spot)
      → is_posted (shown ctl cq s.log s.clock) cq.len s.p ≡ false
      → poll_all ctl one_done (suc fuel') (at_spot s)
        ≡ (ok tt, at_spot (record s { clock = s.clock + 1 }))
  poll_stop fuel' s empty =
      let qp = (at_spot s).qpair in
      let quick =
        ((quick_poll_lem ctl qp (at_spot s).host s.p (after-At set.start s.p) (λ e. "")).1
          empty).0 in
      poll_round ctl one_done fuel' (at_spot s) quick

  -- Polling takes what has come, and ends.
  pub poll_all_lem :
      (fuel' : ℕ) (s : Spot)
      → Consistent sq limit depth s
      → s.n - s.p < fuel'
      → (s' : Spot) × (poll_all ctl one_done fuel' (at_spot s) ≡ (ok tt, at_spot s'))
        × Consistent sq limit depth s'
        × (s'.n ≡ s.n)
        × (s'.total ≡ s.total)
  poll_all_lem zero s c lt = absurd (omega arith)
  poll_all_lem (suc fuel') s c lt =
      elim (Bool-cases (is_posted (shown ctl cq s.log s.clock) cq.len s.p)) [
        | inl posted ↦
            let more : s.p < s.n = unfinished s c posted in
            let c' = taken-Consistent s.clock s c more posted in
            let i = poll_all_lem fuel' (one_taken s.clock s) c' (omega (arith, more)) in
            (i.0, poll_step fuel' s c more posted ∙ i.1, i.2, i.3, i.4)
        | inr empty ↦ (
          record s { clock = s.clock + 1 },
          poll_stop fuel' s empty,
          record {
            taken = c.taken;
            read = c.read;
            bounded = c.bounded;
            room = c.room;
            rung = c.rung;
          },
          refl,
          refl,
        )
      ]
    where
      unfinished :
          (s : Spot)
          → Consistent sq limit depth s
          → is_posted (shown ctl cq s.log s.clock) cq.len s.p ≡ true
          → s.p < s.n
      unfinished s c posted = elim (dec_lt s.p s.n) [
        | yes lt ↦ lt
        | no ge ↦
            let all : s.p ≡ s.n = omega (arith, c.taken, c.read) in
            absurd (cc (all, posted, serves.idle s.log s.clock s.n c.rung c.bounded))
      ]
