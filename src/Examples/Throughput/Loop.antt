-- ===== src/Examples/Throughput/Loop.antt =====
-- The loop of a thread, turn after turn.
use vroom.Common.{
  ℕ, zero, suc, ◌+◌, ◌*◌, ◌≤◌, ◌<◌, ◌≡◌, ◌∙◌, ap, Bool, true, false, List, [], ◌∷◌, if◌then◌else◌,
  ltb, lt→ltb, length, take, arith,
}
use native.Mathlib.Decide.{dec_lt}
use vroom.Common.Stateful.{bind-ok, ◌>>◌}
use vroom.Common.Outcome.{Outcome, ok, spin}
use vroom.Memory.Dma.{Dma}
use vroom.Memory.Dma.Views.{IsMapped}
use vroom.Host.{Controller}
use vroom.Queues.Submission.{SubmissionQueue}
use vroom.Queues.Completion.{CompletionQueue}
use vroom.Examples.{Turn, Load, Work}
use vroom.Examples.Throughput.{turn, turns}
use vroom.Examples.Throughput.Steps.{Serves, Spot, load_at, Consistent, Setting}
use vroom.Examples.Throughput.Turns.{turn_lem}

-- The time that turns take together.
abbrev pub spent : List Turn → ℕ
spent [] = 0
spent (t ∷ ts) = t.elapsed + spent ts

-- The first `m` of the turns at hand are made: the time is up after them, and not before.
pub record Made (duration total : ℕ) (ts : List Turn) (m : ℕ) : Type 0 where
  pub few : m ≤ length ts
  pub up : duration ≤ total + spent (take m ts)
  pub still : (j : ℕ) → j < m → total + spent (take j ts) < duration

more-Made :
    (duration total total' m : ℕ) (t : Turn) (ts : List Turn)
    → total < duration
    → total' ≡ total + t.elapsed
    → Made duration total' ts m
    → Made duration total (t ∷ ts) (suc m)
more-Made duration total total' m t ts lt e made = record {
  few = omega (arith, made.few);
  up = omega (arith, made.up);
  still = earlier;
}
  where
    earlier : (j : ℕ) → j < suc m → total + spent (take j (t ∷ ts)) < duration
    earlier zero h = omega arith
    earlier (suc j) h = omega (arith, made.still j (omega arith))

module _ (ctl : Controller) (id : ℕ) (sq : SubmissionQueue) (cq : CompletionQueue)
    (limit depth fuel latencies : ℕ) (serves : Serves ctl sq cq limit depth fuel)
    (set : Setting sq cq limit depth) (ns_blocks duration : ℕ) (random write : Bool)
    (buffer : Dma) where
  abbrev at_spot : Spot → Load
  at_spot s = load_at id sq cq latencies s

  abbrev turns_of : List Turn → Work (Unit {0})
  turns_of ts = turns ctl fuel depth ns_blocks duration random write buffer ts

  abbrev turn_of : Turn → Work (Unit {0})
  turn_of t = turn ctl fuel depth ns_blocks duration random write buffer t

  abbrev next_turn : Turn → List Turn → Spot → Bool → Outcome (Unit {0}) × Load
  next_turn t ts s b = elim b [
    | true ↦ (turn_of t >> turns_of ts) (at_spot s)
    | false ↦ (ok tt, at_spot s)
  ]

  turns_step :
      (t : Turn) (ts : List Turn) (s : Spot) (l : Load)
      → s.total < duration
      → turn_of t (at_spot s) ≡ (ok tt, l)
      → turns_of (t ∷ ts) (at_spot s) ≡ turns_of ts l
  unfolding turns
  turns_step t ts s l lt e =
      ap (next_turn t ts s) (lt→ltb s.total duration lt) ∙ bind-ok (turn_of t) (λ u. turns_of ts) e

  turns_end :
      (ts : List Turn) (s : Spot)
      → ltb s.total duration ≡ false
      → turns_of ts (at_spot s) ≡ (ok tt, at_spot s)
  unfolding turns
  turns_end [] s up = ap (λ b. ((if b then spin else ok tt), at_spot s)) up
  turns_end (t ∷ ts) s up = ap (next_turn t ts s) up

  -- The loop ends when the time is up, one command for each turn.
  pub turns_lem :
      (ts : List Turn) (s : Spot)
      → 0 < ns_blocks
      → IsMapped buffer
      → depth * 4096 ≤ buffer.size
      → depth < fuel
      → Consistent sq limit depth s
      → s.n + length ts ≤ limit
      → duration ≤ s.total + spent ts
      → (m : ℕ) × (s' : Spot) × (turns_of ts (at_spot s) ≡ (ok tt, at_spot s'))
        × Consistent sq limit depth s'
        × (s'.n ≡ s.n + m)
        × Made duration s.total ts m
  turns_lem [] s pos mapped fits enough c all long = (
    0,
    s,
    turns_end [] s (ground arith),
    c,
    omega arith,
    record { few = omega arith; up = long; still = λ j h. absurd (omega arith) },
  )
  turns_lem (t ∷ ts) s pos mapped fits enough c all long = elim (dec_lt s.total duration) [
    | yes lt ↦
        let i =
          turn_lem ctl id sq cq limit depth fuel latencies serves set ns_blocks duration random
            write buffer t s pos mapped fits enough c (omega arith) in
        let s2 : Spot = i.0 in
        let r =
          turns_lem ts s2 pos mapped fits enough i.2 (omega (arith, i.3)) (omega (arith, i.4)) in
        (
          suc r.0,
          r.1,
          turns_step t ts s (at_spot s2) lt i.1 ∙ r.2,
          r.3,
          omega (arith, r.4, i.3),
          more-Made duration s.total s2.total r.0 t ts lt i.4 r.5,
        )
    | no up ↦ (
      0,
      s,
      turns_end (t ∷ ts) s (ground arith),
      c,
      omega arith,
      record { few = omega arith; up = omega arith; still = λ j h. absurd (omega arith) },
    )
  ]
