-- ===== src/Queues/Completion/Position.antt =====
-- A completion queue seen by the number `p` of the entries that it has taken: `p` fixes the slot of
-- the next entry and the phase tag that marks it as posted.
use vroom.Common.{
  ℕ, ◌+◌, ◌/◌, ◌%◌, ◌≤◌, ◌<◌, ◌≡◌, refl, Bool, true, false, none, some, arith, same, min,
}
use vroom.Common.Outcome.{ok}
use vroom.Common.Slots.{is_even, slot_step, parity_step}
use native.Mathlib.Nat.{mod-lt, zero-mod, zero-div}
use vroom.Memory.Dma.{Dma}
use vroom.Queues.Entry.{queue_length}
use vroom.Queues.Completion.{CompletionQueue, CqMemory, fresh, tag, advance, complete}

-- `q` has taken `p` entries since it was created.
pub record At (p : ℕ) (q : CompletionQueue) : Type 0 where
  pub positive : 0 < q.len
  pub bounded : q.len ≤ queue_length
  pub head_at : q.head ≡ p % q.len
  pub phase_at : q.phase ≡ is_even (p / q.len)

-- The slot that the `p`-th entry passes through carries the tag of the lap of `p`.
abbrev pub is_posted : CqMemory → ℕ → ℕ → Bool
is_posted mem len p = same (tag (mem (p % len))) (is_even (p / len))

-- The queue `q` when it has taken `p` entries.
abbrev pub after : ℕ → CompletionQueue → CompletionQueue
after p q = record q { head = p % q.len; phase = is_even (p / q.len) }

pub fresh-At : (c : Dma) (len d : ℕ) → 0 < len → At 0 (fresh c len d)
unfolding is_even
fresh-At c len d pos =
    ground (arith, zero-mod (min len queue_length), zero-div (min len queue_length))

module _ {p : ℕ} {q : CompletionQueue} (at : At p q) where
  pub head-lt : q.head < q.len
  head-lt = omega (arith, mod-lt p at.positive, at.head_at)

  pub after-At : (p' : ℕ) → At p' (after p' q)
  after-At p' = record {
    positive = at.positive;
    bounded = at.bounded;
    head_at = refl;
    phase_at = refl;
  }

  pub after_self : q ≡ after p q
  after_self = ground (arith, at.head_at, at.phase_at)

  advance-after : advance q ≡ after (p + 1) q
  advance-after =
      ground (arith, slot_step q.len p, parity_step q.len p at.positive, at.head_at, at.phase_at)

  -- `complete` reads slot `p % len` and no other. An entry that carries the tag of the lap is
  -- returned with its slot, and the queue has then taken `p + 1` entries; any other entry is left
  -- alone, and so is the queue. Neither a panic nor an index behind the array is possible.
  pub complete_lem :
      (mem : CqMemory)
      → (is_posted mem q.len p ≡ true
          → complete mem q
            ≡ ok (some ((p + 1) % q.len, mem (p % q.len), p % q.len), after (p + 1) q))
        × (is_posted mem q.len p ≡ false → complete mem q ≡ ok (none, q))
  unfolding complete
  complete_lem mem = ground (arith, head-lt, advance-after, slot_step q.len p)
