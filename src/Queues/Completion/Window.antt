-- ===== src/Queues/Completion/Window.antt =====
-- The part of the completion ring that the device has filled and the driver has not yet taken: `n`
-- entries from position `p` on.
use native.Mathlib.Nat.{add-zero, div-eq_of_lt}
use native.Mathlib.Decide.{dec_lt}
use vroom.Common.{
  min, ℕ, suc, ◌+◌, ◌/◌, ◌%◌, ◌≤◌, ◌<◌, ◌≡◌, refl, sym, Bool, true, false, not, arith, same,
}
use vroom.Common.Slots.{is_even, update, update_self, update_ne, slot-ne, lap_later}
use vroom.Queues.Entry.{queue_length, NvmeCompletion}
use vroom.Queues.Completion.{CompletionQueue, CqMemory, fresh, tag}
use vroom.Queues.Completion.Position.{At, is_posted, after, after-At, fresh-At}
use vroom.Common.Window.{later}
use vroom.Memory.Dma.{Dma}

-- Exactly the `n` positions from `p` on carry the tag of their lap.
pub record Holds (p n : ℕ) (mem : CqMemory) (q : CompletionQueue) : Type 0 where
  pub at : At p q
  pub room : n ≤ q.len
  pub posted : (k : ℕ) → k < n → is_posted mem q.len (p + k) ≡ true
  pub stale : (k : ℕ) → n ≤ k → k < q.len → is_posted mem q.len (p + k) ≡ false

-- A new queue over entries that all have the tag 0 holds nothing.
pub fresh-Holds :
    (c : Dma) (len d : ℕ) (mem : CqMemory)
    → 0 < len
    → ((i : ℕ) → tag (mem i) ≡ false)
    → Holds 0 0 mem (fresh c len d)
fresh-Holds c len d mem pos clear = record {
  at = fresh-At c len d pos;
  room = omega arith;
  posted = λ k lt. absurd (omega arith);
  stale = λ k _ lt. ground (arith, clear ((0 + k) % min len queue_length), first_lap k lt);
}
  where
    first_lap : (k : ℕ) → k < min len queue_length → is_even ((0 + k) / min len queue_length) ≡ true
    first_lap k lt =
        let e : 0 + k ≡ k = omega arith in rw (e, div-eq_of_lt lt) (unfold is_even in refl)

same_self : (a : Bool) → same a a ≡ true
same_self a = ground arith

same-not : (a b : Bool) → same a b ≡ true → same a (not b) ≡ false
same-not a b h = ground arith

-- One lap behind an entry that is posted its slot looks stale.
stale_later :
    (mem : CqMemory) (len p : ℕ)
    → 0 < len
    → is_posted mem len p ≡ true
    → is_posted mem len (p + len) ≡ false
stale_later mem len p pos h = rw ((lap_later len p pos).0, (lap_later len p pos).1) (same-not _ _ h)

-- The driver takes the oldest entry.
pub take-Holds :
    {p n : ℕ} {mem : CqMemory} {q : CompletionQueue}
    → Holds p (suc n) mem q
    → Holds (p + 1) n mem (after (p + 1) q)
take-Holds {p} {n} {mem} {q} h = record {
  at = after-At h.at (p + 1);
  room = omega (arith, h.room);
  posted = λ k lt. rw (later p k) at (h.posted (suc k) (omega arith));
  stale = λ k le lt. elim (dec_lt (suc k) q.len) [
    | yes near ↦ rw (later p k) at (h.stale (suc k) (omega arith) near)
    | no last ↦
        let lap : p + 1 + k ≡ p + q.len = omega arith in
        rw lap (stale_later mem q.len p h.at.positive (rw add-zero at (h.posted 0 (omega arith))))
  ];
}

-- The device posts behind the newest entry.
pub post-Holds :
    {p n : ℕ} {mem : CqMemory} {q : CompletionQueue} (e : NvmeCompletion)
    → Holds p n mem q
    → n < q.len
    → tag e ≡ is_even ((p + n) / q.len)
    → Holds p (suc n) (update mem ((p + n) % q.len) e) q
post-Holds {p} {n} {mem} {q} e h lt tagged = record {
  at = h.at;
  room = lt;
  posted = λ k lt'. elim (dec_lt k n) [
    | yes old ↦
        rw
          (update_ne mem e (λ s. slot-ne q.len (p + k) (p + n) (omega arith) (omega arith) (sym s)))
          (h.posted k old)
    | no new ↦
        let last : k ≡ n = omega arith in
        rw (last, update_self mem ((p + n) % q.len) e, tagged)
          (same_self (is_even ((p + n) / q.len)))
  ];
  stale = λ k le lt'.
      rw (update_ne mem e (slot-ne q.len (p + n) (p + k) (omega arith) (omega arith)))
        (h.stale k (omega arith) lt');
}
