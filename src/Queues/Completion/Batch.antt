-- ===== src/Queues/Completion/Batch.antt =====
-- `complete_n`, which takes a batch of entries and looks at the last one only, against taking the
-- entries one by one.
use native.Mathlib.Nat.{add-zero, mod-add-mod}
use vroom.Common.{
  ℕ, zero, suc, ◌+◌, ◌%◌, ◌<◌, ◌≡◌, refl, ◌∙◌, ap, true, false, some, none, arith, List, [], ◌∷◌,
  Option, length, lt→ltb,
}
use vroom.Common.Slots.{parity_jump}
use vroom.Common.Window.{later}
use vroom.Common.Outcome.{Outcome, ok, spin, ◌>>=◌}
use vroom.Queues.Completion.{CompletionQueue, CqMemory, Completed, complete, complete_n, skip}
use vroom.Queues.Completion.Position.{
  At, is_posted, after, complete_lem, after-At, after_self, head-lt,
}
use vroom.Queues.Completion.Spin.{complete_spin_found, complete_spin_waits}

module _ {p : ℕ} {q : CompletionQueue} (at : At p q) where
  -- Skipping fewer entries than the ring holds is a jump of the position.
  skip-after : (m : ℕ) → m < q.len → skip (suc m) q ≡ after (p + m) q
  unfolding skip
  skip-after m lt = ground (
    arith,
    at.positive,
    at.bounded,
    at.head_at,
    at.phase_at,
    head-lt at,
    mod-add-mod p q.len m,
    parity_jump q.len p m at.positive lt,
  )

  -- `complete_n` of `m + 1` entries, at most the length of the ring: it waits for the last entry of
  -- the batch alone, and ends right after the first poll `k` that sees it. The result is that entry,
  -- the head behind it and the slot where the batch began; the queue has taken `m + 1` more entries,
  -- with the phase turned exactly if the batch went round the end of the ring.
  pub complete_n_lem :
      (view : ℕ → CqMemory) (m k fuel t : ℕ)
      → m < q.len
      → k < fuel
      → ((j : ℕ) → j < k → is_posted (view (t + j)) q.len (p + m) ≡ false)
      → is_posted (view (t + k)) q.len (p + m) ≡ true
      → complete_n view fuel t (suc m) q
        ≡ ok (
          ((p + m + 1) % q.len, view (t + k) ((p + m) % q.len), p % q.len),
          after (p + m + 1) q,
          t + k + 1,
        )
  unfolding complete_n
  complete_n_lem view m k fuel t lt lt' before seen =
      rw
        (
          lt→ltb 0 q.len at.positive,
          skip-after m lt,
          complete_spin_found view (after-At at (p + m)) k fuel t lt' before seen,
        )
        (cc at.head_at)

  -- While that last entry is not seen, the call does not end.
  pub complete_n_waits :
      (view : ℕ → CqMemory) (m fuel t : ℕ)
      → m < q.len
      → ((j : ℕ) → j < fuel → is_posted (view (t + j)) q.len (p + m) ≡ false)
      → complete_n view fuel t (suc m) q ≡ spin
  unfolding complete_n
  complete_n_waits view m fuel t lt none_seen =
      rw
        (
          lt→ltb 0 q.len at.positive,
          skip-after m lt,
          complete_spin_waits view (after-At at (p + m)) fuel t none_seen,
        )
        refl

-- Taking `n` entries one by one, or as many as are posted.
unfoldable pub complete_each :
    CqMemory → ℕ → CompletionQueue → Outcome (List Completed × CompletionQueue)
complete_each mem zero q = ok ([], q)
complete_each mem (suc n) q = do
  (r, q') ← complete mem q
  elim r [ none ↦ ok ([], q') | some c ↦ do (cs, q'') ← complete_each mem n q'; ok (c ∷ cs, q'') ]

-- What `n` single calls return from position `p` on, when all are posted.
abbrev pub entries : CqMemory → ℕ → ℕ → ℕ → List Completed
entries mem len p zero = []
entries mem len p (suc n) = ((p + 1) % len, mem (p % len), p % len) ∷ entries mem len (p + 1) n

length-entries : (mem : CqMemory) (len p n : ℕ) → length (entries mem len p n) ≡ n
length-entries mem len p zero = refl
length-entries mem len p (suc n) = ap suc (length-entries mem len (p + 1) n)

complete_each_lem :
    (mem : CqMemory) (n : ℕ) {p : ℕ} {q : CompletionQueue}
    → At p q
    → ((j : ℕ) → j < n → is_posted mem q.len (p + j) ≡ true)
    → complete_each mem n q ≡ ok (entries mem q.len p n, after (p + n) q)
unfolding complete_each
complete_each_lem mem zero {p} {q} at posted = rw add-zero (ap (λ r. ok ([], r)) (after_self at))
complete_each_lem mem (suc n) {p} {q} at posted =
    let now : is_posted mem q.len p ≡ true = rw add-zero at (posted 0 (omega arith)) in
    rw
      (
        (complete_lem at mem).0 now,
        complete_each_lem mem n (after-At at (p + 1))
            (λ j h. rw (later p j) at (posted (suc j) (omega arith))),
        later p n,
      )
      refl

abbrev pub last? : List Completed → Option Completed
last? [] = none
last? (c ∷ []) = some c
last? (c ∷ d ∷ cs) = last? (d ∷ cs)

last-entries :
    (mem : CqMemory) (len m p : ℕ)
    → last? (entries mem len p (suc m))
      ≡ some ((p + m + 1) % len, mem ((p + m) % len), (p + m) % len)
last-entries mem len zero p = rw add-zero refl
last-entries mem len (suc m) p = rw (later p m) (last-entries mem len m (p + 1))

-- If all `m + 1` entries of a batch, at most the length of the ring, are posted when `complete_n`
-- first looks, it does at once what `m + 1` calls of `complete` do one after the other: it leaves
-- the same queue, and returns the head and the entry of the last of these calls. The entries before
-- the last are taken and not returned.
pub complete_n-eq-each :
    (view : ℕ → CqMemory) (m fuel t : ℕ) {p : ℕ} {q : CompletionQueue}
    → At p q
    → m < q.len
    → ((j : ℕ) → j < suc m → is_posted (view t) q.len (p + j) ≡ true)
    → (cs : List Completed) × (c : Completed) × (q' : CompletionQueue) × (complete_each
          (view t)
          (suc m)
          q
        ≡ ok (cs, q'))
      × (length cs ≡ suc m)
      × (last? cs ≡ some c)
      × (complete_n view (suc fuel) t (suc m) q ≡ ok ((c.0, c.1, q.head), q', t + 1))
complete_n-eq-each view m fuel t {p} {q} at lt posted = (
  entries (view t) q.len p (suc m),
  ((p + m + 1) % q.len, view t ((p + m) % q.len), (p + m) % q.len),
  after (p + suc m) q,
  complete_each_lem (view t) (suc m) at posted,
  length-entries (view t) q.len p (suc m),
  last-entries (view t) q.len m p,
  at_once,
)
  where
    grown : p + suc m ≡ p + m + 1
    grown = omega arith

    at_once :
        complete_n view (suc fuel) t (suc m) q
        ≡ ok (((p + m + 1) % q.len, view t ((p + m) % q.len), q.head), after (p + suc m) q, t + 1)
    at_once =
        complete_n_lem at view m 0 (suc fuel) t lt (omega arith) (λ j h. absurd (omega arith))
          (rw add-zero (posted m (omega arith)))
        ∙ cc (add-zero t, at.head_at, grown)
