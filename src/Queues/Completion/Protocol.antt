-- ===== src/Queues/Completion/Protocol.antt =====
-- The completion queue together with the device that fills it. The device is not in the repository;
-- of it we take what the NVMe specification says: it posts its `w`-th entry into slot `w % len`,
-- with the phase tag 1 on the even laps and 0 on the odd ones, and only while fewer than `len`
-- entries wait to be taken. All interleavings of posts and calls of `complete` are possible.
use mathlib.Core.List.{append_assoc}
use native.Mathlib.Nat.{add-zero}
use vroom.Common.{
  ℕ, zero, suc, ◌+◌, ◌/◌, ◌%◌, ◌<◌, ◌≡◌, refl, sym, ◌∙◌, ap, false, none, some, List, [], ◌∷◌, ◌++◌,
  length, length-append, arith,
}
use vroom.Common.Slots.{is_even, update}
use vroom.Common.Window.{window, window-update, length-window}
use vroom.Common.Outcome.{ok}
use vroom.Memory.Dma.{Dma}
use vroom.Queues.Entry.{NvmeCompletion}
use vroom.Queues.Completion.{CompletionQueue, CqMemory, Completed, fresh, tag, complete}
use vroom.Queues.Completion.Position.{after, complete_lem}
use vroom.Queues.Completion.Window.{Holds, fresh-Holds, take-Holds, post-Holds}

-- `posted` is what the device has posted and `taken` what the driver has taken, oldest first.
pub record Ring : Type 0 where
  pub queue : CompletionQueue
  pub mem : CqMemory
  pub posted : List NvmeCompletion
  pub taken : List NvmeCompletion

pub data Step (r s : Ring) : Type 0 where
  post :
      (e : NvmeCompletion)
      → tag e ≡ is_even (length r.posted / r.queue.len)
      → length r.posted < length r.taken + r.queue.len
      → s ≡ record r {
        mem = update r.mem (length r.posted % r.queue.len) e;
        posted = r.posted ++ (e ∷ []);
      }
      → Step r s
  take :
      (c : Completed) (q : CompletionQueue)
      → complete r.mem r.queue ≡ ok (some c, q)
      → s ≡ record r { queue = q; taken = r.taken ++ (c.1 ∷ []) }
      → Step r s
  poll :
      (q : CompletionQueue)
      → complete r.mem r.queue ≡ ok (none, q)
      → s ≡ record r { queue = q }
      → Step r s

pub data Reach (r : Ring) : Ring → Type 0 where
  here : Reach r r
  next : {s t : Ring} → Reach r s → Step s t → Reach r t

abbrev pub start : Dma → ℕ → ℕ → CqMemory → Ring
start commands len doorbell mem = record {
  queue = fresh commands len doorbell;
  mem = mem;
  posted = [];
  taken = [];
}

record Inv (r : Ring) : Type 0 where
  waiting : ℕ
  holds : Holds (length r.taken) waiting r.mem r.queue
  order : r.posted ≡ r.taken ++ window r.mem r.queue.len (length r.taken) waiting

posted_len : {r : Ring} (v : Inv r) → length r.posted ≡ length r.taken + v.waiting
posted_len {r} v =
    ap length v.order
    ∙ length-append r.taken (window r.mem r.queue.len (length r.taken) v.waiting)
    ∙ ap (λ n. length r.taken + n) (length-window r.mem r.queue.len (length r.taken) v.waiting)

length_snoc :
    (es : List NvmeCompletion) (e : NvmeCompletion) → length (es ++ (e ∷ [])) ≡ length es + 1
length_snoc es e = length-append es (e ∷ []) ∙ omega arith

post-Inv :
    (r : Ring) (e : NvmeCompletion)
    → Inv r
    → tag e ≡ is_even (length r.posted / r.queue.len)
    → length r.posted < length r.taken + r.queue.len
    → Inv (record r {
      mem = update r.mem (length r.posted % r.queue.len) e;
      posted = r.posted ++ (e ∷ []);
    })
post-Inv r e v tagged room = record {
  waiting = suc v.waiting;
  holds = rw (posted_len v) (post-Holds e v.holds free (rw (posted_len v) at tagged));
  order =
      ap (λ l. l ++ (e ∷ [])) v.order
      ∙ append_assoc r.taken (window r.mem r.queue.len (length r.taken) v.waiting) (e ∷ [])
      ∙ ap (λ l. r.taken ++ l)
          (sym (
            window-update r.mem r.queue.len (length r.taken) v.waiting
              (length r.posted % r.queue.len) e free (ap (λ k. k % r.queue.len) (posted_len v))));
}
  where
    free : v.waiting < r.queue.len
    free = omega (arith, posted_len v)

-- What `complete` answers in front of the entries that wait: none of them, or the oldest.
abbrev pub Answers : Ring → List NvmeCompletion → Type 0
Answers r [] = complete r.mem r.queue ≡ ok (none, r.queue)
Answers r (e ∷ _) =
    (slot : ℕ) × (complete r.mem r.queue
      ≡ ok (some ((length r.taken + 1) % r.queue.len, e, slot), after (length r.taken + 1) r.queue))

Holds-Answers :
    (r : Ring) (n : ℕ)
    → Holds (length r.taken) n r.mem r.queue
    → Answers r (window r.mem r.queue.len (length r.taken) n)
Holds-Answers r zero h =
    (complete_lem h.at r.mem).1 (rw add-zero at (h.stale 0 (omega arith) h.at.positive))
Holds-Answers r (suc n) h = (
  length r.taken % r.queue.len,
  (complete_lem h.at r.mem).0 (rw add-zero at (h.posted 0 (omega arith))),
)

take-Inv :
    (r : Ring) (n : ℕ) (c : Completed) (q : CompletionQueue)
    → Holds (length r.taken) n r.mem r.queue
    → r.posted ≡ r.taken ++ window r.mem r.queue.len (length r.taken) n
    → complete r.mem r.queue ≡ ok (some c, q)
    → Inv (record r { queue = q; taken = r.taken ++ (c.1 ∷ []) })
take-Inv r zero c q h order e = absurd (cc (Holds-Answers r zero h, e))
take-Inv r (suc n) c q h order e = record {
  waiting = n;
  holds = rw (same_queue, length_snoc r.taken c.1) (take-Holds h);
  order =
      rw (same_queue, length_snoc r.taken c.1, same_entry)
        (order ∙ sym (append_assoc r.taken (r.mem (length r.taken % r.queue.len) ∷ []) _));
}
  where
    same_queue : q ≡ after (length r.taken + 1) r.queue
    same_queue = ground (arith, Holds-Answers r (suc n) h)

    same_entry : c.1 ≡ r.mem (length r.taken % r.queue.len)
    same_entry = ground (arith, Holds-Answers r (suc n) h)

poll-Inv :
    (r : Ring) (n : ℕ) (q : CompletionQueue)
    → Holds (length r.taken) n r.mem r.queue
    → r.posted ≡ r.taken ++ window r.mem r.queue.len (length r.taken) n
    → complete r.mem r.queue ≡ ok (none, q)
    → Inv (record r { queue = q })
poll-Inv r zero q h order e =
    let same_queue : q ≡ r.queue = cc (Holds-Answers r zero h, e) in
    rw same_queue (record { waiting = zero; holds = h; order = order })
poll-Inv r (suc n) q h order e = absurd (cc ((Holds-Answers r (suc n) h).1, e))

Step-Inv : {r s : Ring} → Step r s → Inv r → Inv s
Step-Inv {r} (post e tagged room eq) v = rw eq (post-Inv r e v tagged room)
Step-Inv {r} (take c q e eq) v = rw eq (take-Inv r v.waiting c q v.holds v.order e)
Step-Inv {r} (poll q e eq) v = rw eq (poll-Inv r v.waiting q v.holds v.order e)

Reach-Inv : {r s : Ring} → Reach r s → Inv r → Inv s
Reach-Inv here v = v
Reach-Inv (next reach step) v = Step-Inv step (Reach-Inv reach v)

-- Whatever the order in which the device posts and the driver polls, from a new queue (of at least
-- one entry) over memory that is clear: the driver has taken, each once and in the order of
-- posting, exactly a first part of what the device has posted; and when it calls `complete` next, it
-- gets the oldest of the entries that wait, or nothing if none waits, never a stale entry.
pub Reach-fifo :
    (commands : Dma) (len doorbell : ℕ) (mem : CqMemory) (r : Ring)
    → 0 < len
    → ((i : ℕ) → tag (mem i) ≡ false)
    → Reach (start commands len doorbell mem) r
    → (waiting : List NvmeCompletion) × (r.posted ≡ r.taken ++ waiting) × Answers r waiting
Reach-fifo commands len doorbell mem r pos clear reach = (
  window r.mem r.queue.len (length r.taken) v.waiting,
  v.order,
  Holds-Answers r v.waiting v.holds,
)
  where
    v : Inv r
    v = Reach-Inv reach (record {
      waiting = 0;
      holds = fresh-Holds commands len doorbell mem pos clear;
      order = refl;
    })
