-- ===== src/Queues/Submission/Fifo.antt =====
-- A submission queue refines a bounded queue of commands.
use vroom.Common.{
  ℕ, ◌+◌, ◌-◌, ◌%◌, ◌≤◌, ◌<◌, ◌≡◌, refl, sym, ◌∙◌, true, false, Option, none, some, List, [], ◌∷◌,
  ◌++◌, length, drop, arith, ltb, lt→ltb, ◌==◌, if◌then◌else◌,
}
use native.Mathlib.Decide.{dec_lt}
use native.Mathlib.Nat.{mod-lt, mod-mod}
use vroom.Common.Outcome.{ok}
use vroom.Common.Window.{window, length-window, window-update, window-mod, drop-window}
use vroom.Command.{NvmeCommand}
use vroom.Queues.Submission.{SubmissionQueue, push, submit, submit_checked}
use vroom.Queues.Entry.{queue_length}
use vroom.Queues.Submission.Ring.{
  IsValid, distance_drop, outstanding, tail_slot, outstanding-lt, is_full-eq, outstanding-push,
  push-IsValid,
}

-- The commands that the device has not yet taken, oldest first.
abbrev pub contents : SubmissionQueue → List NvmeCommand
contents q = window q.entries q.len q.head (outstanding q)

-- A bounded queue of commands; `none` is a refusal.
unfoldable pub enqueue : ℕ → NvmeCommand → List NvmeCommand → Option (List NvmeCommand)
enqueue capacity entry es = if ltb (length es) capacity then some (es ++ (entry ∷ [])) else none

enqueue_room :
    (capacity : ℕ) (entry : NvmeCommand) (es : List NvmeCommand)
    → length es < capacity
    → enqueue capacity entry es ≡ some (es ++ (entry ∷ []))
unfolding enqueue
enqueue_room capacity entry es room = ground arith

enqueue_full :
    (capacity : ℕ) (entry : NvmeCommand) (es : List NvmeCommand)
    → ¬ (length es < capacity)
    → enqueue capacity entry es ≡ none
unfolding enqueue
enqueue_full capacity entry es full = ground arith

pub length-contents : (q : SubmissionQueue) → length (contents q) ≡ outstanding q
length-contents q = length-window q.entries q.len q.head (outstanding q)

-- What `submit_checked` does to a queue that holds `es`, by what the bounded queue answers.
abbrev pub Submits :
    SubmissionQueue → Option (List NvmeCommand) → Option ℕ × SubmissionQueue → Type 0
Submits q none (r, q') = (r ≡ none) × (q' ≡ q)
Submits q (some es) (r, q') =
    (r ≡ some q'.tail) × (contents q' ≡ es) × (q'.head ≡ q.head) × (q'.len ≡ q.len)

submit_lem :
    {q : SubmissionQueue} (entry : NvmeCommand)
    → IsValid q
    → submit entry q ≡ ok ((push entry q).tail, push entry q)
unfolding submit
submit_lem {q} entry v =
    let in_array : q.tail < queue_length = omega (arith, v.tail_in, v.bounded) in
    rw (lt→ltb _ _ in_array, lt→ltb _ _ v.positive) refl

pub submit_checked-none :
    {q : SubmissionQueue} (entry : NvmeCommand)
    → IsValid q
    → ¬ (outstanding q < q.len - 1)
    → submit_checked entry q ≡ ok (none, q)
unfolding submit_checked
submit_checked-none {q} entry v full =
    let used : (outstanding q == (q.len - 1)) ≡ true = ground (arith, outstanding-lt v) in
    rw (is_full-eq v, used) refl

pub submit_checked-some :
    {q : SubmissionQueue} (entry : NvmeCommand)
    → IsValid q
    → outstanding q < q.len - 1
    → submit_checked entry q ≡ ok (some (push entry q).tail, push entry q)
unfolding submit_checked
submit_checked-some {q} entry v room =
    let unused : (outstanding q == (q.len - 1)) ≡ false = ground arith in
    rw (is_full-eq v, unused, submit_lem entry v) refl

pub contents-push :
    {q : SubmissionQueue} (entry : NvmeCommand)
    → IsValid q
    → outstanding q < q.len - 1
    → contents (push entry q) ≡ contents q ++ (entry ∷ [])
contents-push {q} entry v room =
    rw (outstanding-push v entry room) (
      window-update q.entries q.len q.head (outstanding q) q.tail entry (omega arith) (tail_slot v))

-- `submit_checked` on a valid queue never panics and keeps the queue valid. It answers like the
-- queue of at most `len - 1` commands: when it holds that many it refuses and changes nothing, and
-- else the new command stands behind those that were outstanding, none of which is lost or
-- overwritten, and the new tail is returned.
pub submit_checked-Submits :
    (q : SubmissionQueue) (entry : NvmeCommand)
    → IsValid q
    → (r : Option ℕ) × (q' : SubmissionQueue) × (submit_checked entry q ≡ ok (r, q'))
      × IsValid q'
      × Submits q (enqueue (q.len - 1) entry (contents q)) (r, q')
submit_checked-Submits q entry v = elim (dec_lt (outstanding q) (q.len - 1)) [
  | yes room ↦ (
    some (push entry q).tail,
    push entry q,
    submit_checked-some entry v room,
    push-IsValid v entry,
    rw (enqueue_room (q.len - 1) entry (contents q) (rw (length-contents q) room))
        (refl, contents-push entry v room, refl, refl),
  )
  | no full ↦ (
    none,
    q,
    submit_checked-none entry v full,
    v,
    rw (enqueue_full (q.len - 1) entry (contents q) (rw (length-contents q) full)) (refl, refl),
  )
]

-- The device reports that it has taken `k` of the outstanding commands by the new head: setting it
-- drops the `k` oldest commands, and keeps the queue valid.
pub head-drop :
    (q : SubmissionQueue) (k : ℕ)
    → IsValid q
    → k ≤ outstanding q
    → let q' = record q { head = (q.head + k) % q.len } in
      IsValid q' × (contents q' ≡ drop k (contents q)) × (outstanding q' + k ≡ outstanding q)
head-drop q k v le = (
  record {
    positive = v.positive;
    bounded = v.bounded;
    head_in = mod-lt (q.head + k) v.positive;
    tail_in = v.tail_in;
  },
  window-mod q.entries q.len ((q.head + k) % q.len) (q.head + k) rest (mod-mod (q.head + k) q.len)
      ∙ sym (drop-window q.entries q.len q.head k (outstanding q) rest (omega (arith, shorter))),
  shorter,
)
  where
    rest : ℕ
    rest = (q.tail + q.len - (q.head + k) % q.len) % q.len

    shorter : rest + k ≡ outstanding q
    shorter = distance_drop q.len q.head q.tail k v.head_in v.tail_in le
