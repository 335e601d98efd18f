-- ===== src/Queues/Submission/Ring.antt =====
-- Head and tail of a submission queue as positions on a ring.
use native.Mathlib.Nat.{mod-lt, mod_self, mod-eq_of_lt, add-mod_right, mod-eq-sub-mod}
use native.Mathlib.Decide.{dec_lt}
use vroom.Common.Outcome.{ok}
use vroom.Command.{NvmeCommand}
use vroom.Common.{ℕ, suc, sym, ◌∙◌, ◌==◌, ◌+◌, ◌-◌, ◌%◌, ◌≤◌, ◌<◌, ◌≡◌, ◌↔◌, arith}
use vroom.Queues.Entry.{queue_length}
use vroom.Queues.Submission.{SubmissionQueue, is_full, is_empty, push}

pub record IsValid (q : SubmissionQueue) : Type 0 where
  pub positive : 0 < q.len
  pub bounded : q.len ≤ queue_length
  pub head_in : q.head < q.len
  pub tail_in : q.tail < q.len

-- How many commands lie between head and tail.
abbrev pub outstanding : SubmissionQueue → ℕ
outstanding q = (q.tail + q.len - q.head) % q.len

module _ (len h t : ℕ) (h_in : h < len) (t_in : t < len) where
  pub distance : (h ≤ t → (t + len - h) % len ≡ t - h) × (t < h → (t + len - h) % len ≡ t + len - h)
  distance = (
    λ le.
        let e : t + len - h ≡ t - h + len = omega arith in
        rw (e, add-mod_right (t - h) len) (mod-eq_of_lt (omega arith)),
    λ lt. mod-eq_of_lt (omega arith),
  )

  pub next_slot : (t + 1 < len → (t + 1) % len ≡ t + 1) × (t + 1 ≡ len → (t + 1) % len ≡ 0)
  next_slot = (λ lt. mod-eq_of_lt lt, λ e. rw e (mod_self len))

-- The distance from head to tail reaches the tail.
slot_of_distance : (len h t : ℕ) → h < len → t < len → (h + (t + len - h) % len) % len ≡ t
slot_of_distance len h t h_in t_in = elim (dec_lt t h) [
  | yes round ↦
      let e : h + (t + len - h) ≡ t + len = omega arith in
      rw ((distance len h t h_in t_in).1 round, e, add-mod_right t len) (mod-eq_of_lt t_in)
  | no ahead ↦
      let e : h + (t - h) ≡ t = omega arith in
      rw ((distance len h t h_in t_in).0 (omega arith), e) (mod-eq_of_lt t_in)
]

-- The tail is one short of the head exactly if all slots but one are in use.
full_iff : (len h t : ℕ) → h < len → t < len → (h ≡ (t + 1) % len) ↔ ((t + len - h) % len ≡ len - 1)
full_iff len h t h_in t_in = (
  λ e. ground (arith, distance len h t h_in t_in, next_slot len h t h_in t_in),
  λ e. ground (arith, distance len h t h_in t_in, next_slot len h t h_in t_in),
)

-- A step of the tail that does not reach the head makes the distance one longer.
distance_step :
    (len h t : ℕ)
    → h < len
    → t < len
    → (t + len - h) % len < len - 1
    → ((t + 1) % len + len - h) % len ≡ suc ((t + len - h) % len)
distance_step len h t h_in t_in room = ground (
  arith,
  distance len h t h_in t_in,
  next_slot len h t h_in t_in,
  mod-lt (t + 1) {m = len},
  distance len h ((t + 1) % len) h_in,
)

-- A step of the head over `k` of the slots in use makes the distance `k` shorter.
pub distance_drop :
    (len h t k : ℕ)
    → h < len
    → t < len
    → k ≤ (t + len - h) % len
    → (t + len - (h + k) % len) % len + k ≡ (t + len - h) % len
distance_drop len h t k h_in t_in le = elim (dec_lt (h + k) len) [
  | yes ahead ↦
      rw (mod-eq_of_lt ahead)
        (ground (arith, distance len h t h_in t_in, distance len (h + k) t ahead t_in))
  | no round ↦
      let used = mod-lt (t + len - h) {m = len} (omega arith) in
      let e : (h + k) % len ≡ h + k - len =
        mod-eq-sub-mod {n = h + k} {m = len} (omega arith) ∙ mod-eq_of_lt (omega arith) in
      rw e (
        ground (arith, distance len h t h_in t_in, distance len (h + k - len) t (omega arith) t_in))
]

module _ {q : SubmissionQueue} (v : IsValid q) where
  -- The tail is the slot behind the last outstanding command.
  pub tail_slot : q.tail ≡ (q.head + outstanding q) % q.len
  tail_slot = sym (slot_of_distance q.len q.head q.tail v.head_in v.tail_in)

  pub outstanding-lt : outstanding q < q.len
  outstanding-lt = mod-lt (q.tail + q.len - q.head) v.positive

  pub is_full-eq : is_full q ≡ ok (outstanding q == (q.len - 1))
  unfolding is_full
  is_full-eq =
      ground
        (arith, v.positive, v.bounded, v.tail_in, full_iff q.len q.head q.tail v.head_in v.tail_in)

  pub is_empty-eq : is_empty q ≡ (outstanding q == 0)
  unfolding is_empty
  is_empty-eq = ground (arith, distance q.len q.head q.tail v.head_in v.tail_in)

  pub outstanding-push :
      (entry : NvmeCommand)
      → outstanding q < q.len - 1
      → outstanding (push entry q) ≡ suc (outstanding q)
  outstanding-push entry room = distance_step q.len q.head q.tail v.head_in v.tail_in room

  pub push-IsValid : (entry : NvmeCommand) → IsValid (push entry q)
  push-IsValid entry = record {
    positive = v.positive;
    bounded = v.bounded;
    head_in = v.head_in;
    tail_in = mod-lt (q.tail + 1) v.positive;
  }
