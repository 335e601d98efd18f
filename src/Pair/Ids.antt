-- ===== src/Pair/Ids.antt =====
-- The command identifiers of a queue pair, `id << 11 | tail` cut to 16 bits.
use Prim.Native.Nat.{bit_or}
use vroom.Common.{ℕ, ◌+◌, ◌*◌, ◌≤◌, ◌<◌, ◌≡◌, ◌≢◌, sym, ◌∙◌, ap, ap₂, arith}
use vroom.Common.Words.{u16, ◌<<◌}
use vroom.Common.Bits.{bit_or-eq-add, bit_or_self, bit_or-zero}
use vroom.Queues.Entry.{queue_length}
use vroom.Pair.{command_id}

command_id_lem : (id tail : ℕ) → id < 32 → tail < 2048 → command_id id tail ≡ id * 2048 + tail
unfolding command_id
command_id_lem id tail i t = ap₂ bit_or (omega arith) (omega arith) ∙ bit_or-eq-add 11 id tail t

-- Among the queues 0 to 31 and the tails below 2048 no two commands share an identifier: it gives
-- back both the queue and the tail.
pub command_id-injective :
    (id id' tail tail' : ℕ)
    → id < 32
    → id' < 32
    → tail < 2048
    → tail' < 2048
    → command_id id tail ≡ command_id id' tail'
    → (id ≡ id') × (tail ≡ tail')
command_id-injective id id' tail tail' i i' t t' e =
    omega (arith, command_id_lem id tail i t, command_id_lem id' tail' i' t')

-- A queue may be longer than that. On each of the queues 1 to 7 the tails 0 and `id * 2048`, both
-- slots of a queue of full length, get one and the same identifier.
pub command_id_collides :
    (id : ℕ)
    → 1 ≤ id
    → id < 8
    → (0 ≢ id * 2048) × (id * 2048 < queue_length) × (command_id id 0 ≡ command_id id (id * 2048))
unfolding command_id
command_id_collides id low high = (
  omega arith,
  omega arith,
  bit_or-zero (u16 (id << 11))
      ∙ sym (ap (λ t. bit_or (u16 (id << 11)) t) (omega arith) ∙ bit_or_self (u16 (id << 11))),
)
