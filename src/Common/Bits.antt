-- ===== src/Common/Bits.antt =====
-- `|` of two disjoint bit fields is their sum, and `&` with a mask of low ones is a remainder.
use Prim.Native.Nat.{
  ℕ, zero, suc, ◌+◌, ◌-◌, ◌*◌, ◌/◌, ◌%◌, ◌^◌, ◌≤◌, ◌<◌, min, max, digits, bit_and, bit_or,
  bit_and-bitwise, bit_or-bitwise,
}
use mathlib.Core.Path.{◌≡◌, refl, ◌∙◌, ap}
use native.Mathlib.Nat.{pow-suc, one-le-pow}
use native.Mathlib.Omega.{arith}

pub double_pow : (q k : ℕ) → q * 2 ^ suc k ≡ 2 * (q * 2 ^ k)
double_pow q k = omega (arith, ap (λ (t : ℕ). q * t) (pow-suc 2 k))

pub or_digits :
    (n a k q r : ℕ) → a ≤ n → a ≡ q * 2 ^ k → r < 2 ^ k → digits (λ y. y) max n a r ≡ a + r
or_digits zero zero k q r le e lt = omega arith
or_digits zero (suc a) k q r le e lt = absurd (omega arith)
or_digits (suc n) zero k q r le e lt = omega arith
or_digits (suc n) (suc a) zero q r le e lt = omega (
  arith,
  or_digits n (suc a / 2) zero (suc a / 2) (r / 2) (omega arith) (omega arith) (omega arith),
)
or_digits (suc n) (suc a) (suc k) q r le e lt = omega (
  arith,
  double_pow q k,
  or_digits n (suc a / 2) k q (r / 2) (omega arith) (omega (arith, double_pow q k))
      (omega (arith, pow-suc 2 k)),
)

-- The field above bit `k` and the field below it.
pub bit_or-eq-add : (k q r : ℕ) → r < 2 ^ k → bit_or (q * 2 ^ k) r ≡ q * 2 ^ k + r
bit_or-eq-add k q r lt = bit_or-bitwise (q * 2 ^ k) r ∙ or_digits _ _ k q r (omega arith) refl lt

and_digits :
    (n a k q r : ℕ)
    → a ≤ n
    → a ≡ q * 2 ^ k + r
    → r < 2 ^ k
    → digits (λ y. zero) min n a (2 ^ k - 1) ≡ r
and_digits zero zero k q r le e lt = omega arith
and_digits zero (suc a) k q r le e lt = absurd (omega arith)
and_digits (suc n) zero k q r le e lt = omega arith
and_digits (suc n) (suc a) zero q r le e lt =
    omega
      (arith, and_digits n (suc a / 2) zero (suc a / 2) 0 (omega arith) (omega arith) (omega arith))
and_digits (suc n) (suc a) (suc k) q r le e lt = ground (
  arith,
  halved,
  double_pow q k,
  pow-suc 2 k,
  one-le-pow k 2,
  and_digits n (suc a / 2) k q (r / 2) (omega arith) (omega (arith, double_pow q k))
      (omega (arith, pow-suc 2 k)),
)
  where
    halved : (2 ^ suc k - 1) / 2 ≡ 2 ^ k - 1
    halved = omega (arith, pow-suc 2 k, one-le-pow k 2)

pub bit_and-eq-mod : (k a : ℕ) → bit_and a (2 ^ k - 1) ≡ a % 2 ^ k
bit_and-eq-mod k a =
    bit_and-bitwise a (2 ^ k - 1)
    ∙ and_digits a a k (a / 2 ^ k) (a % 2 ^ k) (omega arith) (ground (arith, one-le-pow k 2))
        (ground (arith, one-le-pow k 2))

or_digits_self : (n a : ℕ) → a ≤ n → digits (λ y. y) max n a a ≡ a
or_digits_self zero zero le = refl
or_digits_self zero (suc a) le = absurd (omega arith)
or_digits_self (suc n) zero le = refl
or_digits_self (suc n) (suc a) le = omega (arith, or_digits_self n (suc a / 2) (omega arith))

pub bit_or_self : (a : ℕ) → bit_or a a ≡ a
bit_or_self a = bit_or-bitwise a a ∙ or_digits_self a a (omega arith)

pub bit_or-zero : (a : ℕ) → bit_or a 0 ≡ a
bit_or-zero a =
    let e : a * 2 ^ 0 ≡ a = omega arith in rw e at (bit_or-eq-add 0 a 0 (omega arith)) ∙ omega arith
