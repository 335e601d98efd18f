-- ===== src/Common/Masks.antt =====
-- `&` with a mask whose low bits are clear, and `|` with a single bit.
use Prim.Native.Nat.{
  ℕ, zero, suc, ◌+◌, ◌-◌, ◌*◌, ◌/◌, ◌%◌, ◌^◌, ◌≤◌, ◌<◌, min, max, digits, bit_and, bit_or,
  bit_and-bitwise, bit_or-bitwise,
}
use mathlib.Core.Path.{◌≡◌, refl, sym, ◌∙◌, ap}
use native.Mathlib.Nat.{pow-suc, one-le-pow, mul-le-mul_left, div-add-mod', mod-lt}
use native.Mathlib.Omega.{arith}
use vroom.Common.Bits.{double_pow, or_digits, bit_and-eq-mod}

abbrev and_all : ℕ → ℕ → ℕ → ℕ
and_all = digits (λ y. zero) min

abbrev or_all : ℕ → ℕ → ℕ → ℕ
or_all = digits (λ y. y) max

-- More rounds than digits change nothing.
and_enough : (n m a b : ℕ) → a ≤ n → a ≤ m → and_all n a b ≡ and_all m a b
and_enough zero zero a b le le' = refl
and_enough zero (suc m) zero b le le' = refl
and_enough zero (suc m) (suc a) b le le' = absurd (omega arith)
and_enough (suc n) zero zero b le le' = refl
and_enough (suc n) zero (suc a) b le le' = absurd (omega arith)
and_enough (suc n) (suc m) zero b le le' = refl
and_enough (suc n) (suc m) (suc a) b le le' =
    omega (arith, and_enough n m (suc a / 2) (b / 2) (omega arith) (omega arith))

pow_pos : (k : ℕ) → 1 ≤ 2 ^ k
pow_pos k = omega (arith, one-le-pow k 2)

le_scaled : (q k : ℕ) → q ≤ q * 2 ^ k
le_scaled q k = omega (arith, mul-le-mul_left q (pow_pos k))

and_scaled :
    (k n a q r b : ℕ)
    → a ≤ n
    → a ≡ q * 2 ^ k + r
    → r < 2 ^ k
    → and_all n a (b * 2 ^ k) ≡ and_all n q b * 2 ^ k
and_scaled zero n a q r b le e lt =
    let ea : a ≡ q = omega arith in
    let eb : b * 2 ^ 0 ≡ b = omega arith in rw (ea, eb) (omega arith)
and_scaled (suc k) zero a q r b le e lt = omega arith
and_scaled (suc k) (suc n) zero q r b le e lt =
    let none : q ≡ 0 = omega (arith, le_scaled q (suc k)) in rw none (omega arith)
and_scaled (suc k) (suc n) (suc a) q r b le e lt =
    let half : b * 2 ^ suc k / 2 ≡ b * 2 ^ k = omega (arith, double_pow b k) in
    let even : b * 2 ^ suc k % 2 ≡ 0 = omega (arith, double_pow b k) in
    let rest =
      and_scaled k n (suc a / 2) q (r / 2) b (omega arith) (omega (arith, double_pow q k))
        (omega (arith, pow-suc 2 k)) in
    let enough =
      and_enough n (suc n) q b (omega (arith, double_pow q k, le_scaled q k))
        (omega (arith, double_pow q k, le_scaled q k)) in
    rw (half, even)
      (omega (arith, rest, ap (λ (t : ℕ). t * 2 ^ k) enough, double_pow (and_all (suc n) q b) k))

-- A mask of `m` ones above `k` zeros.
pub high_mask : (k m a : ℕ) → bit_and a ((2 ^ m - 1) * 2 ^ k) ≡ a / 2 ^ k % 2 ^ m * 2 ^ k
high_mask k m a =
    let q = a / 2 ^ k in
    let whole : a ≡ q * 2 ^ k + a % 2 ^ k = sym (div-add-mod' a (2 ^ k)) in
    let inside : q ≤ a = omega (arith, le_scaled q k, whole) in
    bit_and-bitwise a ((2 ^ m - 1) * 2 ^ k)
    ∙ and_scaled k a a q (a % 2 ^ k) (2 ^ m - 1) (omega arith) whole (mod-lt a (pow_pos k))
    ∙ ap (λ x. x * 2 ^ k)
        (and_enough a q q (2 ^ m - 1) inside (omega arith)
          ∙ sym (bit_and-bitwise q (2 ^ m - 1))
          ∙ bit_and-eq-mod m q)

or_bit :
    (b n v hi c lo : ℕ)
    → v ≤ n
    → v ≡ hi * 2 ^ suc b + c * 2 ^ b + lo
    → c < 2
    → lo < 2 ^ b
    → or_all n v (2 ^ b) ≡ hi * 2 ^ suc b + 2 ^ b + lo
or_bit b zero v hi c lo le e cl ll = omega (arith, one-le-pow b 2, pow-suc 2 b)
or_bit zero (suc n) zero hi c lo le e cl ll = omega arith
or_bit zero (suc n) (suc v) hi c lo le e cl ll =
    omega
      (arith, or_digits n (suc v / 2) zero (suc v / 2) 0 (omega arith) (omega arith) (omega arith))
or_bit (suc b) (suc n) zero hi c lo le e cl ll = omega arith
or_bit (suc b) (suc n) (suc v) hi c lo le e cl ll =
    let half : 2 ^ suc b / 2 ≡ 2 ^ b = omega (arith, pow-suc 2 b) in
    let even : 2 ^ suc b % 2 ≡ 0 = omega (arith, pow-suc 2 b) in
    let parts : suc v ≡ 2 * (hi * 2 ^ suc b + c * 2 ^ b) + lo =
      omega (arith, double_pow hi (suc b), double_pow c b) in
    let rest =
      or_bit b n (suc v / 2) hi c (lo / 2) (omega arith) (omega arith) cl
        (omega (arith, pow-suc 2 b)) in
    rw (half, even) (omega (arith, rest, parts, double_pow hi (suc b), pow-suc 2 b))

-- The bits below bit `b`, the bit itself and those above it.
pub bit_or-bit :
    (b hi c lo : ℕ)
    → c < 2
    → lo < 2 ^ b
    → bit_or (hi * 2 ^ suc b + c * 2 ^ b + lo) (2 ^ b) ≡ hi * 2 ^ suc b + 2 ^ b + lo
bit_or-bit b hi c lo cl ll =
    bit_or-bitwise (hi * 2 ^ suc b + c * 2 ^ b + lo) (2 ^ b)
    ∙ or_bit b (hi * 2 ^ suc b + c * 2 ^ b + lo) (hi * 2 ^ suc b + c * 2 ^ b + lo) hi c lo
        (omega arith) refl cl ll

-- `|` with a bit adds it if it is not there, and changes no other bit.
pub set_bit :
    (b v : ℕ)
    → (v / 2 ^ b % 2 ≡ 1 → bit_or v (2 ^ b) ≡ v)
      × (v / 2 ^ b % 2 ≡ 0 → bit_or v (2 ^ b) ≡ v + 2 ^ b)
set_bit b v = (
  λ e. ap (λ x. bit_or x (2 ^ b)) whole ∙ one ∙ omega (arith, whole, ap (λ (t : ℕ). t * 2 ^ b) e),
  λ e. ap (λ x. bit_or x (2 ^ b)) whole ∙ one ∙ omega (arith, whole, ap (λ (t : ℕ). t * 2 ^ b) e),
)
  where
    q : ℕ
    q = v / 2 ^ b

    halves : q * 2 ^ b ≡ q / 2 * 2 ^ suc b + q % 2 * 2 ^ b
    halves =
        let e : q ≡ 2 * (q / 2) + q % 2 = omega arith in
        omega (arith, ap (λ (t : ℕ). t * 2 ^ b) e, double_pow (q / 2) b)

    whole : v ≡ q / 2 * 2 ^ suc b + q % 2 * 2 ^ b + v % 2 ^ b
    whole = omega (arith, halves, sym (div-add-mod' v (2 ^ b)))

    one :
        bit_or (q / 2 * 2 ^ suc b + q % 2 * 2 ^ b + v % 2 ^ b) (2 ^ b)
        ≡ q / 2 * 2 ^ suc b + 2 ^ b + v % 2 ^ b
    one = bit_or-bit b (q / 2) (q % 2) (v % 2 ^ b) (omega arith) (mod-lt v (pow_pos b))
