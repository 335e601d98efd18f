-- ===== src/Pci/Hex/RoundTrip.antt =====
-- Reading back what the kernel prints.
use native.Mathlib.Nat.{pow-suc}
use vroom.Common.{
  ℕ, zero, suc, ◌+◌, ◌*◌, ◌/◌, ◌%◌, ◌^◌, ◌≤◌, ◌<◌, ◌≡◌, refl, ◌∙◌, ap, false, ltb, some, List, [],
  ◌∷◌, if◌then◌else◌, arith, lt→ltb,
}
use vroom.Common.Outcome.{ok}
use vroom.Pci.Hex.{
  is_white, trim_start, trim_end, strip_0x, hex_digit, hex_digits, from_str_radix, parse_hex,
}

-- The character of a digit below 16, in lower case.
abbrev pub digit_char : ℕ → ℕ
digit_char d = if ltb d 10 then d + 48 else d + 87

-- `n` with at least `k` digits, in front of `rest`.
unfoldable pub print_hex : ℕ → ℕ → List ℕ → List ℕ
print_hex zero n rest = rest
print_hex (suc k) n rest = print_hex k (n / 16) (digit_char (n % 16) ∷ rest)

hex_digit_char : (d : ℕ) → d < 16 → hex_digit (digit_char d) ≡ some d
unfolding hex_digit
hex_digit_char d lt = ground arith

grown : (acc k : ℕ) → acc * 16 ^ suc k ≡ acc * 16 ^ k * 16
grown acc k = omega (arith, ap (λ (t : ℕ). acc * t) (pow-suc 16 k))

one_digit :
    (acc d : ℕ) (rest : List ℕ)
    → d < 16
    → acc * 16 + d < 2 ^ 64
    → hex_digits acc (digit_char d ∷ rest) ≡ hex_digits (acc * 16 + d) rest
unfolding hex_digits
one_digit acc d rest lt fits =
    ground (arith, hex_digit_char d lt, lt→ltb (acc * 16 + d) (2 ^ 64) fits)

print-digits :
    (k n acc : ℕ) (rest : List ℕ)
    → n < 16 ^ k
    → acc * 16 ^ k + n < 2 ^ 64
    → hex_digits acc (print_hex k n rest) ≡ hex_digits (acc * 16 ^ k + n) rest
unfolding print_hex
print-digits zero n acc rest lt fits = ap (λ a. hex_digits a rest) (omega arith)
print-digits (suc k) n acc rest lt fits =
    let high : n / 16 < 16 ^ k = omega (arith, pow-suc 16 k) in
    let below : acc * 16 ^ k + n / 16 < 2 ^ 64 = omega (arith, grown acc k) in
    let whole : (acc * 16 ^ k + n / 16) * 16 + n % 16 ≡ acc * 16 ^ suc k + n =
      omega (arith, grown acc k) in
    print-digits k (n / 16) acc (digit_char (n % 16) ∷ rest) high below
    ∙ one_digit (acc * 16 ^ k + n / 16) (n % 16) rest (omega arith) (omega (arith, whole))
    ∙ ap (λ a. hex_digits a rest) whole

-- A printed digit is no blank, no sign and no `x`.
digit-solid :
    (d : ℕ)
    → d < 16
    → (is_white (digit_char d) ≡ false) × ((48 ≤ digit_char d) × (digit_char d ≤ 102))
unfolding is_white
digit-solid d lt = (ground arith, (ground arith, ground arith))

trim_end-solid :
    (c : ℕ) (rest : List ℕ) → is_white c ≡ false → trim_end (c ∷ rest) ≡ c ∷ trim_end rest
unfolding trim_end
trim_end-solid c rest e =
    elim (trim_end rest)
      as (λ r.
        (elim r as (λ x. List ℕ) [ [] ↦ if is_white c then [] else c ∷ [] | d ∷ ds ↦ c ∷ d ∷ ds ])
        ≡ c ∷ r) [ [] ↦ rw e refl | d ∷ ds ↦ refl ]

-- Digits in front of `rest`: trimming passes them.
trim_end-print :
    (k n : ℕ) (rest : List ℕ) → trim_end (print_hex k n rest) ≡ print_hex k n (trim_end rest)
unfolding print_hex
trim_end-print zero n rest = refl
trim_end-print (suc k) n rest =
    trim_end-print k (n / 16) (digit_char (n % 16) ∷ rest)
    ∙ ap (print_hex k (n / 16))
        (trim_end-solid (digit_char (n % 16)) rest (digit-solid (n % 16) (omega arith)).0)

-- All characters lie between `0` and `f`.
abbrev Solid : List ℕ → Type 0
Solid [] = Unit {0}
Solid (c ∷ cs) = ((48 ≤ c) × (c ≤ 102)) × Solid cs

print-Solid : (k n : ℕ) (rest : List ℕ) → Solid rest → Solid (print_hex k n rest)
unfolding print_hex
print-Solid zero n rest s = s
print-Solid (suc k) n rest s =
    print-Solid k (n / 16) (digit_char (n % 16) ∷ rest) ((digit-solid (n % 16) (omega arith)).1, s)

strip-Solid : (cs : List ℕ) → Solid cs → strip_0x cs ≡ cs
unfolding strip_0x
strip-Solid [] s = refl
strip-Solid (c ∷ []) s = refl
strip-Solid (c ∷ d ∷ cs) s = ground (arith, s.1.0.1)

radix-Solid :
    (c : ℕ) (cs : List ℕ) → Solid (c ∷ cs) → from_str_radix (c ∷ cs) ≡ hex_digits 0 (c ∷ cs)
unfolding from_str_radix
radix-Solid c [] s = ground (arith, s.0.0)
radix-Solid c (d ∷ cs) s = ground (arith, s.0.0)

radix-print :
    (k n c : ℕ) (rest : List ℕ)
    → Solid (c ∷ rest)
    → from_str_radix (print_hex k n (c ∷ rest)) ≡ hex_digits 0 (print_hex k n (c ∷ rest))
unfolding print_hex
radix-print zero n c rest s = radix-Solid c rest s
radix-print (suc k) n c rest s =
    radix-print k (n / 16) (digit_char (n % 16)) (c ∷ rest)
      ((digit-solid (n % 16) (omega arith)).1, s)

-- A number that fits 64 bits and has at most `k + 1` hexadecimal digits is read back from the text
-- that the kernel prints for it: `0x`, the digits, padded with zeros to `k + 1`, and a line feed.
pub parse_hex-print :
    (k n : ℕ)
    → n < 16 ^ suc k
    → n < 2 ^ 64
    → parse_hex (48 ∷ 120 ∷ print_hex (suc k) n (10 ∷ [])) ≡ ok n
unfolding parse_hex trim_start strip_0x is_white trim_end print_hex hex_digits
parse_hex-print k n lt fits =
    ap (λ r. from_str_radix (strip_0x r)) trimmed
    ∙ ap from_str_radix (strip-Solid (print_hex (suc k) n []) (print-Solid (suc k) n [] tt))
    ∙ radix-print k (n / 16) (digit_char (n % 16)) [] ((digit-solid (n % 16) (omega arith)).1, tt)
    ∙ print-digits (suc k) n 0 [] lt (omega arith)
    ∙ ap ok (omega arith)
  where
    trimmed :
        trim_end (48 ∷ 120 ∷ print_hex (suc k) n (10 ∷ [])) ≡ 48 ∷ 120 ∷ print_hex (suc k) n []
    trimmed =
        trim_end-solid 48 (120 ∷ print_hex (suc k) n (10 ∷ [])) refl
        ∙ ap (λ r. 48 ∷ r)
            (trim_end-solid 120 (print_hex (suc k) n (10 ∷ [])) refl
              ∙ ap (λ r. 120 ∷ r) (trim_end-print (suc k) n (10 ∷ [])))
