-- ===== src/Pci/Hex.antt =====
-- The text of a resource file as a number, `read_hex` of src/pci.rs, on the code points of the text.
pub mod RoundTrip
use vroom.Common.{
  ℕ, zero, suc, ◌+◌, ◌-◌, ◌*◌, ◌^◌, Bool, true, false, ◌&&◌, ◌||◌, Option, none, some, List, [],
  ◌∷◌, ltb, leb, ◌==◌, if◌then◌else◌,
}
use vroom.Common.Outcome.{Outcome, ok, err, vroom_error}

-- The property White_Space of Unicode, which `trim` looks at.
unfoldable pub is_white : ℕ → Bool
is_white c =
    (leb 9 c && leb c 13)
    || c == 32
    || c == 0x85
    || c == 0xA0
    || c == 0x1680
    || (leb 0x2000 c && leb c 0x200A)
    || c == 0x2028
    || c == 0x2029
    || c == 0x202F
    || c == 0x205F
    || c == 0x3000

unfoldable pub trim_start : List ℕ → List ℕ
trim_start [] = []
trim_start (c ∷ cs) = let rest = trim_start cs in if is_white c then rest else c ∷ cs

unfoldable pub trim_end : List ℕ → List ℕ
trim_end [] = []
trim_end (c ∷ cs) = elim (trim_end cs) [
  | [] ↦ if is_white c then [] else c ∷ []
  | d ∷ ds ↦ c ∷ d ∷ ds
]

-- `trim_start_matches("0x")`
unfoldable pub strip_0x : List ℕ → List ℕ
strip_0x (c ∷ d ∷ cs) = let rest = strip_0x cs in if c == 48 && d == 120 then rest else c ∷ d ∷ cs
strip_0x cs = cs

-- `char::to_digit(16)`
unfoldable pub hex_digit : ℕ → Option ℕ
hex_digit c =
    if leb 48 c && leb c 57
    then some (c - 48)
    else if leb 97 c && leb c 102
    then some (c - 87)
    else if leb 65 c && leb c 70
    then some (c - 55)
    else none

unfoldable pub hex_digits : ℕ → List ℕ → Outcome ℕ
hex_digits acc [] = ok acc
hex_digits acc (c ∷ cs) = elim (hex_digit c) [
  | none ↦ err (vroom_error "invalid digit found in string")
  | some d ↦
      if ltb (acc * 16 + d) (2 ^ 64)
      then hex_digits (acc * 16 + d) cs
      else err (vroom_error "number too large to fit in target type")
]

-- `u64::from_str_radix`, base 16, with its errors as text.
unfoldable pub from_str_radix : List ℕ → Outcome ℕ
from_str_radix [] = err (vroom_error "cannot parse integer from empty string")
from_str_radix (c ∷ []) =
    if c == 43 || c == 45
    then err (vroom_error "invalid digit found in string")
    else hex_digits 0 (c ∷ [])
from_str_radix (c ∷ d ∷ cs) = if c == 43 then hex_digits 0 (d ∷ cs) else hex_digits 0 (c ∷ d ∷ cs)

unfoldable pub parse_hex : List ℕ → Outcome ℕ
parse_hex text = from_str_radix (strip_0x (trim_end (trim_start text)))
