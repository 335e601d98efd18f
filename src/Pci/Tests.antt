-- ===== src/Pci/Tests.antt =====
-- Tests and instances for the configuration files.
use vroom.Common.{ℕ, ◌≡◌, refl, [], ◌∷◌, arith}
use vroom.Common.Outcome.{ok}
use vroom.Pci.Hex.{parse_hex}
use vroom.Pci.Hex.RoundTrip.{print_hex, parse_hex-print}

-- The vendor 0x00a5, in four digits.
parse_hex-print_example : parse_hex (48 ∷ 120 ∷ print_hex 4 0xa5 (10 ∷ [])) ≡ ok 0xa5
parse_hex-print_example = parse_hex-print 3 0xa5 (omega arith) (omega arith)

abbrev vendor : ℕ
vendor = 0xa5

printed : print_hex 4 vendor (10 ∷ []) ≡ 48 ∷ 48 ∷ 97 ∷ 53 ∷ 10 ∷ []
unfolding print_hex
printed = refl
