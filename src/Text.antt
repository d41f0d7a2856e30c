-- ===== src/Text.antt =====
-- Text as code points, for the patterns that the program matches: prefixes and decimal numbers.
pub mod Decimal
use Prim.Native.Char.{code}
use homelab_builder.Base.{
  ℕ, ◌+◌, ◌-◌, ◌*◌, Bool, true, false, ◌&&◌, List, [], ◌∷◌, Option, none, some, String, nat_eq,
  ◌==◌, leb, if◌then◌else◌,
}

abbrev pub codes : String → List ℕ
codes String.[] = []
codes (String.◌∷◌ c s) = code c ∷ codes s

-- What follows a prefix, if the text starts with it.
unfoldable pub strip : List ℕ → List ℕ → Option (List ℕ)
strip [] text = some text
strip (p ∷ ps) [] = none
strip (p ∷ ps) (c ∷ text) = if p == c then strip ps text else none

abbrev pub is_digit : ℕ → Bool
is_digit c = leb b'0' c && leb c b'9'

abbrev pub all_digits : List ℕ → Bool
all_digits [] = true
all_digits (c ∷ text) = is_digit c && all_digits text

-- `Number(text)` of a text of decimal digits.
unfoldable pub number_from : ℕ → List ℕ → ℕ
number_from acc [] = acc
number_from acc (c ∷ text) = number_from (acc * 10 + (c - b'0')) text
