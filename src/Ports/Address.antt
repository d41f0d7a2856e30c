-- ===== src/Ports/Address.antt =====
-- port-config.ts: IPv4 addresses with a prefix, as text.
pub mod Written
use homelab_builder.Text.{is_digit, codes, number_from}
use homelab_builder.Base.{
  ◌>>=◌, ◌+◌, ◌%◌, not, ltb, ◌||◌, ◌-◌, ◌&&◌, zero, some, length, [], ◌==◌, ◌*◌, leb, is_some?,
  false, any, ◌∷◌, suc, none, if◌then◌else◌, Bool, ℕ, String, Option, List, string_eq, nat_eq,
  int_eq,
}

pub record Ipv4Prefix : Type 0 where
  pub ip : ℕ
  pub prefix : ℕ

abbrev pub dot : ℕ
dot = 46

abbrev pub slash : ℕ
slash = 47

-- The digits at the start of a text, and the rest.
abbrev pub span_digits : List ℕ → List ℕ × List ℕ
span_digits [] = ([], [])
span_digits (c ∷ text) =
    let rest = span_digits text in if is_digit c then (c ∷ rest.0, rest.1) else ([], c ∷ text)

abbrev pub two_power : ℕ → ℕ
two_power zero = 1
two_power (suc n) = 2 * two_power n

-- `\d{1,most}` before the character `sep`: the digits and what follows.
abbrev pub after_sep : ℕ → ℕ → List ℕ → List ℕ → Option (List ℕ × List ℕ)
after_sep most sep digits [] = none
after_sep most sep digits (c ∷ rest) =
    if c == sep && leb 1 (length digits) && leb (length digits) most
    then some (digits, rest)
    else none

unfoldable pub part_before : ℕ → ℕ → List ℕ → Option (List ℕ × List ℕ)
part_before most sep text = after_sep most sep (span_digits text).0 (span_digits text).1

-- `\d{1,2}$`
abbrev pub at_end : List ℕ → List ℕ → Option (List ℕ)
at_end digits [] = if leb 1 (length digits) && leb (length digits) 2 then some digits else none
at_end digits (c ∷ rest) = none

unfoldable pub last_part : List ℕ → Option (List ℕ)
last_part text = at_end (span_digits text).0 (span_digits text).1

-- A part of more than one digit that begins with 0.
abbrev pub leading_zero : List ℕ → Bool
leading_zero [] = false
leading_zero (c ∷ []) = false
leading_zero (c ∷ d ∷ text) = c == b'0'

abbrev pub value : List ℕ → ℕ
value part = number_from 0 part

-- What is checked of the five parts.
unfoldable pub prefix_of_parts : List ℕ → List ℕ → List ℕ → List ℕ → List ℕ → Option Ipv4Prefix
prefix_of_parts a b c d p =
    if any leading_zero (a ∷ b ∷ c ∷ d ∷ p ∷ [])
      || any (λ part. ltb 255 (value part)) (a ∷ b ∷ c ∷ d ∷ [])
      || ltb (value p) 8
      || ltb 30 (value p)
    then none
    else some (record {
      ip = ((value a * 256 + value b) * 256 + value c) * 256 + value d;
      prefix = value p;
    })

unfoldable pub parse_ipv4_prefix : List ℕ → Option Ipv4Prefix
parse_ipv4_prefix text = do
  (a, after_a) ← part_before 3 dot text
  (b, after_b) ← part_before 3 dot after_a
  (c, after_c) ← part_before 3 dot after_b
  (d, after_d) ← part_before 3 slash after_c
  p ← last_part after_d
  prefix_of_parts a b c d p

-- Neither the network nor the broadcast address of its subnet.
unfoldable pub is_host : Option Ipv4Prefix → Bool
is_host none = false
is_host (some parsed) =
    let hosts = two_power (32 - parsed.prefix) in
    not (parsed.ip % hosts == 0) && not (parsed.ip % hosts == hosts - 1)

-- `trim` is `String.trim`.
module _ (trim : String → String) where
  unfoldable pub is_ipv4_cidr : String → Bool
  is_ipv4_cidr text = is_host (parse_ipv4_prefix (codes (trim text)))

  unfoldable pub is_ipv4_subnet : String → Bool
  is_ipv4_subnet text = is_some? (parse_ipv4_prefix (codes (trim text)))
