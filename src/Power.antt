-- ===== src/Power.antt =====
-- frontend/src/features/builder/lib/power-ports.ts: power handles, how many each device has, and the
-- direction of a power cable.
pub mod Handles
pub mod Cables
mod Tests
use homelab_builder.Types.{str, num, get, Json, Dict}
use homelab_builder.Text.{all_digits, codes, number_from, strip}
use homelab_builder.Hardware.{
  vps, pcie, hba, type_eq, cpu, gpu, disk, rack, is_power_source, pdu, ups, power_outlet,
  HardwareType-discrete, HardwareType,
}
use homelab_builder.Base.{
  pos_part, max, [], ◌%◌, zero, not, min, ◌^◌, ◌==◌, ◌-◌, contains, ◌∷◌, ◌||◌, ◌+◌, ◌*◌, ◌&&◌, none,
  ltb, leb, ◌/◌, true, suc, some, pos, negsuc, is_some?, if◌then◌else◌, false, ℤ, ℕ, String, Option,
  List, Bool, string_eq, nat_eq, int_eq,
}

abbrev pub power_in_prefix : String
power_in_prefix = "pwr-in-"

abbrev pub power_out_prefix : String
power_out_prefix = "pwr-out-"

abbrev max_power_inputs : ℕ
max_power_inputs = 4

abbrev min_sockets : ℕ
min_sockets = 1

abbrev max_sockets : ℕ
max_sockets = 48

-- `handle.startsWith(prefix)`
abbrev pub starts_with : String → String → Bool
starts_with prefix handle = is_some? (strip (codes prefix) (codes handle))

unfoldable pub is_power_handle : Option String → Bool
unfolding strip
is_power_handle none = false
is_power_handle (some handle) =
    starts_with power_in_prefix handle || starts_with power_out_prefix handle

-- `/^(0|[1-9]\d*)$/`
abbrev pub whole_number : List ℕ → Bool
whole_number [] = false
whole_number (c ∷ []) = all_digits (c ∷ [])
whole_number (c ∷ d ∷ text) = not (c == b'0') && all_digits (c ∷ d ∷ text)

-- What `powerHandleIndex` returns: a whole number, or Infinity.
pub data HandleIndex : Type 0 where
  finite : ℤ → HandleIndex
  infinity : HandleIndex

-- The step between neighbouring doubles around n, once it is doubled often enough.
abbrev pub ulp_from : ℕ → ℕ → ℕ → ℕ
ulp_from zero n ulp = ulp
ulp_from (suc fuel) n ulp =
    let rest = ulp_from fuel n (ulp * 2) in if ltb n (2 ^ 53 * ulp) then ulp else rest

-- The multiple of the step next to n; of two, the even one.
abbrev pub nearest : ℕ → ℕ → ℕ
nearest n ulp =
    let below = n / ulp in
    let twice = 2 * (n - below * ulp) in
    if ltb twice ulp || twice == ulp && below % 2 == 0 then below * ulp else (below + 1) * ulp

abbrev pub or_infinity : ℕ → HandleIndex
or_infinity n = if ltb n (2 ^ 1024) then finite (pos n) else infinity

-- A whole number as a double: exact up to 2^53, then rounded to 53 bits, and Infinity from 2^1024. The
-- step is at most 2^971.
unfoldable pub to_double : ℕ → HandleIndex
to_double n =
    let wide = or_infinity (nearest n (ulp_from 971 n 1)) in
    if leb n (2 ^ 53) then finite (pos n) else wide

-- The number behind the prefix, or -1.
abbrev pub index_of_rest : Option (List ℕ) → HandleIndex
index_of_rest none = finite (negsuc 0)
index_of_rest (some rest) =
    if whole_number rest then to_double (number_from 0 rest) else finite (negsuc 0)

unfoldable pub power_handle_index : Option String → String → HandleIndex
unfolding strip number_from
power_handle_index none prefix = finite (negsuc 0)
power_handle_index (some handle) prefix = index_of_rest (strip (codes prefix) (codes handle))

-- Types that never take power through a cable.
abbrev no_power_input : List HardwareType
no_power_input = power_outlet ∷ rack ∷ disk ∷ gpu ∷ cpu ∷ hba ∷ pcie ∷ vps ∷ []

unfoldable pub default_sockets : HardwareType → ℕ
default_sockets ups = 6
default_sockets pdu = 8
default_sockets power_outlet = 2
default_sockets _ = 0

-- `Math.trunc` of a number in thousandths.
abbrev pub trunc : ℤ → ℤ
trunc (pos n) = pos (n / 1000)
trunc (negsuc n) =
    let whole_part = (n + 1) / 1000 in if whole_part == 0 then pos 0 else negsuc (whole_part - 1)

-- `trim` is `String.prototype.trim`, and `to_number` is `Number(text)`, with `none` for what is not
-- finite.
module _ (trim : String → String) (to_number : String → Option ℤ) where
  abbrev count_or : Option ℤ → ℤ → ℤ
  count_or none fallback = fallback
  count_or (some value) fallback = trunc value

  -- A count that is stored as a JSON number or as a text, truncated toward zero.
  unfoldable pub read_count : Option (Dict Json) → String → ℤ → ℤ
  read_count none key fallback = fallback
  read_count (some details) key fallback = elim (get details key) [
    | some (num value) ↦ trunc value
    | some (str raw) ↦ if trim raw == "" then fallback else count_or (to_number raw) fallback
    | _ ↦ fallback
  ]

  -- details.psu_count, default 1, in 0..4.
  unfoldable pub power_input_count : Option HardwareType → Option (Dict Json) → ℕ
  unfolding HardwareType-discrete
  power_input_count none details = 0
  power_input_count (some type) details =
      if contains no_power_input type
      then 0
      else min max_power_inputs (pos_part (read_count details "psu_count" (pos 1)))

  -- details.outlets, in 1..48; only power sources have sockets.
  unfoldable pub power_output_count : Option HardwareType → Option (Dict Json) → ℕ
  power_output_count none details = 0
  power_output_count (some type) details =
      if is_power_source (some type)
      then min max_sockets
          (max min_sockets (pos_part (read_count details "outlets" (pos (default_sockets type)))))
      else 0

-- A link that React Flow reports: both ends are there, a handle may be null.
pub record Connection : Type 0 where
  pub source : String
  pub target : String
  pub source_handle : Option String
  pub target_handle : Option String

-- `index >= 0`
abbrev pub is_index : HandleIndex → Bool
is_index infinity = true
is_index (finite (pos n)) = true
is_index (finite (negsuc n)) = false

abbrev pub is_socket : Option String → Bool
is_socket handle = is_index (power_handle_index handle power_out_prefix)

abbrev pub is_power_input : Option String → Bool
is_power_input handle = is_index (power_handle_index handle power_in_prefix)

abbrev pub reversed : Connection → Connection
reversed c = record {
  source = c.target;
  target = c.source;
  source_handle = c.target_handle;
  target_handle = c.source_handle;
}

-- Turns a drawn power cable from the socket to the power input.
unfoldable pub normalize_power_connection : Connection → Option Connection
normalize_power_connection c =
    if is_socket c.source_handle && is_power_input c.target_handle
    then some c
    else if is_power_input c.source_handle && is_socket c.target_handle
    then some (reversed c)
    else none
