-- ===== src/Gaming/Table.antt =====
-- frontend/src/features/gaming/lib/table.ts: the seats, the power and the switch of a LAN table, and what
-- a change of its size does. Seats and ports are whole numbers; watts count thousandths.
pub mod Bounds
use homelab_builder.Gaming.{
  table_switch_watts, table_switch_ports_for, default_table_seats, default_seat_watts,
}
use homelab_builder.Types.{null, str, num, bool, put, get, Json, Dict}
use homelab_builder.Base.{
  false, ◌==◌, not, suc, ◌+◌, true, rounded, pos, none, max, int_lt, ◌*◌, whole, some, min,
  if◌then◌else◌, Bool, ℤ, ℕ, String, Option, string_eq, nat_eq, int_eq,
}

abbrev pub max_table_seats : ℕ
max_table_seats = 24

abbrev pub min_seat_watts : ℕ
min_seat_watts = 50

abbrev pub max_seat_watts : ℕ
max_seat_watts = 2000

-- A positive number, or the fallback.
abbrev pub positive_or : Option ℤ → ℕ → ℕ
positive_or (some (pos (suc n))) fallback = suc n
positive_or _ fallback = fallback

abbrev pub round_to_seats : Option ℤ → Option ℤ
round_to_seats none = none
round_to_seats (some v) = some (rounded v)

-- The changes of a table that are given.
pub record TableChange : Type 0 where
  pub seats : Option ℤ
  pub seat_watts : Option ℤ
  pub switch_ports : Option ℤ
  pub switch_speed : Option String

abbrev pub with_number : String → Option ℤ → Dict Json → Dict Json
with_number key none details = details
with_number key (some v) details = put details key (num v)

abbrev pub with_text : String → Option String → Dict Json → Dict Json
with_text key none details = details
with_text key (some text) details = put details key (str text)

-- `{ ...details, ...change }`
abbrev pub changed_details : Dict Json → TableChange → Dict Json
changed_details details change = with_text "switch_speed" change.switch_speed (
    with_number "switch_ports" change.switch_ports
      (with_number "seat_watts" change.seat_watts (with_number "seats" change.seats details)))

abbrev int_max : ℤ → ℤ → ℤ
int_max a b = if int_lt a b then b else a

-- The switch grows with the seats unless the same change sets it large enough.
unfoldable pub resized_ports : ℕ → Option ℤ → ℤ
resized_ports seats none = whole (table_switch_ports_for seats)
resized_ports seats (some ports) =
    if int_lt ports (whole (seats + 1))
    then int_max (whole (table_switch_ports_for seats)) ports
    else ports

abbrev pub falsy : Option Json → Bool
falsy none = true
falsy (some null) = true
falsy (some (bool on)) = not on
falsy (some (num v)) = v == pos 0
falsy (some (str text)) = text == ""
falsy (some _) = false

-- The details with the seats, the wattage and the ports written in, and a speed if they had none.
unfoldable pub written_table : Dict Json → ℕ → ℕ → ℤ → Dict Json
written_table next seats watts ports =
    let seated = put next "seats" (num (whole seats)) in
    let powered = put seated "seat_watts" (num (pos watts)) in
    let switched = put powered "switch_ports" (num ports) in
    if falsy (get switched "switch_speed")
    then put switched "switch_speed" (str "1 GbE")
    else switched

-- `Number`, with none for what is not finite. A missing value is not.
module _ (number : Json → Option ℤ) where
  abbrev pub number_of : Option Json → Option ℤ
  number_of none = none
  number_of (some value) = number value

  abbrev pub number_at : Dict Json → String → Option ℤ
  number_at details key = number_of (get details key)

  unfoldable pub table_seats : Dict Json → ℕ
  table_seats details = positive_or (round_to_seats (number_at details "seats")) default_table_seats

  unfoldable pub table_seat_watts : Dict Json → ℕ
  table_seat_watts details =
      positive_or (number_at details "seat_watts") (default_seat_watts * 1000)

  unfoldable pub table_switch_ports : Dict Json → ℕ
  table_switch_ports details =
      positive_or (round_to_seats (number_at details "switch_ports"))
        (table_switch_ports_for (table_seats details))

  -- What a full table pulls: every seat and the switch.
  unfoldable pub table_power_draw : Dict Json → ℕ
  table_power_draw details =
      table_seats details * table_seat_watts details + table_switch_watts * 1000

  -- The details after a change of seats or wattage.
  unfoldable pub resized_details : Dict Json → TableChange → Dict Json
  resized_details details change =
      let next = changed_details details change in
      let seats = min max_table_seats (max 1 (table_seats next)) in
      let watts =
        min (max_seat_watts * 1000)
          (max (min_seat_watts * 1000) (table_seat_watts (put next "seats" (num (whole seats))))) in
      written_table next seats watts (resized_ports seats change.switch_ports)

  -- The new details, and the power that the table then draws.
  unfoldable pub resize_table : Dict Json → TableChange → Dict Json × ℕ
  resize_table details change =
      let next = resized_details details change in (next, table_power_draw next)
