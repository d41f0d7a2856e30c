-- ===== src/Power/Tests.antt =====
-- Power handles and cables on concrete links.
use homelab_builder.Base.{
  arith, ◌≤◌, String, ◌≡◌, refl, ◌↔◌, ◌⊎◌, true, Option, none, some, nat_eq, string_eq, ℤ, pos,
  int_eq,
}
use homelab_builder.Power.Handles.{power_counts_bounds, power_handle_index-decimal}
use homelab_builder.Power.Cables.{normalize-reversed, normalize-IsOriented}
use homelab_builder.Power.{
  to_double, finite, is_power_source, is_power_input, power_output_count, reversed, ups,
  normalize_power_connection, power_input_count, power_handle_index, is_socket, Connection,
}
use homelab_builder.Text.{number_from, strip}
use homelab_builder.Text.Decimal.{decimal}

abbrev plug : Connection
plug = record {
  source = "c";
  target = "u";
  source_handle = some "pwr-in-0";
  target_handle = some "pwr-out-3";
}

oriented : normalize_power_connection plug ≡ some (reversed plug)
unfolding normalize_power_connection power_handle_index strip to_double
oriented = refl

normalize-IsOriented_example :
    (is_socket (reversed plug).source_handle ≡ true)
    × (is_power_input (reversed plug).target_handle ≡ true)
    × ((reversed plug ≡ plug) ⊎ (reversed plug ≡ reversed plug))
normalize-IsOriented_example = normalize-IsOriented plug (reversed plug) oriented

normalize-reversed_example :
    normalize_power_connection (reversed plug) ≡ normalize_power_connection plug
normalize-reversed_example = normalize-reversed plug

index-decimal_example : power_handle_index (some "pwr-out-12") "pwr-out-" ≡ finite (pos 12)
unfolding decimal
index-decimal_example = power_handle_index-decimal "pwr-out-" "pwr-out-12" 12 (omega arith) refl

-- 2^53 + 1 is rounded to the even neighbour.
beyond :
    power_handle_index (some "pwr-in-9007199254740993") "pwr-in-" ≡ finite (pos 9007199254740992)
unfolding power_handle_index strip number_from to_double
beyond = refl

-- Numbers that are not read: the sizes are the defaults.
abbrev no_number : String → Option ℤ
no_number s = none

power_counts_bounds_example :
    (power_input_count (λ s. s) no_number (some ups) none ≤ 4)
    × (power_output_count (λ s. s) no_number (some ups) none ≤ 48)
    × ((1 ≤ power_output_count (λ s. s) no_number (some ups) none)
        ↔ (is_power_source (some ups) ≡ true))
power_counts_bounds_example = power_counts_bounds (λ s. s) no_number ups none
