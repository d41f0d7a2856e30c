-- ===== src/Gaming/Tests.antt =====
-- The sizing and the ports of one game.
use homelab_builder.Gaming.Table.Bounds.{resize_table-fits}
use homelab_builder.Types.{Json}
use homelab_builder.Gaming.Table.{
  resized_ports, written_table, table_switch_ports, table_seat_watts, table_power_draw, table_seats,
  resized_details, resize_table, TableChange,
}
use homelab_builder.Base.{
  rounded, ℤ, pos, some, Option, ◌+◌, ◌*◌, ◌%◌, ◌≤◌, ◌<◌, max, ◌≡◌, refl, true, none, [], ◌∷◌,
  arith, nat_eq, string_eq, int_eq,
}
use homelab_builder.Gaming.{
  table_switch_ports_for, num, size_server, resolve_ports, GameProfile, max_port_offset,
  players_or_default,
}
use homelab_builder.Gaming.Sizing.{size_server_bounds, resolve_ports-valid, valid_ports}

abbrev game : GameProfile
game = record {
  slug = "minecraft";
  default_players = 8;
  base_ram_mb = 1024000;
  ram_mb_per_player = 150000;
  base_cpu_cores = 1000;
  cpu_cores_per_player = 100;
  storage_gb = 10000;
  upload_kbps_per_player = 100000;
  ports = record { name = "game"; port = 25565; forward = true } ∷ [];
}

size_server_bounds_example :
    (1024000 + 150000 * 8 ≤ (size_server game none).ram_mb)
    × ((size_server game none).ram_mb < max 1 (1024000 + 150000 * 8) + 512000)
    × ((size_server game none).ram_mb % 512000 ≡ 0)
    × (1000 + 100 * 8 ≤ (size_server game none).cpu_cores)
    × ((size_server game none).cpu_cores < max 1 (1000 + 100 * 8) + 500)
    × ((size_server game none).cpu_cores % 500 ≡ 0)
unfolding players_or_default
size_server_bounds_example = size_server_bounds game none

game-valid : valid_ports game.ports ≡ true
unfolding valid_ports
game-valid = refl

offset-le : 100 ≤ max_port_offset game
unfolding max_port_offset
offset-le = omega arith

resolve_ports-valid_example : valid_ports (resolve_ports game 100) ≡ true
resolve_ports-valid_example = resolve_ports-valid game 100 game-valid offset-le

-- Only JSON numbers are read.
abbrev plain_number : Json → Option ℤ
plain_number (num v) = some v
plain_number _ = none

abbrev more_seats : TableChange
more_seats = record {
  seats = some (pos 30000);
  seat_watts = none;
  switch_ports = some (pos 8000);
  switch_speed = none;
}

grown : (resize_table plain_number [] more_seats).1 ≡ 24 * 350000 + 10000
unfolding resize_table resized_details table_power_draw table_seats table_seat_watts written_table
    resized_ports table_switch_ports_for rounded
grown = refl

resize_table-fits_example :
    let next = (resize_table plain_number [] more_seats).0 in
    (1 ≤ table_seats plain_number next)
    × (table_seats plain_number next ≤ 24)
    × (50000 ≤ table_seat_watts plain_number next)
    × (table_seat_watts plain_number next ≤ 2000000)
    × (table_seats plain_number next < table_switch_ports plain_number next)
resize_table-fits_example = resize_table-fits plain_number (λ v. refl) [] more_seats
