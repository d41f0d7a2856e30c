-- ===== src/Gaming.antt =====
-- frontend/src/features/gaming/lib: LAN tables (table.ts) and the sizing of game servers (sizing.ts).
-- Watts, megabytes and cores count thousandths; players, seats and ports are whole numbers.
pub mod Sizing
pub mod Table
mod Tests
use homelab_builder.Base.{
  ◌==◌, ◌>>=◌, false, ℕ, suc, ◌+◌, ◌-◌, ◌*◌, ◌/◌, min, max, String, Bool, Option, none, some, List,
  [], ◌∷◌, map, ltb, leb, if◌then◌else◌, nat_eq, string_eq, or_else, find, ℤ, int_eq, whole,
}
use homelab_builder.Types.{Dict, Json, num, str, get, HardwareSpec}

abbrev pub default_table_seats : ℕ
default_table_seats = 8

abbrev pub default_seat_watts : ℕ
default_seat_watts = 350

abbrev pub table_switch_watts : ℕ
table_switch_watts = 10

abbrev table_switch_sizes : List ℕ
table_switch_sizes = 5 ∷ 8 ∷ 16 ∷ 24 ∷ 48 ∷ []

-- The smallest common switch that seats every player and keeps a port for the uplink.
unfoldable pub table_switch_ports_for : ℕ → ℕ
table_switch_ports_for seats =
    or_else (find (λ size. leb (seats + 1) size) table_switch_sizes) (seats + 1)

-- The details and the power draw that a new LAN table starts with.
unfoldable pub new_table_details : ℕ → HardwareSpec × ℤ
new_table_details seats = (
  record {
    tags = none;
    virtual_network = none;
    other =
        ("seats", num (whole seats))
        ∷ ("seat_watts", num (whole default_seat_watts))
        ∷ ("switch_ports", num (whole (table_switch_ports_for seats)))
        ∷ ("switch_speed", str "1 GbE")
        ∷ [];
  },
  whole (seats * default_seat_watts + table_switch_watts),
)

pub record GamePort : Type 0 where
  pub name : String
  pub port : ℕ
  pub forward : Bool

pub record GameProfile : Type 0 where
  pub slug : String
  pub default_players : ℕ
  pub base_ram_mb : ℕ
  pub ram_mb_per_player : ℕ
  pub base_cpu_cores : ℕ
  pub cpu_cores_per_player : ℕ
  pub storage_gb : ℕ
  pub upload_kbps_per_player : ℕ
  pub ports : List GamePort

pub record Service : Type 0 where
  pub id : String
  pub game : Option GameProfile

pub data GameExposure : Type 0 where
  lan port_forward vpn relay : GameExposure

pub record GameInstance : Type 0 where
  pub profile : String
  pub players : ℕ
  pub exposure : GameExposure
  pub port_offset : ℕ

pub record GameSizing : Type 0 where
  pub cpu_cores : ℕ
  pub ram_mb : ℕ
  pub storage_gb : ℕ
  pub upload_kbps : ℕ

unfoldable pub players_or_default : GameProfile → Option ℕ → ℕ
players_or_default profile (some (suc n)) = suc n
players_or_default profile _ = if ltb 0 profile.default_players then profile.default_players else 1

-- `Math.ceil(amount / step) * step`
abbrev pub round_up : ℕ → ℕ → ℕ
round_up amount step = (amount + (step - 1)) / step * step

unfoldable pub size_server : GameProfile → Option ℕ → GameSizing
size_server profile players =
    let count = players_or_default profile players in
    let ram = profile.base_ram_mb + profile.ram_mb_per_player * count in
    let cpu = profile.base_cpu_cores + profile.cpu_cores_per_player * count in
    record {
      cpu_cores = max 500 (round_up cpu 500);
      ram_mb = max 512000 (round_up ram 512000);
      storage_gb = profile.storage_gb;
      upload_kbps = profile.upload_kbps_per_player * count;
    }

-- The fold of `reduce`. A port is at most 65535, so the difference is what the program computes.
abbrev port_limit : List GamePort → ℕ → ℕ
port_limit [] limit = limit
port_limit (p ∷ ports) limit = port_limit ports (min limit (65535 - p.port))

-- The largest offset that keeps every port of the profile at or below 65535.
unfoldable pub max_port_offset : GameProfile → ℕ
max_port_offset profile = port_limit profile.ports 1000

unfoldable pub resolve_ports : GameProfile → ℕ → List GamePort
resolve_ports profile offset =
    map {B = GamePort} (λ p. record p { port = p.port + offset }) profile.ports

-- The game settings that a server starts with.
unfoldable pub new_game_instance :
    GameProfile → Option ℕ → Option GameExposure → Option ℕ → GameInstance
new_game_instance profile players exposure port_offset = record {
  profile = profile.slug;
  players = players_or_default profile players;
  exposure = or_else exposure lan;
  port_offset = or_else port_offset 0;
}

abbrev has_slug : String → Option GameProfile → Bool
has_slug slug none = false
has_slug slug (some game) = game.slug == slug

-- The profile of the first service whose game has the slug.
unfoldable pub find_game_profile : List Service → String → Option GameProfile
find_game_profile services slug =
    find (λ service. has_slug slug service.game) services >>= (λ service. service.game)
