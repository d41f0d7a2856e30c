-- ===== src/Gaming/Sizing.antt =====
-- What the sizing of a game server promises: enough of everything, in steps, and ports that exist.
use homelab_builder.Base.{
  ℕ, ◌+◌, ◌-◌, ◌*◌, ◌%◌, ◌≤◌, ◌<◌, min, max, ◌≡◌, refl, Bool, true, Option, List, [], ◌∷◌, map,
  arith, leb, nat_eq, string_eq, all, int_eq,
}
use homelab_builder.Gaming.{
  GameProfile, GamePort, size_server, players_or_default, max_port_offset, port_limit,
  resolve_ports, table_switch_ports_for, round_up,
}

memory_step :
    (a : ℕ)
    → (a ≤ max 512000 (round_up a 512000))
      × (max 512000 (round_up a 512000) < max 1 a + 512000)
      × (max 512000 (round_up a 512000) % 512000 ≡ 0)
memory_step a = omega arith

core_step :
    (a : ℕ)
    → (a ≤ max 500 (round_up a 500))
      × (max 500 (round_up a 500) < max 1 a + 500)
      × (max 500 (round_up a 500) % 500 ≡ 0)
core_step a = omega arith

-- A server gets at least what its players need, rounded up by less than one step: memory in steps of
-- 512 MB (at least one) and CPU in half cores (at least one).
pub size_server_bounds :
    (profile : GameProfile) (players : Option ℕ)
    → let count = players_or_default profile players in
      let ram = profile.base_ram_mb + profile.ram_mb_per_player * count in
      let cpu = profile.base_cpu_cores + profile.cpu_cores_per_player * count in
      let size = size_server profile players in
      (ram ≤ size.ram_mb)
      × (size.ram_mb < max 1 ram + 512000)
      × (size.ram_mb % 512000 ≡ 0)
      × (cpu ≤ size.cpu_cores)
      × (size.cpu_cores < max 1 cpu + 500)
      × (size.cpu_cores % 500 ≡ 0)
unfolding size_server
size_server_bounds profile players =
    let count = players_or_default profile players in
    let ram = memory_step (profile.base_ram_mb + profile.ram_mb_per_player * count) in
    let cpu = core_step (profile.base_cpu_cores + profile.cpu_cores_per_player * count) in
    (ram.0, ram.1, ram.2, cpu.0, cpu.1, cpu.2)

-- A table's switch has a port for every seat and one more.
pub table_switch_ports_for_fits : (seats : ℕ) → seats < table_switch_ports_for seats
unfolding table_switch_ports_for
table_switch_ports_for_fits seats = ground arith

port_limit-le : (ports : List GamePort) (limit : ℕ) → port_limit ports limit ≤ limit
port_limit-le [] limit = omega arith
port_limit-le (p ∷ ports) limit = omega (arith, port_limit-le ports (min limit (65535 - p.port)))

unfoldable pub valid_ports : List GamePort → Bool
valid_ports ports = all (λ p. leb p.port 65535) ports

shifted-valid :
    (ports : List GamePort) (limit offset : ℕ)
    → valid_ports ports ≡ true
    → offset ≤ port_limit ports limit
    → valid_ports (map {B = GamePort} (λ p. record p { port = p.port + offset }) ports) ≡ true
unfolding valid_ports
shifted-valid [] limit offset h k = refl
shifted-valid (p ∷ ports) limit offset h k = ground (
  arith,
  port_limit-le ports (min limit (65535 - p.port)),
  shifted-valid ports (min limit (65535 - p.port)) offset,
)

-- An offset within the limit keeps every port of a server at or below 65535.
pub resolve_ports-valid :
    (profile : GameProfile) (offset : ℕ)
    → valid_ports profile.ports ≡ true
    → offset ≤ max_port_offset profile
    → valid_ports (resolve_ports profile offset) ≡ true
unfolding resolve_ports max_port_offset
resolve_ports-valid profile offset h k = shifted-valid profile.ports 1000 offset h k
