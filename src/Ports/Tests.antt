-- ===== src/Ports/Tests.antt =====
-- port-config.ts: tests, and the theorems of Ports at concrete inputs.
use homelab_builder.Ports.Count.Bounds.{with_port_count-fits, settings_fit, cable_fits}
use homelab_builder.Ports.Vlans.{cable_vlan-shows, is_empty, both_let}
use homelab_builder.Text.{number_from, strip}
use homelab_builder.Ports.Address.Written.{parse_ipv4_prefix-written, written_prefix}
use homelab_builder.Types.{str, nil, cons, num, end, arr, obj, field, Fields}
use homelab_builder.Power.{is_power_handle}
use homelab_builder.Ports.Count.{
  kept_ports, eth_index, edge_highest, highest_cabled_port, ports_granted, with_port_count,
  CableEnds,
}
use homelab_builder.Ports.Address.{
  prefix_of_parts, last_part, part_before, is_host, parse_ipv4_prefix, is_ipv4_subnet, is_ipv4_cidr,
}
use homelab_builder.Ports.{
  field_in, as_record, both_carry, read_vlans, read_port_config, vlan_set, cable_vlan, PortNode,
}
use homelab_builder.Base.{
  none, arith, ◌&&◌, true, all, ◌≤◌, ◌+◌, sort, refl, ◌*◌, pos, false, ◌≡◌, ◌||◌, contains, [], ◌∷◌,
  some, String, string_eq, nat_eq, int_eq,
}

abbrev untrimmed : String → String
untrimmed text = text

gateway_address : is_ipv4_cidr untrimmed "192.168.10.1/24" ≡ true
unfolding is_ipv4_cidr is_host parse_ipv4_prefix part_before last_part prefix_of_parts number_from
gateway_address = refl

network_address : is_ipv4_cidr untrimmed "192.168.10.0/24" ≡ false
unfolding is_ipv4_cidr is_host parse_ipv4_prefix part_before last_part prefix_of_parts number_from
network_address = refl

padded_octet : is_ipv4_subnet untrimmed "192.168.010.0/24" ≡ false
unfolding is_ipv4_subnet parse_ipv4_prefix part_before last_part prefix_of_parts number_from
padded_octet = refl

parse_ipv4_prefix-written_example :
    parse_ipv4_prefix (written_prefix 192 168 10 1 24)
    ≡ some (record { ip = ((192 * 256 + 168) * 256 + 10) * 256 + 1; prefix = 24 })
parse_ipv4_prefix-written_example =
    parse_ipv4_prefix-written 192 168 10 1 24 (omega arith) (omega arith) (omega arith)
      (omega arith) (omega arith) (omega arith)

-- A switch whose port eth5 has VLANs.
abbrev settings : Fields
settings =
    field "eth5"
      (obj (
        field "untagged_vlan" (num (pos 10000))
          (field "tagged_vlans" (arr (cons (num (pos 20000)) nil)) end)))
      end

abbrev lan_switch : PortNode
lan_switch = record {
  type = some "switch";
  details = obj (
      field "port_config" (obj settings) (
        field "vlans"
          (arr (cons (obj (field "id" (num (pos 10000)) (field "color" (str "#0f0") end))) nil))
          end));
}

abbrev plain_switch : PortNode
plain_switch = record { type = some "switch"; details = obj end }

shows_both :
    cable_vlan (some lan_switch) (some "eth5") (some plain_switch) (some "eth0")
    ≡ record { vlans = 10 ∷ 20 ∷ []; color = some "#0f0"; mismatch = false }
unfolding cable_vlan vlan_set read_port_config read_vlans sort is_power_handle strip
shows_both = refl

network_handles : (is_power_handle (some "eth5") || is_power_handle (some "eth0")) ≡ false
unfolding is_power_handle strip
network_handles = refl

cable_vlan-shows_example :
    let r = cable_vlan (some lan_switch) (some "eth5") (some plain_switch) (some "eth0") in
    let s = vlan_set (some lan_switch) "eth5" in
    let t = vlan_set (some plain_switch) "eth0" in
    (contains r.vlans 10 ≡ both_let s t 10) × (r.mismatch ≡ (both_carry s t && is_empty r.vlans))
cable_vlan-shows_example =
    cable_vlan-shows (some lan_switch) (some "eth5") (some plain_switch) (some "eth0") 10
      network_handles

abbrev cable : CableEnds
cable = record {
  source = some "a";
  target = some "b";
  source_handle = some "eth2";
  target_handle = some "target-0";
}

-- Two ports were asked for, but a cable is in the third; the settings of the sixth go.
shrunk : (with_port_count "a" lan_switch (cable ∷ []) (some (pos 2000))).count ≡ 3
unfolding with_port_count ports_granted highest_cabled_port edge_highest eth_index is_power_handle
    strip number_from
shrunk = refl

stale_settings_gone :
    as_record (
      field_in
        (with_port_count "a" lan_switch (cable ∷ []) (some (pos 2000))).details
        "port_config")
    ≡ none
unfolding with_port_count ports_granted highest_cabled_port edge_highest eth_index is_power_handle
    strip number_from kept_ports
stale_settings_gone = refl

with_port_count-fits_example :
    let r = with_port_count "a" lan_switch (cable ∷ []) (some (pos 2000)) in
    (1 ≤ r.count)
    × (r.count ≤ 96)
    × (all (cable_fits "a" r.count) (cable ∷ []) ≡ true)
    × (settings_fit r.count r.details ≡ true)
with_port_count-fits_example = with_port_count-fits "a" lan_switch (cable ∷ []) (some (pos 2000))
