-- ===== src/Zones.antt =====
-- frontend/src/features/builder/lib/network-zone.ts: which cables of a device with NAT lead into its LAN.
use homelab_builder.Store.State.{Edge}
use homelab_builder.Base.{
  or_else, true, false, ◌&&◌, none, not, ◌>>=◌, if◌then◌else◌, ◌==◌, some, Bool, String, Option,
  string_eq, nat_eq, int_eq,
}

-- A handle that is not there, or is empty, counts as the usual one of its end.
unfoldable pub is_auto_lan_port : Option String → Bool → Bool
is_auto_lan_port none is_source_endpoint = is_source_endpoint
is_auto_lan_port (some handle) is_source_endpoint =
    if handle == "" then is_source_endpoint else not (handle == "target-0")

-- What the cable itself says, and otherwise its port and what is at the other end.
unfoldable pub is_nat_downstream_edge : Edge → String → Bool → Bool
is_nat_downstream_edge edge nat_id other_is_upstream_anchor =
    let nat_is_source = edge.source == nat_id in
    let direction = or_else (edge.cable >>= (λ c. c.direction)) "" in
    let handle = if nat_is_source then edge.source_handle else edge.target_handle in
    if not nat_is_source && not (edge.target == nat_id)
    then false
    else if direction == "lan"
    then true
    else if direction == "wan"
    then false
    else is_auto_lan_port handle nat_is_source && not other_is_upstream_anchor
