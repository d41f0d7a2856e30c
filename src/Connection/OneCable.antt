-- ===== src/Connection/OneCable.antt =====
-- connection-rules.ts: the network cables that a port carries, before and after a link is drawn.
use homelab_builder.Connection.{ends}
use homelab_builder.Power.{is_power_handle}
use homelab_builder.Base.{string_eq, nat_eq, int_eq}
use homelab_builder.Connection.Feeds.{edge_of}
use homelab_builder.Power
use homelab_builder.Power.{normalize_power_connection}
use homelab_builder.Hardware.{type_eq, HardwareType}
use homelab_builder.Types.{Dict}
use homelab_builder.Connection.{touches, ends, as_cable, takes_port, is_power_edge, LinkEnd, Handle}
use homelab_builder.Base.{
  none, some, or_else, ◌≤◌, ◌&&◌, ℕ, keep, length, if◌then◌else◌, String, Option, List, string_eq,
  nat_eq, int_eq,
}

-- How many cables take a handle of a device. Those of an access point's Wi-Fi clients do not.
unfoldable pub cables_on : Dict HardwareType → List LinkEnd → String → Handle → ℕ
cables_on types edges node_id handle =
    length (keep (λ edge. takes_port types edge node_id && touches edge node_id handle) edges)

abbrev pub IsOneCable : Dict HardwareType → List LinkEnd → Type 0
IsOneCable types edges =
    (node_id : String) (handle : Handle) → cables_on types edges node_id handle ≤ 1

-- The edge that an accepted link becomes: a power cable is turned from the socket to the power input.
abbrev drawn_cable : Option Power.Connection → LinkEnd → LinkEnd
drawn_cable none connection = connection
drawn_cable (some cable) connection = edge_of cable

abbrev pub drawn_link : LinkEnd → LinkEnd
drawn_link connection =
    if is_power_edge connection
    then drawn_cable
        (normalize_power_connection
          (as_cable connection (or_else connection.source "") (or_else connection.target "")))
        connection
    else connection
