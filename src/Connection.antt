-- ===== src/Connection.antt =====
-- frontend/src/features/builder/lib/connection-rules.ts: whether a link may be drawn.
pub mod Graph
pub mod Loops
pub mod Feeds
pub mod Ports
pub mod Accepted
pub mod OneFeed
pub mod OneCable
mod Tests
use homelab_builder.Search.{explore}
use homelab_builder.Power.{normalize_power_connection, is_power_handle}
use homelab_builder.Types.{spread, put, get, HardwareNode, Dict}
use homelab_builder.Hardware.{
  type_eq, can_node_connect_to_any, lan_table, access_point, is_wifi_association, HardwareType,
}
use homelab_builder.Base.{
  ◌+◌, map, ◌||◌, ◌&&◌, length, is_some?, add, ◌∷◌, ◌==◌, true, some, or_else, not, none, keep, is?,
  if◌then◌else◌, false, any, [], String, Option, List, Bool, string_eq, nat_eq, int_eq,
}
use homelab_builder.Power

-- A handle as a link carries it: it may be missing, null, or a text.
pub data Handle : Type 0 where
  undefined null : Handle
  text : String → Handle

abbrev pub to_option : Handle → Option String
to_option (text handle) = some handle
to_option _ = none

-- `===` on handles: undefined and null differ.
abbrev pub same_handle : Handle → Handle → Bool
same_handle undefined undefined = true
same_handle null null = true
same_handle (text a) (text b) = a == b
same_handle _ _ = false

pub record LinkEnd : Type 0 where
  pub source : Option String
  pub target : Option String
  pub source_handle : Handle
  pub target_handle : Handle

pub data ConnectionCheck : Type 0 where
  ok : ConnectionCheck
  refused : Option String → ConnectionCheck

-- A check that passes goes on to the next one.
infixl 5 ◌>>◌
abbrev pub ◌>>◌ : ConnectionCheck → ConnectionCheck → ConnectionCheck
ok >> k = k
refused message >> k = refused message

abbrev pub forbid : Bool → String → ConnectionCheck
forbid true message = refused (some message)
forbid false message = ok

-- An end that is missing or empty is no end.
abbrev pub present : Option String → Option String
present none = none
present (some id) = if id == "" then none else some id

pub data Medium : Type 0 where
  wireless ethernet : Medium

unfoldable pub required_connection_type : Option HardwareType → Option HardwareType → Option Medium
required_connection_type none b = none
required_connection_type (some a) none = none
required_connection_type (some a) (some b) =
    if is_wifi_association a b
    then some wireless
    else if a == lan_table || b == lan_table
    then some ethernet
    else none

unfoldable pub is_power_edge : LinkEnd → Bool
is_power_edge edge =
    is_power_handle (to_option edge.source_handle) || is_power_handle (to_option edge.target_handle)

-- `new Map(nodes.map(node => [node.id, node.type]))`: a later node of the same id counts.
unfoldable pub types_of : List HardwareNode → Dict HardwareType
types_of nodes = spread [] (map (λ node. (node.id, node.type)) nodes)

-- `id ? types.get(id) : undefined`
abbrev pub type_at : Dict HardwareType → Option String → Option HardwareType
type_at types none = none
type_at types (some id) = if id == "" then none else get types id

-- Whether a cable of these two types takes the port at a device: a Wi-Fi client never takes the
-- access point's port.
abbrev pub takes_port_of : Option HardwareType → Option HardwareType → Option HardwareType → Bool
takes_port_of (some a) (some b) device = not (is? device access_point && is_wifi_association a b)
takes_port_of _ _ device = true

unfoldable pub takes_port : Dict HardwareType → LinkEnd → String → Bool
unfolding is_power_edge
takes_port types edge node_id =
    if is_power_edge edge
    then false
    else takes_port_of (type_at types edge.source) (type_at types edge.target) (get types node_id)

-- Whether the edge sits on this handle of the device.
abbrev pub touches : LinkEnd → String → Handle → Bool
touches edge node_id handle =
    (is? edge.source node_id && same_handle edge.source_handle handle)
    || (is? edge.target node_id && same_handle edge.target_handle handle)

unfoldable pub handle_in_use : Dict HardwareType → List LinkEnd → String → Handle → Bool
handle_in_use types edges node_id handle =
    any (λ edge. takes_port types edge node_id && touches edge node_id handle) edges

-- Whether a network cable hangs on the device.
unfoldable pub has_uplink : List LinkEnd → String → Bool
has_uplink edges node_id =
    any (λ edge. not (is_power_edge edge) && (is? edge.source node_id || is? edge.target node_id))
      edges

-- The two statements `adjacency.set(id, new Set())` and `adjacency.get(a).add(b)`.
unfoldable pub neighbors : Dict (List String) → String → List String
neighbors adjacency a = or_else (get adjacency a) []

unfoldable pub ensure : Dict (List String) → String → Dict (List String)
ensure adjacency a = if is_some? (get adjacency a) then adjacency else put adjacency a []

unfoldable pub add_neighbor : Dict (List String) → String → String → Dict (List String)
add_neighbor adjacency a b = put adjacency a (add (neighbors adjacency a) b)

abbrev pub link : Dict (List String) → String → String → Dict (List String)
link adjacency a b = add_neighbor (add_neighbor (ensure (ensure adjacency a) b) a b) b a

-- One round of the loop that builds the adjacency.
unfoldable pub add_edge : Dict (List String) → LinkEnd → Dict (List String)
add_edge adjacency edge = if is_power_edge edge then adjacency else elim (present edge.source) [
  | none ↦ adjacency
  | some a ↦ elim (present edge.target) [ none ↦ adjacency | some b ↦ link adjacency a b ]
]

unfoldable pub adjacency_from : Dict (List String) → List LinkEnd → Dict (List String)
adjacency_from adjacency [] = adjacency
adjacency_from adjacency (edge ∷ edges) = adjacency_from (add_edge adjacency edge) edges

-- The ends of the edges: more rounds than these the search never makes.
unfoldable pub ends_of : List LinkEnd → List String
ends_of [] = []
ends_of (edge ∷ edges) = or_else edge.source "" ∷ or_else edge.target "" ∷ ends_of edges

-- Whether a search that ended found its goal.
abbrev pub found : Option Bool → Bool
found none = false
found (some answer) = answer

-- The search of `makesLoop`. `none` means that the fuel ran out.
unfoldable pub loop_search : List LinkEnd → String → String → Option Bool
loop_search edges source target =
    let adjacency = adjacency_from [] edges in
    explore (neighbors adjacency) target (length (ends_of edges) + 2) (source ∷ []) (source ∷ [])

unfoldable pub makes_loop : List LinkEnd → String → String → Bool
makes_loop edges source target = found (loop_search edges source target)

-- The targets that the power cables lead to from a device, in the order of the cables.
unfoldable pub feeds_from : List LinkEnd → String → List String
feeds_from [] current = []
feeds_from (edge ∷ feeds) current =
    let rest = feeds_from feeds current in
    elim (present edge.target) [
      | none ↦ rest
      | some target ↦ if is? edge.source current then target ∷ rest else rest
    ]

-- The search of `feedsBack`.
unfoldable pub feed_search : List LinkEnd → String → String → Option Bool
feed_search feeds target source =
    explore (feeds_from feeds) source (length (ends_of feeds) + 2) (target ∷ []) (target ∷ [])

unfoldable pub feeds_back : List LinkEnd → String → String → Bool
feeds_back feeds target source = found (feed_search feeds target source)

-- `edges.filter(isPowerEdge)`
unfoldable pub power_feeds : List LinkEnd → List LinkEnd
power_feeds edges = keep is_power_edge edges

-- A handle of a normalised cable, as the comparison with the edges' handles sees it.
abbrev pub of_option : Option String → Handle
of_option none = null
of_option (some handle) = text handle

unfoldable pub socket_in_use : List LinkEnd → Power.Connection → Bool
socket_in_use feeds cable =
    any
      (λ e.
        is? e.source cable.source && same_handle e.source_handle (of_option cable.source_handle))
      feeds

unfoldable pub input_in_use : List LinkEnd → Power.Connection → Bool
input_in_use feeds cable =
    any
      (λ e.
        is? e.target cable.target && same_handle e.target_handle (of_option cable.target_handle))
      feeds

-- The guards of a power cable, once it is oriented.
abbrev pub check_feed : Power.Connection → List LinkEnd → ConnectionCheck
check_feed cable feeds = do
  forbid (socket_in_use feeds cable) "That socket is already in use."
  forbid (input_in_use feeds cable) "That power input is already plugged in."
  forbid (feeds_back feeds cable.target cable.source)
      "That power cable would loop back into itself."

-- The link as a power cable, its handles `?? null`.
abbrev pub as_cable : LinkEnd → String → String → Power.Connection
as_cable connection source target = record {
  source = source;
  target = target;
  source_handle = to_option connection.source_handle;
  target_handle = to_option connection.target_handle;
}

unfoldable pub check_power_connection : Power.Connection → List LinkEnd → ConnectionCheck
check_power_connection connection edges = elim (normalize_power_connection connection) [
  | none ↦ refused (some "A power cable runs from a socket to a power input.")
  | some cable ↦ check_feed cable (power_feeds edges)
]

-- The network rules, for two devices whose types are known.
module _ (connection : LinkEnd) (types : Dict HardwareType) (edges : List LinkEnd) where
  unfoldable pub check_ports : String → HardwareType → String → HardwareType → ConnectionCheck
  check_ports source source_type target target_type =
      let wifi_client = is_wifi_association source_type target_type in
      let skip_source = wifi_client && source_type == access_point in
      let skip_target = wifi_client && target_type == access_point in
      do
        forbid (not skip_source && handle_in_use types edges source connection.source_handle)
            "Source port is already in use."
        forbid (not skip_target && handle_in_use types edges target connection.target_handle)
            "Target port is already in use."

unfoldable pub check_table : List LinkEnd → String → HardwareType → ConnectionCheck
check_table edges node_id type =
    forbid (type == lan_table && has_uplink edges node_id)
      "A LAN table has one uplink. Remove the existing one first."

unfoldable pub needs_hub : HardwareType → HardwareType → Bool
needs_hub source_type target_type =
    not (is_wifi_association source_type target_type)
    && not (can_node_connect_to_any source_type)
    && not (can_node_connect_to_any target_type)

unfoldable pub check_hub : HardwareType → HardwareType → ConnectionCheck
check_hub source_type target_type = forbid (needs_hub source_type target_type) (
    if source_type == lan_table || target_type == lan_table
    then "A LAN table plugs into a switch or router."
    else "Devices generally must connect through a network hub (Switch, Router, Modem, etc).")

unfoldable pub check_network :
    LinkEnd
    → Dict HardwareType
    → List LinkEnd
    → Bool
    → String
    → HardwareType
    → String
    → HardwareType
    → ConnectionCheck
check_network connection types edges ignore_loops source source_type target target_type = do
  check_ports connection types edges source source_type target target_type
  check_table edges source source_type
  check_table edges target target_type
  forbid (not ignore_loops && makes_loop edges source target) "Connection would create a loop."
  check_hub source_type target_type

-- The two ends, if both are there and differ.
abbrev pub ends : LinkEnd → Option (String × String)
ends connection = elim (present connection.source) [
  | none ↦ none
  | some source ↦ elim (present connection.target) [
    | none ↦ none
    | some target ↦ if source == target then none else some (source, target)
  ]
]

-- The device types of the two ends, if both devices are known.
abbrev pub end_types : Dict HardwareType → String → String → Option (HardwareType × HardwareType)
end_types types source target = elim (get types source) [
  | none ↦ none
  | some source_type ↦ elim (get types target) [
    | none ↦ none
    | some target_type ↦ some (source_type, target_type)
  ]
]

unfoldable pub check_connection :
    LinkEnd → List HardwareNode → List LinkEnd → Bool → ConnectionCheck
check_connection connection nodes edges ignore_loops = elim (ends connection) [
  | none ↦ refused none
  | some (source, target) ↦ elim (end_types (types_of nodes) source target) [
    | none ↦ refused none
    | some (source_type, target_type) ↦
        if is_power_edge connection
        then check_power_connection (as_cable connection source target) edges
        else check_network connection (types_of nodes) edges ignore_loops source source_type target
            target_type
  ]
]
