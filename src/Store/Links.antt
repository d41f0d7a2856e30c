-- ===== src/Store/Links.antt =====
-- builder-store.ts: what React Flow reports (moves, removals, new links), and the arrangement.
use homelab_builder.Base.{
  ℕ, ◌+◌, String, Bool, true, false, not, ◌&&◌, ◌||◌, Option, none, some, List, [], ◌∷◌, map, ltb,
  if◌then◌else◌, ◌==◌, nat_eq, string_eq, is?, is_some?, length, any, keep, contains, add, ℤ, ◌-ℤ◌,
  abs, int_eq,
}
use homelab_builder.Hardware.{HardwareType, type_eq, access_point}
use homelab_builder.Power
use homelab_builder.Power.{is_power_handle, normalize_power_connection}
use homelab_builder.Connection.{Medium, ethernet, required_connection_type}
use homelab_builder.Types.{HardwareNode, Point, Dict, get, spread}
use homelab_builder.Store.State.{BuilderState, BuildStatus, ready, Node, Edge, EdgeData}
use homelab_builder.Store.History.{record_edit, with_node_positions}

-- What React Flow says of a node. A move that is still going on is dragged.
pub data NodeChange : Type 0 where
  moved : String → Option Point → Bool → NodeChange
  removed : String → NodeChange
  resized : String → ℤ → ℤ → NodeChange
  picked : String → Bool → NodeChange

pub data EdgeChange : Type 0 where
  cut : String → EdgeChange
  chosen : String → Bool → EdgeChange

-- An edge without an id, as the store hands it to React Flow.
pub record NewEdge : Type 0 where
  pub source : String
  pub target : String
  pub source_handle : Option String
  pub target_handle : Option String
  pub type : String
  pub cable : EdgeData

-- The functions of @xyflow/react that the store calls.
pub record ReactFlow : Type 0 where
  pub apply_node_changes : List NodeChange → List Node → List Node
  pub apply_edge_changes : List EdgeChange → List Edge → List Edge
  pub add_edge : NewEdge → List Edge → List Edge

abbrev pub is_drag_end : NodeChange → Bool
is_drag_end (moved id position dragging) = not dragging
is_drag_end _ = false

abbrev pub removed_ids : List NodeChange → List String
removed_ids [] = []
removed_ids (removed id ∷ changes) = add (removed_ids changes) id
removed_ids (_ ∷ changes) = removed_ids changes

-- The loop that adds what sat in a deleted rack.
unfoldable pub gone_with : List HardwareNode → List String → List String
gone_with [] gone = gone
gone_with (node ∷ devices) gone = gone_with devices (
    if (elim node.parent_id [ none ↦ false | some p ↦ not (p == "") && contains gone p ])
    then add gone node.id
    else gone)

abbrev is_gone : List String → Option String → Bool
is_gone gone none = false
is_gone gone (some id) = not (id == "") && contains gone id

unfoldable pub has_removal : List NodeChange → Bool
has_removal [] = false
has_removal (removed id ∷ changes) = true
has_removal (_ ∷ changes) = has_removal changes

-- The canvas without the devices that are gone.
unfoldable pub without_nodes : BuilderState → List String → BuilderState
without_nodes state gone = record state {
  nodes = keep (λ n. not (contains gone n.id)) state.nodes;
  hardware_nodes = keep (λ n. not (contains gone n.id)) state.hardware_nodes;
  edges = keep (λ e. not (contains gone e.source) && not (contains gone e.target)) state.edges;
  selected_node_id = if is_gone gone state.selected_node_id then none else state.selected_node_id;
}

abbrev pub is_cut : EdgeChange → Bool
is_cut (cut id) = true
is_cut (chosen id selected) = false

module _ (flow : ReactFlow) where
  unfoldable pub on_nodes_change : BuilderState → List NodeChange → BuilderState
  on_nodes_change state changes =
      let dropped = any is_drag_end changes in
      let removal = has_removal changes in
      let nodes = flow.apply_node_changes changes state.nodes in
      if not dropped && not removal
      then record state { nodes = nodes }
      else let changed = record (record_edit state) { nodes = nodes } in
        let gone = gone_with state.hardware_nodes (removed_ids changes) in
        let kept = if removal then without_nodes changed gone else changed in
        if dropped
        then record kept { hardware_nodes = with_node_positions kept.hardware_nodes kept.nodes }
        else kept

  unfoldable pub on_edges_change : BuilderState → List EdgeChange → BuilderState
  on_edges_change state changes =
      let edges = flow.apply_edge_changes changes state.edges in
      if any is_cut changes
      then record (record_edit state) { edges = edges }
      else record state { edges = edges }

  -- The type of a device, if the canvas has it.
  abbrev type_of : BuilderState → String → Option HardwareType
  type_of state id =
      if id == ""
      then none
      else get
          (spread [] (map {B = String × HardwareType} (λ n. (n.id, n.type)) state.hardware_nodes))
          id

  abbrev power_data : EdgeData
  power_data = record {
    connection_type = some "power";
    speed = none;
    subnet = none;
    wireless_standard = none;
    direction = none;
  }

  abbrev network_data : Bool → EdgeData
  network_data wifi = record {
    connection_type = some (if wifi then "wireless" else "ethernet");
    speed = some "1 GbE";
    subnet = some "";
    wireless_standard = some (if wifi then "Wi-Fi 6" else "");
    direction = some "auto";
  }

  abbrev new_edge : Power.Connection → EdgeData → NewEdge
  new_edge c cable = record {
    source = c.source;
    target = c.target;
    source_handle = c.source_handle;
    target_handle = c.target_handle;
    type = "custom";
    cable = cable;
  }

  abbrev is_ethernet : Option Medium → Bool
  is_ethernet (some ethernet) = true
  is_ethernet _ = false

  -- A link of an access point is wireless, unless a LAN table is at the other end.
  abbrev is_access_point_link : Option HardwareType → Option HardwareType → Bool
  is_access_point_link a b =
      not (is_ethernet (required_connection_type a b)) && (is? a access_point || is? b access_point)

  abbrev connected : BuilderState → NewEdge → BuilderState
  connected state edge = record (record_edit state) {
    edges = flow.add_edge edge state.edges;
    validation_issues = [];
  }

  -- A new link; the addresses are recalculated afterwards unless the link is refused.
  unfoldable pub on_connect : BuilderState → Power.Connection → BuilderState
  on_connect state connection =
      if is_power_handle connection.source_handle || is_power_handle connection.target_handle
      then elim (normalize_power_connection connection) [
        | none ↦ state
        | some cable ↦ connected state (new_edge cable power_data)
      ]
      else connected state (
          new_edge connection (
            network_data (
              is_access_point_link (type_of state connection.source)
                (type_of state connection.target))))

-- `requestCanvasFocus`
unfoldable pub request_canvas_focus : BuilderState → Option (List String) → BuilderState
request_canvas_focus state ids = record state {
  canvas_focus = some (record {
    ids = ids;
    nonce = elim state.canvas_focus [ none ↦ 1 | some focus ↦ focus.nonce + 1 ];
  });
}

abbrev pub is_ready : BuildStatus → Bool
is_ready ready = true
is_ready _ = false

-- Whether the arrangement moves this node: it has a place, stands in no rack, and is half a pixel off.
abbrev pub target_of : Dict Point → Node → Option Point
target_of targets node = elim (get targets node.id) [
  | none ↦ none
  | some to ↦
      if is_some? node.parent_id
        || (ltb (abs (node.position.x -ℤ to.x)) 500 && ltb (abs (node.position.y -ℤ to.y)) 500)
      then none
      else some to
]

abbrev pub arranged : Dict Point → Node → Node
arranged targets node = elim (target_of targets node) [
  | none ↦ node
  | some to ↦ record node { position = to }
]

-- Moves top-level nodes to the given places, as one undo step; the number is how many moved.
unfoldable pub apply_layout : BuilderState → List (String × Point) → BuilderState × ℕ
apply_layout state positions =
    if is_some? state.proposal_preview || not (is_ready state.build_status)
    then (state, 0)
    else let targets = spread [] positions in
      let moving = length (keep (λ n. is_some? (target_of targets n)) state.nodes) in
      let nodes = map (arranged targets) state.nodes in
      if moving == 0 then (state, 0) else (
        request_canvas_focus
            (record (record_edit state) {
              nodes = nodes;
              hardware_nodes = with_node_positions state.hardware_nodes nodes;
              layout_motion = state.layout_motion + 1;
            })
            none,
        moving,
      )
