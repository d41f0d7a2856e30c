-- ===== src/Store/Preview.antt =====
-- frontend/src/features/builder/lib/proposal-preview.ts: the canvas on which a proposal is reviewed. Of
-- what is drawn, the status of each change and the order of its appearance are kept.
pub mod Whole
pub mod Shown
mod Tests
use homelab_builder.Store.History.{canvas_of}
use homelab_builder.Store.Validation.{validation_to_issues, ValidationReport}
use homelab_builder.Store.Signature.{text_le}
use homelab_builder.Store.Loading.{map_build_to_flow, nonempty, Build}
use homelab_builder.Store.Canvas.{node_ids}
use homelab_builder.Types.{
  HardwareNodeValidationIssue, spread, get, Point, HardwareSpec, HardwareNode, Dict,
}
use homelab_builder.Store.State.{
  hardware_card, BuilderState, rack_card, Size, EdgeData, Snapshot, Node, Edge,
}
use homelab_builder.Base.{
  or_else, int_lt, max, ltb, is?, add, ◌||◌, ◌==◌, ◌+◌, ◌++◌, ◌&&◌, true, sort, pos, is_some?, find,
  false, concat, ◌∷◌, ◌+ℤ◌, ℤ, some, or_option, not, none, map, keep, if◌then◌else◌, contains, [],
  ℕ, String, Option, List, Bool, string_eq, nat_eq, int_eq,
}

pub data DiffStatus : Type 0 where
  added changed removed : DiffStatus

pub record ConnectionDiff : Type 0 where
  pub source : String
  pub target : String
  pub target_handle : Option String
  pub type : String

-- The ids that the lists of a diff name; of guests and components the hosts'.
pub record ProposalDiff : Type 0 where
  pub nodes_added : List String
  pub nodes_removed : List String
  pub nodes_changed : List String
  pub vm_hosts : List String
  pub component_hosts : List String
  pub connections_added : List ConnectionDiff
  pub connections_removed : List ConnectionDiff
  pub connections_changed : List ConnectionDiff

pub record Proposal : Type 0 where
  pub id : String
  pub build : Option Build
  pub validation : Option ValidationReport
  pub diff : ProposalDiff

-- A card and a cable with how they are marked.
pub record MarkedNode : Type 0 where
  pub node : Node
  pub status : Option DiffStatus
  pub reveal_index : Option ℕ

pub record MarkedEdge : Type 0 where
  pub edge : Edge
  pub status : Option DiffStatus
  pub reveal_index : Option ℕ

pub record ProposalPreviewGraph : Type 0 where
  pub hardware_nodes : List HardwareNode
  pub nodes : List MarkedNode
  pub edges : List MarkedEdge
  pub validation_issues : List HardwareNodeValidationIssue
  pub changed_node_ids : List String

-- `a < b` on texts.
abbrev pub text_lt : String → String → Bool
text_lt a b = not (text_le b a)

-- Cables are known by their pair of nodes; a power cable adds the input that it feeds.
unfoldable pub connection_key : String → String → Option String → Option String → String
connection_key source target type target_handle =
    let pair =
      if text_lt source target
      then concat source (concat "|" target)
      else concat target (concat "|" source) in
    if is? type "power"
    then concat pair (concat "|power|" (concat target (concat ":" (or_else target_handle ""))))
    else pair

abbrev link_key : ConnectionDiff → String
link_key link = connection_key link.source link.target (some link.type) link.target_handle

abbrev edge_type : Option EdgeData → Option String
edge_type none = none
edge_type (some cable) = cable.connection_type

abbrev pub edge_key : Edge → String
edge_key e = connection_key e.source e.target (edge_type e.cable) e.target_handle

abbrev marks : DiffStatus → List String → Dict DiffStatus
marks status ids = map {B = String × DiffStatus} (λ id. (id, status)) ids

-- The status of each node; a host whose guests or parts change is changed, and a new one is new.
unfoldable pub node_status : ProposalDiff → Dict DiffStatus
node_status diff = spread [] (
    marks changed diff.nodes_changed
    ++ marks changed diff.vm_hosts
    ++ marks changed diff.component_hosts
    ++ marks added diff.nodes_added)

unfoldable pub edge_status : ProposalDiff → Dict DiffStatus
edge_status diff = spread [] (
    marks added (map link_key diff.connections_added)
    ++ marks changed (map link_key diff.connections_changed))

-- `new Map(live.nodes.map(node => [node.id, node])).get(id)`
unfoldable pub live_by_id : List Node → String → Option Node
live_by_id live id = get (spread [] (map {B = String × Node} (λ n. (n.id, n)) live)) id

abbrev measured_of : Option Node → Option Size
measured_of none = none
measured_of (some n) = n.measured

-- A card that is on the canvas already keeps its measured size.
unfoldable pub mark : List Node → Node → Option DiffStatus → MarkedNode
mark live n status = record {
  node = record n {
    measured = or_option (measured_of (live_by_id live n.id)) n.measured;
    selected = false;
  };
  status = status;
  reveal_index = none;
}

-- What a proposal removes stays in sight as a ghost.
abbrev pub is_ghost : List String → List String → String → Bool
is_ghost removed_ids proposed_ids id = contains removed_ids id && not (contains proposed_ids id)

abbrev x_of : Option Node → ℤ
x_of none = pos 0
x_of (some n) = n.position.x

abbrev y_of : Option Node → ℤ
y_of none = pos 0
y_of (some n) = n.position.y

abbrev pub lifted : List Node → String → MarkedNode → MarkedNode
lifted live rack_id ghost = record ghost {
  node = record (ghost.node) {
    position = record {
      x = x_of (live_by_id live rack_id) +ℤ ghost.node.position.x;
      y = y_of (live_by_id live rack_id) +ℤ ghost.node.position.y;
    };
    parent_id = none;
    inside_parent = false;
  };
}

abbrev pub float_from :
    List Node → List String → List String → MarkedNode → Option String → MarkedNode
float_from live proposed_ids ghost_ids ghost none = ghost
float_from live proposed_ids ghost_ids ghost (some rack_id) =
    if contains proposed_ids rack_id || contains ghost_ids rack_id
    then ghost
    else lifted live rack_id ghost

-- A ghost whose rack is neither kept nor a ghost itself floats at its old spot.
unfoldable pub floated : List Node → List String → List String → MarkedNode → MarkedNode
floated live proposed_ids ghost_ids ghost =
    float_from live proposed_ids ghost_ids ghost (nonempty ghost.node.parent_id)

abbrev is_rack_card : MarkedNode → Bool
is_rack_card n = elim n.node.kind [ rack_card ↦ true | hardware_card ↦ false ]

-- React Flow needs a parent before its children; the sort is stable.
unfoldable pub parents_first : List MarkedNode → List MarkedNode
parents_first nodes = keep is_rack_card nodes ++ keep (λ n. not (is_rack_card n)) nodes

abbrev pub marked_ids : List MarkedNode → List String
marked_ids nodes = map (λ n. n.node.id) nodes

unfoldable pub preview_nodes : ProposalDiff → Snapshot → Snapshot → List MarkedNode
preview_nodes diff proposed live =
    let proposed_ids = node_ids proposed.nodes in
    let ghosts = keep (λ n. is_ghost diff.nodes_removed proposed_ids n.id) live.nodes in
    parents_first (
      map (λ n. mark live.nodes n (get (node_status diff) n.id)) proposed.nodes
      ++ map
          (λ n.
            floated live.nodes proposed_ids (node_ids ghosts) (mark live.nodes n (some removed)))
          ghosts)

abbrev pub preview_edge : Option DiffStatus → Edge → MarkedEdge
preview_edge status e = record {
  edge = record e { type = some "proposal" };
  status = status;
  reveal_index = none;
}

abbrev ghost_edge : Edge → MarkedEdge
ghost_edge e = preview_edge (some removed) (record e { id = concat "removed-" e.id })

abbrev pub are_visible : List String → Edge → Bool
are_visible visible_ids e = contains visible_ids e.source && contains visible_ids e.target

unfoldable pub preview_edges : ProposalDiff → List String → List Edge → List Edge → List MarkedEdge
preview_edges diff visible_ids proposed live =
    map (λ e. preview_edge (get (edge_status diff) (edge_key e)) e)
      (keep (are_visible visible_ids) proposed)
    ++ map ghost_edge (
        keep (are_visible visible_ids)
          (keep (λ e. contains (map link_key diff.connections_removed) (edge_key e)) live))

abbrev reveal_order : Option DiffStatus → ℕ
reveal_order none = 0
reveal_order (some removed) = 0
reveal_order (some changed) = 1
reveal_order (some added) = 2

abbrev place_in : Option MarkedNode → MarkedNode → Point
place_in none n = n.node.position
place_in (some other) n = record {
  x = n.node.position.x +ℤ other.node.position.x;
  y = n.node.position.y +ℤ other.node.position.y;
}

-- Where a card stands on the canvas.
unfoldable pub place : List MarkedNode → MarkedNode → Point
place nodes n = elim (nonempty n.node.parent_id) [
  | none ↦ n.node.position
  | some rack_id ↦ place_in (find (λ entry. entry.node.id == rack_id) nodes) n
]

-- Removed, changed, new; within each from top to bottom and from left to right. `locale_before a b` is
-- `a.localeCompare(b) <= 0`.
unfoldable pub reveals_before :
    (String → String → Bool) → List MarkedNode → MarkedNode → MarkedNode → Bool
reveals_before locale_before nodes a b =
    let order_a = reveal_order a.status in
    let order_b = reveal_order b.status in
    let at_a = place nodes a in
    let at_b = place nodes b in
    if not (order_a == order_b)
    then ltb order_a order_b
    else if not (at_a.y == at_b.y)
    then int_lt at_a.y at_b.y
    else if not (at_a.x == at_b.x)
    then int_lt at_a.x at_b.x
    else locale_before a.node.id b.node.id

abbrev pub index_from : ℕ → List String → String → Option ℕ
index_from n [] id = none
index_from n (other ∷ ids) id =
    let later = index_from (n + 1) ids id in
    elim later [ none ↦ (if other == id then some n else none) | some m ↦ some m ]

abbrev pub revealed_node : List String → MarkedNode → MarkedNode
revealed_node changed_ids n = record n { reveal_index = index_from 0 changed_ids n.node.id }

-- A cable appears with the later of its two ends.
abbrev pub revealed_edge : List String → MarkedEdge → MarkedEdge
revealed_edge changed_ids e =
    if is_some? e.status
    then record e {
      reveal_index = some (
          max (or_else (index_from 0 changed_ids e.edge.source) 0)
            (or_else (index_from 0 changed_ids e.edge.target) 0)
          + 1);
    }
    else e

-- A changed cable brings both of its ends into view.
unfoldable pub with_cable_ends : List String → List MarkedEdge → List String
with_cable_ends ids [] = ids
with_cable_ends ids (e ∷ edges) =
    with_cable_ends (if is_some? e.status then add (add ids e.edge.source) e.edge.target else ids)
      edges

abbrev no_graph : Snapshot
no_graph = record { nodes = []; edges = []; hardware_nodes = []; meta = none }

module _ (parse_json : String → Option HardwareSpec) (locale_before : String → String → Bool) where
  abbrev pub proposed_graph : Option Build → Snapshot
  proposed_graph none = no_graph
  proposed_graph (some build) = map_build_to_flow parse_json build

  unfoldable pub build_proposal_preview : Proposal → Snapshot → ProposalPreviewGraph
  build_proposal_preview proposal live =
      let proposed = proposed_graph proposal.build in
      let diff = proposal.diff in
      let nodes = preview_nodes diff proposed live in
      let edges = preview_edges diff (marked_ids nodes) proposed.edges live.edges in
      let changed_ids =
        marked_ids
          (sort (reveals_before locale_before nodes) (keep (λ n. is_some? n.status) nodes)) in
      record {
        hardware_nodes =
            proposed.hardware_nodes
            ++ keep
                (λ d.
                  contains
                    (node_ids (
                      keep (λ n. is_ghost diff.nodes_removed (node_ids proposed.nodes) n.id)
                        live.nodes))
                    d.id)
                live.hardware_nodes;
        nodes = map (revealed_node changed_ids) nodes;
        edges = map (revealed_edge changed_ids) edges;
        validation_issues = validation_to_issues proposal.validation;
        changed_node_ids = with_cable_ends changed_ids edges;
      }

  -- The preview opens on everything that the proposal touches.
  unfoldable pub start_proposal_preview : Proposal → BuilderState → BuilderState
  start_proposal_preview proposal state =
      let graph = build_proposal_preview proposal (canvas_of state) in
      record state {
        selected_node_id = none;
        proposal_preview = some (record {
          proposal_id = proposal.id;
          nodes = map (λ n. n.node) graph.nodes;
          edges = map (λ e. e.edge) graph.edges;
          hardware_nodes = graph.hardware_nodes;
          validation_issues = graph.validation_issues;
          changed_node_ids = graph.changed_node_ids;
          focus = elim graph.changed_node_ids [
            | [] ↦ none
            | id ∷ ids ↦ some (record { ids = some (id ∷ ids); nonce = 0 })
          ];
        });
      }
