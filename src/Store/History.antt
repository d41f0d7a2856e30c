-- ===== src/Store/History.antt =====
-- builder-store.ts: the undo stack, and the helpers by which an edit changes the canvas.
pub mod Laws
pub mod Redo
use homelab_builder.Base.{
  ℕ, ◌-◌, String, Bool, false, not, ◌&&◌, ◌||◌, Option, none, some, List, [], ◌∷◌, ◌++◌, map,
  if◌then◌else◌, ◌==◌, nat_eq, string_eq, is?, is_some?, or_else, length, any, find, take, drop,
  int_eq,
}
use homelab_builder.Types.{HardwareNode, Point, Dict, get, spread, BuildKind}
use homelab_builder.Store.State.{
  BuilderState, Snapshot, SnapshotMeta, Node, CardData, HardwarePatch, patched, merged,
}

abbrev pub history_limit : ℕ
history_limit = 50

-- `xs.slice(-n)`
abbrev pub last : {A : Type 0} → ℕ → List A → List A
last n xs = drop (length xs - n) xs

-- The undo stack with a step on top. A new step drops whatever Redo could bring back.
unfoldable pub with_step : BuilderState → List Snapshot → Snapshot → BuilderState
with_step state past step = record state {
  history_past = last history_limit (past ++ step ∷ []);
  history_future = [];
}

-- The canvas as it is now.
abbrev pub canvas_of : BuilderState → Snapshot
canvas_of state = record {
  nodes = state.nodes;
  edges = state.edges;
  hardware_nodes = state.hardware_nodes;
  meta = none;
}

-- The undo step for an edit of the canvas that the state holds now.
unfoldable pub record_edit : BuilderState → BuilderState
unfolding with_step
record_edit state = with_step state state.history_past (canvas_of state)

-- The first device with the id, changed: `node === device` is that one object.
abbrev pub change_first : String → HardwarePatch → List HardwareNode → List HardwareNode
change_first node_id patch [] = []
change_first node_id patch (device ∷ devices) =
    if device.id == node_id
    then patched device patch ∷ devices
    else device ∷ change_first node_id patch devices

-- `{ ...node, data: { ...node.data, ...patch } }`
abbrev pub with_card : Node → HardwarePatch → Node
with_card node patch = record node {
  card = record { label = node.card.label; device = merged node.card.device patch };
}

-- Merges a change into one device, in the device list and on its card.
unfoldable pub change_device : BuilderState → String → (HardwareNode → HardwarePatch) → BuilderState
change_device state node_id change = elim (find (λ node. node.id == node_id) state.hardware_nodes) [
  | none ↦ state
  | some device ↦ record state {
    hardware_nodes = change_first node_id (change device) state.hardware_nodes;
    nodes =
        map (λ node. if node.id == node_id then with_card node (change device) else node)
          state.nodes;
  }
]

-- A device at the position of its card, if that has moved.
abbrev pub placed : Dict Point → HardwareNode → HardwareNode
placed positions node = elim (get positions node.id) [
  | none ↦ node
  | some position ↦
      if not (position.x == node.x) || not (position.y == node.y)
      then record node { x = position.x; y = position.y }
      else node
]

-- The devices, each at the position that its canvas node has now.
unfoldable pub with_node_positions : List HardwareNode → List Node → List HardwareNode
with_node_positions hardware_nodes nodes =
    let positions = spread [] (map {B = String × Point} (λ node. (node.id, node.position)) nodes) in
    map (placed positions) hardware_nodes

-- The same fields as a step's meta, with the values that the store holds now.
unfoldable pub current_meta : SnapshotMeta → BuilderState → SnapshotMeta
current_meta meta state = record {
  project_name = if is_some? meta.project_name then some state.project_name else none;
  build_kind = if is_some? meta.build_kind then some state.build_kind else none;
  gaming_plan = if is_some? meta.gaming_plan then some state.gaming_plan else none;
}

abbrev pub current_meta? : Option SnapshotMeta → BuilderState → Option SnapshotMeta
current_meta? none state = none
current_meta? (some meta) state = some (current_meta meta state)

-- The step that undoes a snapshot: the canvas now, with the fields that the snapshot would change.
unfoldable pub step_back : BuilderState → Snapshot → Snapshot
step_back state snap = record (canvas_of state) { meta = current_meta? snap.meta state }

-- Whether the device whose virtual network is open still has one.
abbrev pub has_network : Option String → HardwareNode → Bool
has_network host node =
    is? host node.id
    && elim node.details [ none ↦ false | some details ↦ is_some? details.virtual_network ]

-- `...(snap.meta ?? {})`
unfoldable pub restore_meta : BuilderState → Option SnapshotMeta → BuilderState
restore_meta state none = state
restore_meta state (some meta) = record state {
  project_name = or_else meta.project_name state.project_name;
  build_kind = or_else meta.build_kind state.build_kind;
  gaming_plan = or_else meta.gaming_plan state.gaming_plan;
}

-- What brings back a snapshot, keeping the selection and the open network where they still exist.
unfoldable pub restore_step : BuilderState → Snapshot → BuilderState
restore_step state snap =
    restore_meta
      (record state {
        virtual_host_id =
            if any (has_network state.virtual_host_id) snap.hardware_nodes
            then state.virtual_host_id
            else none;
        nodes = snap.nodes;
        edges = snap.edges;
        hardware_nodes = snap.hardware_nodes;
        selected_node_id =
            if any (λ node. is? state.selected_node_id node.id) snap.nodes
            then state.selected_node_id
            else none;
      })
      snap.meta

-- `past.pop()`: the last step and the steps before it.
unfoldable pub pop : List Snapshot → Option (Snapshot × List Snapshot)
pop [] = none
pop (step ∷ []) = some (step, [])
pop (step ∷ next ∷ steps) = elim (pop (next ∷ steps)) [
  | none ↦ none
  | some (top, rest) ↦ some (top, step ∷ rest)
]

abbrev set_history : BuilderState → List Snapshot → List Snapshot → BuilderState
set_history state past future = record state { history_past = past; history_future = future }

unfoldable pub undo : BuilderState → BuilderState
undo state = if is_some? state.proposal_preview then state else elim (pop state.history_past) [
  | none ↦ state
  | some (snap, past) ↦
      restore_step
        (set_history state past (take history_limit (step_back state snap ∷ state.history_future)))
        snap
]

abbrev redo_from : BuilderState → List Snapshot → BuilderState
redo_from state [] = state
redo_from state (snap ∷ future) =
    restore_step
      (set_history state (last history_limit (state.history_past ++ step_back state snap ∷ []))
        future)
      snap

unfoldable pub redo : BuilderState → BuilderState
redo state = if is_some? state.proposal_preview then state else redo_from state state.history_future
