-- ===== src/Store/Devices.antt =====
-- builder-store.ts: placing, removing, changing and copying devices.
use homelab_builder.Base.{
  ℕ, ◌+◌, ◌-◌, ◌*◌, String, Bool, false, not, ◌&&◌, ◌||◌, Option, none, some, List, [], ◌∷◌, ◌++◌,
  map, if◌then◌else◌, ◌==◌, nat_eq, string_eq, is?, is_some?, or_else, keep, find, contains, ℤ, pos,
  negsuc, ◌+ℤ◌, int_eq, whole, concat,
}
use homelab_builder.Hardware.{type_eq, rack, lan_table}
use homelab_builder.Gaming.{new_table_details}
use homelab_builder.Types.{
  HardwareNode, HardwareSpec, HardwareComponent, Json, num, get, spread_details, no_details,
}
use homelab_builder.Virtual.{without_asset_link, with_fresh_child_ids}
use homelab_builder.Store.State.{
  BuilderState, Node, rack_card, hardware_card, HardwarePatch, merged, patched, whole_device,
}
use homelab_builder.Store.History.{record_edit}

-- k times a signed number.
abbrev times : ℕ → ℤ → ℤ
times k (pos n) = pos (k * n)
times k (negsuc n) = if k == 0 then pos 0 else negsuc (k * (n + 1) - 1)

-- frontend/src/features/builder/components/rack-node-constants.ts
abbrev rack_width_px : ℤ
rack_width_px = whole 280

-- `rackSize || 24`
abbrev units_of : Option Json → ℤ
units_of (some (num v)) = if v == pos 0 then whole 24 else v
units_of _ = whole 24

unfoldable pub rack_height_px : Option HardwareSpec → ℤ
rack_height_px none = whole 40 +ℤ times 90 (whole 24) +ℤ whole 8
rack_height_px (some details) =
    whole 40 +ℤ times 90 (units_of (get details.other "rack_size")) +ℤ whole 8

-- `details?.seats === undefined`
abbrev has_seats : Option HardwareSpec → Bool
has_seats none = false
has_seats (some details) = is_some? (get details.other "seats")

-- `power_draw || d`
abbrev draw_or : Option ℤ → ℤ → ℤ
draw_or none d = d
draw_or (some w) d = if w == pos 0 then d else w

-- A LAN table always has its seats, switch and power figure, wherever it comes from.
unfoldable pub with_table : HardwareNode → HardwareNode
with_table raw =
    if raw.type == lan_table && not (has_seats raw.details)
    then record raw {
      name = if raw.name == "New lan_table" then "LAN Table" else raw.name;
      details = some (spread_details (new_table_details 8).0 (or_else raw.details no_details));
      power_draw = some (draw_or raw.power_draw (new_table_details 8).1);
    }
    else raw

abbrev pub is_rack : HardwareNode → Bool
is_rack device = device.type == rack

-- `parentId` and `extent` are set where the device has a parent.
abbrev pub parent_of : Option String → Option String
parent_of none = none
parent_of (some id) = if id == "" then none else some id

-- The card of a device that is placed.
unfoldable pub card_of : HardwareNode → Node
card_of device = record {
  id = device.id;
  kind = if is_rack device then rack_card else hardware_card;
  position = record { x = device.x; y = device.y };
  card = record { label = device.name; device = whole_device device };
  parent_id = parent_of device.parent_id;
  inside_parent = is_some? (parent_of device.parent_id);
  style =
      if is_rack device
      then some (record { width = rack_width_px; height = rack_height_px device.details })
      else none;
  z_index = if is_rack device then some (negsuc 999) else none;
  measured = none;
  width = none;
  height = none;
  selected = false;
}

unfoldable pub add_hardware : BuilderState → HardwareNode → BuilderState
add_hardware state raw =
    let device = with_table raw in
    record (record_edit state) {
      hardware_nodes = state.hardware_nodes ++ device ∷ [];
      nodes = state.nodes ++ card_of device ∷ [];
    }

-- A rack goes together with what is mounted in it.
unfoldable pub removed_with : List HardwareNode → String → List String
removed_with devices node_id = elim (find (λ n. n.id == node_id) devices) [
  | none ↦ node_id ∷ []
  | some device ↦
      if is_rack device
      then node_id ∷ map (λ n. n.id) (keep (λ n. is? n.parent_id node_id) devices)
      else node_id ∷ []
]

unfoldable pub remove_hardware : BuilderState → String → BuilderState
remove_hardware state node_id =
    let gone = removed_with state.hardware_nodes node_id in
    record (record_edit state) {
      hardware_nodes = keep (λ n. not (contains gone n.id)) state.hardware_nodes;
      nodes = keep (λ n. not (contains gone n.id)) state.nodes;
      edges = keep (λ e. not (contains gone e.source) && not (contains gone e.target)) state.edges;
      selected_node_id =
          if contains gone (or_else state.selected_node_id "")
          then none
          else state.selected_node_id;
    }

-- `'parent_id' in updates`: set with the parent, or cleared.
abbrev moved_into : Node → Option (Option String) → Node
moved_into node none = node
moved_into node (some parent) = record node {
  parent_id = parent_of parent;
  inside_parent = is_some? (parent_of parent);
}

abbrev moved_to : Node → HardwarePatch → Node
moved_to node updates =
    if is_some? updates.x || is_some? updates.y
    then record node {
      position = record {
        x = or_else updates.x node.position.x;
        y = or_else updates.y node.position.y;
      };
    }
    else node

unfoldable pub updated_node : HardwarePatch → Node → Node
updated_node updates node =
    moved_into
      (moved_to
        (record node {
          card = record {
            label = or_else updates.name node.card.label;
            device = merged node.card.device updates;
          };
        })
        updates)
      updates.parent_id

unfoldable pub update_hardware : BuilderState → String → HardwarePatch → BuilderState
update_hardware state node_id updates = record state {
  hardware_nodes = map (λ n. if n.id == node_id then patched n updates else n) state.hardware_nodes;
  nodes = map (λ n. if n.id == node_id then updated_node updates n else n) state.nodes;
}

abbrev unlinked_part : HardwareComponent → HardwareComponent
unlinked_part part = elim part.details [
  | none ↦ part
  | some details ↦ record part { details = some (without_asset_link details) }
]

-- The copy: another machine, at another place, with no guests and no address.
unfoldable pub copy_of : (ℕ → String) → HardwareNode → HardwareNode
copy_of fresh orig = with_fresh_child_ids fresh 1 (record orig {
  id = fresh 0;
  name = concat orig.name " (copy)";
  ip = some "";
  mac_address = some "";
  x = orig.x +ℤ whole 40;
  y = orig.y +ℤ whole 40;
  vms = some [];
  details =
      some
        (without_asset_link (record (or_else orig.details no_details) { virtual_network = none }));
  internal_components = some (map unlinked_part (or_else orig.internal_components []));
})

-- `fresh n` is what the n-th call of `randomUUID` gives.
unfoldable pub duplicate_hardware : (ℕ → String) → BuilderState → String → BuilderState
duplicate_hardware fresh state node_id = elim (find (λ n. n.id == node_id) state.hardware_nodes) [
  | none ↦ state
  | some orig ↦ if is_rack orig then state else record (record_edit state) {
    hardware_nodes = state.hardware_nodes ++ copy_of fresh orig ∷ [];
    nodes = state.nodes ++ card_of (copy_of fresh orig) ∷ [];
    selected_node_id = some (fresh 0);
  }
]
