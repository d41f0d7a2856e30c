-- ===== src/Store/Loading.antt =====
-- builder-store.ts: loading a build that the server sent, and whether the canvas differs from the
-- server's copy; and frontend/src/features/builder/lib/build-mapper.ts.
pub mod Loaded
mod Tests
use homelab_builder.Base.{
  ℕ, String, Bool, true, false, not, ◌&&◌, ◌||◌, Option, none, some, List, [], ◌++◌, map,
  if◌then◌else◌, ◌==◌, nat_eq, string_eq, is?, is_some?, or_else, or_option, any, keep, ℤ, pos,
  int_eq, whole, concat,
}
use homelab_builder.Store.Devices.{rack_height_px}
use homelab_builder.Hardware.{type_eq, rack}
use homelab_builder.Store.Links.{is_ready}
use homelab_builder.Store.State.{saving, unsaved, error, saved, ready, SaveState, no_settings}
use homelab_builder.Types.{homelab}
use homelab_builder.Store.Payload.{get_build_data, BuildData, device_by_id, text_or}
use homelab_builder.Store.State.{
  unsaved, hardware_card, ready, saved, no_settings, rack_card, BuilderState, SaveState,
  whole_device, no_change, Node, HardwarePatch, Snapshot, Edge, BuildSettings,
}
use homelab_builder.Hardware.{rack, HardwareType}
use homelab_builder.Types.{
  homelab, spread, get, Json, Dict, HardwareComponent, BuildKind, VirtualMachine, no_details,
  HardwareNode, HardwareSpec,
}

-- Details as the API stores them: missing, JSON text, or an object.
pub data StoredDetails : Type 0 where
  missing : StoredDetails
  json_text : String → StoredDetails
  object : HardwareSpec → StoredDetails

pub record BuildNode : Type 0 where
  pub id : String
  pub type : HardwareType
  pub name : String
  pub ip : Option String
  pub mac_address : Option String
  pub power_draw : Option ℤ
  pub x : Option ℤ
  pub y : Option ℤ
  pub virtual_machines : Option (List VirtualMachine)
  pub internal_components : Option (List HardwareComponent)
  pub details : StoredDetails
  pub parent_id : Option String

pub record BuildEdge : Type 0 where
  pub id : Option String
  pub source_node_id : String
  pub target_node_id : String
  pub source_handle : Option String
  pub target_handle : Option String
  pub type : Option String
  pub speed : Option String
  pub subnet : Option String
  pub wireless_standard : Option String
  pub direction : Option String

pub record Build : Type 0 where
  pub id : String
  pub name : String
  pub revision : ℕ
  pub nodes : Option (List BuildNode)
  pub edges : Option (List BuildEdge)
  pub settings : Option BuildSettings
  pub kind : Option BuildKind
  pub gaming_plan : Option (Dict Json)

-- `value || undefined`
abbrev nonzero : Option ℤ → Option ℤ
nonzero none = none
nonzero (some v) = if v == pos 0 then none else some v

abbrev pub nonempty : Option String → Option String
nonempty none = none
nonempty (some s) = if s == "" then none else some s

-- Racks first; the sort is stable.
unfoldable pub racks_first : List BuildNode → List BuildNode
racks_first nodes = keep (λ n. n.type == rack) nodes ++ keep (λ n. not (n.type == rack)) nodes

-- The parts of a loaded node that React Flow needs to keep showing it.
unfoldable pub keep_measured : List Node → Node → Node
keep_measured previous next =
    elim (get (spread [] (map {B = String × Node} (λ n. (n.id, n)) previous)) next.id) [
      | none ↦ next
      | some old ↦ record next {
        measured = or_option old.measured next.measured;
        width = or_option old.width next.width;
        height = or_option old.height next.height;
        selected = old.selected || next.selected;
      }
    ]

-- A build is open and its graph is there.
abbrev pub is_open : BuilderState → Bool
is_open s = is_some? (nonempty s.current_build_id) && is_ready s.build_status

-- `parse_json` is `JSON.parse`, with `none` for what throws or is no object.
module _ (parse_json : String → Option HardwareSpec) where
  unfoldable pub parse_details : StoredDetails → HardwareSpec
  parse_details missing = no_details
  parse_details (json_text json) =
      if json == "" then no_details else or_else (parse_json json) no_details
  parse_details (object details) = details

  unfoldable pub loaded_device : BuildNode → HardwareNode
  loaded_device n = record {
    id = n.id;
    type = n.type;
    name = n.name;
    ip = n.ip;
    mac_address = n.mac_address;
    subnet_mask = none;
    gateway = none;
    power_draw = nonzero n.power_draw;
    x = or_else n.x (pos 0);
    y = or_else n.y (pos 0);
    details = some (parse_details n.details);
    vms = some (or_else n.virtual_machines []);
    internal_components = some (or_else n.internal_components []);
    parent_id = nonempty n.parent_id;
  }

  abbrev loaded_card : Option HardwareNode → HardwarePatch
  loaded_card none = no_change
  loaded_card (some device) = whole_device device

  abbrev details_of : Option HardwareNode → Option HardwareSpec
  details_of none = none
  details_of (some device) = device.details

  unfoldable pub loaded_node : List HardwareNode → BuildNode → Node
  loaded_node devices n =
      let hw = device_by_id devices n.id in
      record {
        id = n.id;
        kind = if n.type == rack then rack_card else hardware_card;
        position = record { x = or_else n.x (pos 0); y = or_else n.y (pos 0) };
        card = record { label = n.name; device = loaded_card hw };
        parent_id = nonempty n.parent_id;
        inside_parent = is_some? (nonempty n.parent_id);
        style =
            if n.type == rack
            then some (record { width = whole 280; height = rack_height_px (details_of hw) })
            else none;
        z_index = none;
        measured = none;
        width = none;
        height = none;
        selected = false;
      }

  unfoldable pub loaded_edge : BuildEdge → Edge
  loaded_edge e = record {
    id = text_or e.id (concat e.source_node_id (concat "-" e.target_node_id));
    source = e.source_node_id;
    target = e.target_node_id;
    source_handle = nonempty e.source_handle;
    target_handle = nonempty e.target_handle;
    type = some "custom";
    cable = some (
        if is? e.type "power"
        then record {
          connection_type = some "power";
          speed = none;
          subnet = none;
          wireless_standard = none;
          direction = none;
        }
        else record {
          connection_type = some (text_or e.type "ethernet");
          speed = some (text_or e.speed "1 GbE");
          subnet = some (text_or e.subnet "");
          wireless_standard = some (text_or e.wireless_standard "Wi-Fi 6");
          direction = some (text_or e.direction "auto");
        });
  }

  unfoldable pub map_build_to_flow : Build → Snapshot
  map_build_to_flow build =
      let sent = or_else build.nodes [] in
      let devices = map loaded_device sent in
      record {
        nodes = map (loaded_node devices) (racks_first sent);
        edges = map loaded_edge (or_else build.edges []);
        hardware_nodes = devices;
        meta = none;
      }

  -- `fingerprint` is `JSON.stringify` of what a save sends.
  module _ (fingerprint : BuildData → String) where
    unfoldable pub has_unsaved_changes : BuilderState → Bool
    has_unsaved_changes s =
        if is_open s
        then not (fingerprint (get_build_data s) == s.last_synced_fingerprint)
        else false

    abbrev is_saving : SaveState → Bool
    is_saving saving = true
    is_saving _ = false

    abbrev next_state : Bool → SaveState → SaveState
    next_state false state = saved
    next_state true error = error
    next_state true _ = unsaved

    -- A running save reports its own outcome; a failed one stays failed until the canvas is in sync.
    unfoldable pub refresh_save_state : BuilderState → BuilderState
    refresh_save_state s = if is_saving s.save_state then s else record s {
      save_state = next_state (has_unsaved_changes s) s.save_state;
      save_error =
          if has_unsaved_changes s || (elim s.save_state [ saved ↦ true | _ ↦ false ])
          then s.save_error
          else none;
    }

    abbrev synced : BuilderState → BuilderState
    synced s = record s { last_synced_fingerprint = fingerprint (get_build_data s) }

    abbrev same_build : BuilderState → String → Bool
    same_build s id = is? s.current_build_id id && is_ready s.build_status

    abbrev kept_selection : BuilderState → String → List Node → Option String
    kept_selection s id nodes = elim (nonempty s.selected_node_id) [
      | none ↦ none
      | some node_id ↦
          if same_build s id && any (λ n. n.id == node_id) nodes then some node_id else none
    ]

    unfoldable pub load_build : BuilderState → String → String → Build → BuilderState
    load_build s id name build =
        let flow = map_build_to_flow build in
        let nodes = map (keep_measured (if same_build s id then s.nodes else [])) flow.nodes in
        let settings = or_else build.settings no_settings in
        synced (record s {
          current_build_id = some id;
          build_status = ready;
          virtual_host_id = none;
          current_revision = build.revision;
          project_name = name;
          hardware_nodes = flow.hardware_nodes;
          tags = or_else settings.tags [];
          nodes = nodes;
          edges = flow.edges;
          build_kind = or_else build.kind homelab;
          gaming_plan = or_else build.gaming_plan [];
          build_settings = settings;
          history_past = [];
          history_future = [];
          selected_node_id = kept_selection s id nodes;
          validation_issues = [];
          proposal_preview = none;
          save_state = saved;
          save_error = none;
        })
