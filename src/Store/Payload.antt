-- ===== src/Store/Payload.antt =====
-- builder-store.ts: what a save sends of the canvas (`getBuildData`).
pub mod Sent
use homelab_builder.Base.{
  String, not, ◌&&◌, ◌||◌, Option, none, some, List, [], ◌∷◌, map, if◌then◌else◌, ◌==◌, nat_eq,
  string_eq, is?, or_else, or_option, keep, contains, ℤ, pos, int_eq,
}
use homelab_builder.Hardware.{HardwareType}
use homelab_builder.Types.{
  HardwareNode, HardwareSpec, HardwareComponent, VirtualMachine, BuildKind, Dict, Json, get, spread,
  no_details,
}
use homelab_builder.Store.State.{BuilderState, BuildSettings, Node, Edge, EdgeData}

-- A node as the store saves it, every field filled in. A missing type is the empty text.
pub record SavedNode : Type 0 where
  pub id : String
  pub type : Option HardwareType
  pub name : String
  pub x : ℤ
  pub y : ℤ
  pub power_draw : ℤ
  pub ip : String
  pub mac_address : String
  pub details : HardwareSpec
  pub vms : List VirtualMachine
  pub internal_components : List HardwareComponent
  pub parent_id : Option String

pub record SavedEdge : Type 0 where
  pub source : String
  pub source_handle : String
  pub target : String
  pub target_handle : String
  pub type : String
  pub speed : String
  pub subnet : String
  pub wireless_standard : String
  pub direction : String

-- The services are always empty.
pub record BuildData : Type 0 where
  pub kind : BuildKind
  pub gaming_plan : Option (Dict Json)
  pub nodes : List SavedNode
  pub edges : List SavedEdge
  pub settings : BuildSettings

-- `o || d` on texts: the empty text counts as missing.
abbrev pub text_or : Option String → String → String
text_or none d = d
text_or (some s) d = if s == "" then d else s

-- `new Map(hardwareNodes.map(n => [n.id, n])).get(id)`
unfoldable pub device_by_id : List HardwareNode → String → Option HardwareNode
device_by_id devices id =
    get (spread [] (map {B = String × HardwareNode} (λ n. (n.id, n)) devices)) id

-- A field of the device behind a card, if there is one.
abbrev of_device {ℓ} : {A : Type ℓ} → Option HardwareNode → (HardwareNode → Option A) → Option A
of_device none f = none
of_device (some device) f = f device

abbrev truthy : Option String → Option String
truthy none = none
truthy (some s) = if s == "" then none else some s

unfoldable pub saved_node : Option HardwareNode → Node → SavedNode
saved_node hw node =
    let card = node.card.device in
    record {
      id = node.id;
      type = or_option card.type (of_device hw (λ d. some d.type));
      name = text_or card.name (text_or (of_device hw (λ d. some d.name)) "");
      x = node.position.x;
      y = node.position.y;
      power_draw = or_else (or_option card.power_draw (of_device hw (λ d. d.power_draw))) (pos 0);
      ip = text_or card.ip (text_or (of_device hw (λ d. d.ip)) "");
      mac_address = text_or card.mac_address (text_or (of_device hw (λ d. d.mac_address)) "");
      details = or_else (or_option card.details (of_device hw (λ d. d.details))) no_details;
      vms = or_else (or_option card.vms (of_device hw (λ d. d.vms))) [];
      internal_components =
          or_else (or_option card.internal_components (of_device hw (λ d. d.internal_components)))
            [];
      parent_id = truthy (of_device hw (λ d. d.parent_id));
    }

abbrev field_of : Option EdgeData → (EdgeData → Option String) → Option String
field_of none f = none
field_of (some cable) f = f cable

unfoldable pub saved_edge : Edge → SavedEdge
saved_edge e =
    let type = field_of e.cable (λ c. c.connection_type) in
    let power = is? type "power" in
    record {
      source = e.source;
      source_handle = text_or e.source_handle "";
      target = e.target;
      target_handle = text_or e.target_handle "";
      type = text_or type "ethernet";
      speed = if power then "" else text_or (field_of e.cable (λ c. c.speed)) "1 GbE";
      subnet = if power then "" else text_or (field_of e.cable (λ c. c.subnet)) "";
      wireless_standard =
          if power then "" else text_or (field_of e.cable (λ c. c.wireless_standard)) "";
      direction = if power then "auto" else text_or (field_of e.cable (λ c. c.direction)) "auto";
    }

abbrev sent_node_ids : List SavedNode → List String
sent_node_ids nodes = map (λ n. n.id) nodes

-- An untouched plan is not sent, so the server keeps what it has.
abbrev sent_plan : Dict Json → Option (Dict Json)
sent_plan [] = none
sent_plan (entry ∷ plan) = some (entry ∷ plan)

unfoldable pub get_build_data : BuilderState → BuildData
get_build_data state =
    let nodes = map (λ n. saved_node (device_by_id state.hardware_nodes n.id) n) state.nodes in
    let edges = map saved_edge state.edges in
    record {
      kind = state.build_kind;
      gaming_plan = sent_plan state.gaming_plan;
      nodes = nodes;
      edges =
          keep
            (λ e.
              contains (sent_node_ids nodes) e.source && contains (sent_node_ids nodes) e.target)
            edges;
      settings = state.build_settings;
    }
