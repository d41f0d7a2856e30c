-- ===== src/Store/State.antt =====
-- builder-store.ts: the state that the store keeps, and the React Flow graph in it.
use homelab_builder.Base.{
  ℕ, String, Bool, Option, none, some, List, [], nat_eq, string_eq, or_else, or_option, ℤ, int_eq,
}
use homelab_builder.Types.{
  Dict, Json, Point, HardwareSpec, VirtualMachine, HardwareComponent, HardwareNode, BuilderTag,
  HardwareNodeValidationIssue, BuildKind,
}
use homelab_builder.Hardware.{HardwareType}

pub record Size : Type 0 where
  pub width : ℤ
  pub height : ℤ

-- Partial<HardwareNode>. An outer `none` is a key that is not there.
pub record HardwarePatch : Type 0 where
  pub id : Option String
  pub type : Option HardwareType
  pub name : Option String
  pub ip : Option String
  pub mac_address : Option String
  pub subnet_mask : Option String
  pub gateway : Option String
  pub power_draw : Option ℤ
  pub x : Option ℤ
  pub y : Option ℤ
  pub details : Option HardwareSpec
  pub vms : Option (List VirtualMachine)
  pub internal_components : Option (List HardwareComponent)
  pub parent_id : Option (Option String)

abbrev pub no_change : HardwarePatch
no_change = record {
  id = none;
  type = none;
  name = none;
  ip = none;
  mac_address = none;
  subnet_mask = none;
  gateway = none;
  power_draw = none;
  x = none;
  y = none;
  details = none;
  vms = none;
  internal_components = none;
  parent_id = none;
}

-- `{ ...device, ...patch }`
unfoldable pub patched : HardwareNode → HardwarePatch → HardwareNode
patched device patch = record {
  id = or_else patch.id device.id;
  type = or_else patch.type device.type;
  name = or_else patch.name device.name;
  ip = or_option patch.ip device.ip;
  mac_address = or_option patch.mac_address device.mac_address;
  subnet_mask = or_option patch.subnet_mask device.subnet_mask;
  gateway = or_option patch.gateway device.gateway;
  power_draw = or_option patch.power_draw device.power_draw;
  x = or_else patch.x device.x;
  y = or_else patch.y device.y;
  details = or_option patch.details device.details;
  vms = or_option patch.vms device.vms;
  internal_components = or_option patch.internal_components device.internal_components;
  parent_id = or_else patch.parent_id device.parent_id;
}

-- `{ ...older, ...newer }`
unfoldable pub merged : HardwarePatch → HardwarePatch → HardwarePatch
merged older newer = record {
  id = or_option newer.id older.id;
  type = or_option newer.type older.type;
  name = or_option newer.name older.name;
  ip = or_option newer.ip older.ip;
  mac_address = or_option newer.mac_address older.mac_address;
  subnet_mask = or_option newer.subnet_mask older.subnet_mask;
  gateway = or_option newer.gateway older.gateway;
  power_draw = or_option newer.power_draw older.power_draw;
  x = or_option newer.x older.x;
  y = or_option newer.y older.y;
  details = or_option newer.details older.details;
  vms = or_option newer.vms older.vms;
  internal_components = or_option newer.internal_components older.internal_components;
  parent_id = or_option newer.parent_id older.parent_id;
}

-- Every field of a device.
unfoldable pub whole_device : HardwareNode → HardwarePatch
whole_device device = record {
  id = some device.id;
  type = some device.type;
  name = some device.name;
  ip = device.ip;
  mac_address = device.mac_address;
  subnet_mask = device.subnet_mask;
  gateway = device.gateway;
  power_draw = device.power_draw;
  x = some device.x;
  y = some device.y;
  details = device.details;
  vms = device.vms;
  internal_components = device.internal_components;
  parent_id = some device.parent_id;
}

-- What a card on the canvas holds: its label and the fields of its device.
pub record CardData : Type 0 where
  pub label : String
  pub device : HardwarePatch

pub data NodeKind : Type 0 where
  rack_card hardware_card : NodeKind

-- A React Flow node.
pub record Node : Type 0 where
  pub id : String
  pub kind : NodeKind
  pub position : Point
  pub card : CardData
  pub parent_id : Option String
  pub inside_parent : Bool
  pub style : Option Size
  pub z_index : Option ℤ
  pub measured : Option Size
  pub width : Option ℤ
  pub height : Option ℤ
  pub selected : Bool

pub record EdgeData : Type 0 where
  pub connection_type : Option String
  pub speed : Option String
  pub subnet : Option String
  pub wireless_standard : Option String
  pub direction : Option String

-- A React Flow edge.
pub record Edge : Type 0 where
  pub id : String
  pub source : String
  pub target : String
  pub source_handle : Option String
  pub target_handle : Option String
  pub type : Option String
  pub cable : Option EdgeData

-- What an undo step restores besides the canvas.
pub record SnapshotMeta : Type 0 where
  pub project_name : Option String
  pub build_kind : Option BuildKind
  pub gaming_plan : Option (Dict Json)

pub record Snapshot : Type 0 where
  pub nodes : List Node
  pub edges : List Edge
  pub hardware_nodes : List HardwareNode
  pub meta : Option SnapshotMeta

pub data BuildStatus : Type 0 where
  idle loading ready failed : BuildStatus

pub data SaveState : Type 0 where
  saved unsaved saving error : SaveState

pub record Focus : Type 0 where
  pub ids : Option (List String)
  pub nonce : ℕ

pub record PendingFocus : Type 0 where
  pub build_id : String
  pub ids : Option (List String)
  pub types : Option (List HardwareType)
  pub select : Bool

pub record BuildSettings : Type 0 where
  pub setup_done : Option (List String)
  pub tags : Option (List BuilderTag)
  pub other : Dict Json

abbrev pub no_settings : BuildSettings
no_settings = record { setup_done = none; tags = none; other = [] }

pub record ProposalPreview : Type 0 where
  pub proposal_id : String
  pub nodes : List Node
  pub edges : List Edge
  pub hardware_nodes : List HardwareNode
  pub validation_issues : List HardwareNodeValidationIssue
  pub changed_node_ids : List String
  pub focus : Option Focus

pub record BuilderState : Type 0 where
  pub virtual_host_id : Option String
  pub hardware_nodes : List HardwareNode
  pub tags : List BuilderTag
  pub nodes : List Node
  pub edges : List Edge
  pub selected_node_id : Option String
  pub build_kind : BuildKind
  pub gaming_plan : Dict Json
  pub build_settings : BuildSettings
  pub validation_issues : List HardwareNodeValidationIssue
  pub current_build_id : Option String
  pub current_revision : ℕ
  pub build_status : BuildStatus
  pub save_state : SaveState
  pub last_saved_at : Option ℕ
  pub save_error : Option String
  pub server_reachable : Bool
  pub canvas_focus : Option Focus
  pub pending_focus : Option PendingFocus
  pub layout_motion : ℕ
  pub project_name : String
  pub last_synced_fingerprint : String
  pub proposal_preview : Option ProposalPreview
  pub applied_glow : Option Focus
  pub history_past : List Snapshot
  pub history_future : List Snapshot
