-- ===== src/Types.antt =====
-- frontend/src/types/index.ts: what a build is made of. An optional field is an `Option`; an absent
-- field and one that is set to undefined are the same. Device types are in `Hardware`.
pub mod Lookup
use homelab_builder.Base.{
  String, Bool, Option, none, some, List, [], ◌∷◌, if◌then◌else◌, ◌==◌, nat_eq, string_eq,
  or_option, contains, ℤ, int_eq,
}
use homelab_builder.Hardware.{HardwareType}

-- A value of a JSON object. Numbers count thousandths.
mutual
  pub data Json : Type 0 where
    null : Json
    bool : Bool → Json
    num : ℤ → Json
    str : String → Json
    arr : Items → Json
    obj : Fields → Json

  pub data Items : Type 0 where
    nil : Items
    cons : Json → Items → Items

  pub data Fields : Type 0 where
    end : Fields
    field : String → Json → Fields → Fields

-- A JavaScript object used as a dictionary.
abbrev pub Dict : Type 0 → Type 0
Dict V = List (String × V)

module _ {V : Type 0} where
  -- `o[key]`
  abbrev pub get : Dict V → String → Option V
  get [] key = none
  get ((k, v) ∷ o) key = if k == key then some v else get o key

  -- `o[key] = value`
  abbrev pub put : Dict V → String → V → Dict V
  put [] key value = (key, value) ∷ []
  put ((k, v) ∷ o) key value = if k == key then (k, value) ∷ o else (k, v) ∷ put o key value

  -- `{ ...o, ...p }`
  abbrev pub spread : Dict V → Dict V → Dict V
  spread o [] = o
  spread o ((k, v) ∷ p) = spread (put o k v) p

  -- `delete o[key]` for each of the keys.
  abbrev pub without : List String → Dict V → Dict V
  without keys [] = []
  without keys ((k, v) ∷ o) = if contains keys k then without keys o else (k, v) ∷ without keys o

pub record Point : Type 0 where
  pub x : ℤ
  pub y : ℤ

pub record VirtualSwitch : Type 0 where
  pub id : String
  pub name : String
  pub x : ℤ
  pub y : ℤ

pub record VirtualEdge : Type 0 where
  pub id : String
  pub source : String
  pub target : String

pub record VirtualNetwork : Type 0 where
  pub switches : List VirtualSwitch
  pub positions : Dict Point
  pub edges : List VirtualEdge

-- A device's details: the two structured keys that the store reads, and every other key.
pub record HardwareSpec : Type 0 where
  pub tags : Option (List String)
  pub virtual_network : Option VirtualNetwork
  pub other : Dict Json

abbrev pub no_details : HardwareSpec
no_details = record { tags = none; virtual_network = none; other = [] }

-- `{ ...a, ...b }` of two details.
abbrev pub spread_details : HardwareSpec → HardwareSpec → HardwareSpec
spread_details a b = record {
  tags = or_option b.tags a.tags;
  virtual_network = or_option b.virtual_network a.virtual_network;
  other = spread a.other b.other;
}

pub data VmType : Type 0 where
  vm container lxc other : VmType

pub data VmStatus : Type 0 where
  running stopped paused : VmStatus

pub record VirtualMachine : Type 0 where
  pub id : String
  pub name : String
  pub type : VmType
  pub ip : Option String
  pub mac_address : Option String
  pub details : Option (Dict Json)
  pub os : Option String
  pub cpu_cores : Option ℤ
  pub ram_mb : Option ℤ
  pub status : VmStatus

-- What can sit inside a host: a memory module is a component only, never a node.
pub data ComponentType : Type 0 where
  device : HardwareType → ComponentType
  ram : ComponentType

pub record HardwareComponent : Type 0 where
  pub id : String
  pub type : ComponentType
  pub name : String
  pub power_draw : Option ℤ
  pub details : Option HardwareSpec

pub record HardwareNode : Type 0 where
  pub id : String
  pub type : HardwareType
  pub name : String
  pub ip : Option String
  pub mac_address : Option String
  pub subnet_mask : Option String
  pub gateway : Option String
  pub power_draw : Option ℤ
  pub x : ℤ
  pub y : ℤ
  pub details : Option HardwareSpec
  pub vms : Option (List VirtualMachine)
  pub internal_components : Option (List HardwareComponent)
  pub parent_id : Option String

pub record BuilderTag : Type 0 where
  pub id : String
  pub name : String
  pub color : String

pub data IssueType : Type 0 where
  error warning : IssueType

pub record HardwareNodeValidationIssue : Type 0 where
  pub node_id : String
  pub message : String
  pub type : IssueType

pub data BuildKind : Type 0 where
  homelab lan_party game_server : BuildKind
