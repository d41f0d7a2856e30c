-- ===== src/Ports.antt =====
-- frontend/src/features/builder/lib/port-config.ts: the settings of ports, the VLANs that a cable carries
-- and how many ports a device has. A number of JSON counts thousandths. The keys of an object differ.
pub mod Address
pub mod Count
pub mod Vlans
mod Tests
use homelab_builder.Power.{is_power_handle}
use homelab_builder.Types.{
  nil, end, get, field, cons, bool, str, obj, num, null, arr, Dict, Json, Items, Fields,
}
use homelab_builder.Base.{
  ◌/◌, leb, ◌||◌, ◌&&◌, ◌%◌, sort, false, contains, ◌==◌, ◌++◌, pos, or_option, keep, is_some?, is?,
  find, add, ◌∷◌, some, or_else, none, if◌then◌else◌, [], Bool, ℕ, String, Option, List, string_eq,
  nat_eq, int_eq,
}

-- A device as the canvas holds it. A type that is no text is none.
pub record PortNode : Type 0 where
  pub type : Option String
  pub details : Json

pub data PortRole : Type 0 where
  wan lan dmz vpn unused : PortRole

pub record PortSettings : Type 0 where
  pub role : Option PortRole
  pub address : Option String
  pub dhcp : Bool
  pub untagged_vlan : Option ℕ
  pub tagged_vlans : Option (List ℕ)
  pub comment : Option String

pub record VlanDef : Type 0 where
  pub id : ℕ
  pub name : String
  pub color : Option String
  pub subnet : Option String

abbrev pub max_ports : ℕ
max_ports = 96

abbrev pub as_record : Json → Option Fields
as_record (obj fields) = some fields
as_record _ = none

-- `record[key]`; what is missing reads as null.
abbrev pub field_in : Fields → String → Json
field_in end key = null
field_in (field k value fields) key = if k == key then value else field_in fields key

abbrev pub field_of_record : Option Fields → String → Json
field_of_record none key = null
field_of_record (some fields) key = field_in fields key

-- A whole number from 1 to 4094.
abbrev pub vlan_id : Json → Option ℕ
vlan_id (num (pos n)) =
    if n % 1000 == 0 && leb 1 (n / 1000) && leb (n / 1000) 4094 then some (n / 1000) else none
vlan_id _ = none

abbrev vlan_ids : Items → List ℕ
vlan_ids nil = []
vlan_ids (cons value items) =
    let rest = vlan_ids items in elim (vlan_id value) [ none ↦ rest | some id ↦ id ∷ rest ]

abbrev tagged_of : Json → Option (List ℕ)
tagged_of (arr items) = elim (vlan_ids items) [ [] ↦ none | id ∷ ids ↦ some (id ∷ ids) ]
tagged_of _ = none

-- A text that is not empty.
abbrev text_of : Json → Option String
text_of (str text) = if text == "" then none else some text
text_of _ = none

-- `PORT_ROLES[role]`, names that every object inherits aside.
abbrev role_of : Json → Option PortRole
role_of (str role) =
    if role == "wan"
    then some wan
    else if role == "lan"
    then some lan
    else if role == "dmz"
    then some dmz
    else if role == "vpn"
    then some vpn
    else if role == "unused"
    then some unused
    else none
role_of _ = none

abbrev is_true : Json → Bool
is_true (bool on) = on
is_true _ = false

abbrev settings_of : Fields → PortSettings
settings_of entry = record {
  role = role_of (field_in entry "role");
  address = text_of (field_in entry "address");
  dhcp = is_true (field_in entry "dhcp");
  untagged_vlan = vlan_id (field_in entry "untagged_vlan");
  tagged_vlans = tagged_of (field_in entry "tagged_vlans");
  comment = text_of (field_in entry "comment");
}

abbrev settings_of_all : Fields → Dict PortSettings
settings_of_all end = []
settings_of_all (field handle value fields) =
    let rest = settings_of_all fields in
    elim (as_record value) [ none ↦ rest | some entry ↦ (handle, settings_of entry) ∷ rest ]

-- The settings of every port of a device, by handle. Malformed values are dropped.
unfoldable pub read_port_config : Json → Dict PortSettings
read_port_config details = elim (as_record (field_of_record (as_record details) "port_config")) [
  | none ↦ []
  | some raw ↦ settings_of_all raw
]

abbrev name_of : Json → String
name_of (str name) = name
name_of _ = ""

abbrev vlan_of : Option Fields → Option VlanDef
vlan_of none = none
vlan_of (some entry) = elim (vlan_id (field_in entry "id")) [
  | none ↦ none
  | some id ↦ some (record {
    id = id;
    name = name_of (field_in entry "name");
    color = text_of (field_in entry "color");
    subnet = text_of (field_in entry "subnet");
  })
]

abbrev vlans_of : Items → List VlanDef
vlans_of nil = []
vlans_of (cons value items) =
    let rest = vlans_of items in
    elim (vlan_of (as_record value)) [ none ↦ rest | some vlan ↦ vlan ∷ rest ]

-- The VLANs defined on a switch. Malformed entries are dropped.
unfoldable pub read_vlans : Json → List VlanDef
read_vlans details = elim (field_of_record (as_record details) "vlans") [
  | arr items ↦ vlans_of items
  | _ ↦ []
]

-- The uplink faces the WAN, the rest the LAN.
unfoldable pub default_role : String → PortRole
default_role handle = if handle == "target-0" then wan else lan

abbrev pub carries_vlans : Option String → Bool
carries_vlans type = is? type "router" || is? type "firewall" || is? type "switch"

-- `[...new Set(ids)]`
abbrev pub distinct : List ℕ → List ℕ → List ℕ
distinct seen [] = seen
distinct seen (id ∷ ids) = distinct (add seen id) ids

abbrev pub settings_ids : PortSettings → List ℕ
settings_ids settings =
    or_else settings.tagged_vlans []
    ++ elim settings.untagged_vlan [ none ↦ [] | some id ↦ id ∷ [] ]

abbrev nonempty_ids : List ℕ → Option (List ℕ)
nonempty_ids [] = none
nonempty_ids (id ∷ ids) = some (id ∷ ids)

-- The VLAN ids that a port carries, untagged and tagged, sorted; none when it carries none.
unfoldable pub vlan_set : Option PortNode → String → Option (List ℕ)
vlan_set none handle = none
vlan_set (some node) handle =
    if carries_vlans node.type
    then elim (get (read_port_config node.details) handle) [
      | none ↦ none
      | some settings ↦ nonempty_ids (sort leb (distinct [] (settings_ids settings)))
    ]
    else none

pub record CableVlan : Type 0 where
  pub vlans : List ℕ
  pub color : Option String
  pub mismatch : Bool

-- `handle || fallback`
abbrev pub port_or : Option String → String → String
port_or none fallback = fallback
port_or (some handle) fallback = if handle == "" then fallback else handle

-- The colour of a VLAN on a device.
abbrev vlan_color : Option PortNode → ℕ → Option String
vlan_color none id = none
vlan_color (some node) id = elim (find (λ vlan. vlan.id == id) (read_vlans node.details)) [
  | none ↦ none
  | some vlan ↦ vlan.color
]

-- The colour of the untagged VLAN of a switch end, if it is shown.
abbrev untagged_color : List ℕ → Option PortNode → String → Option String
untagged_color vlans none port = none
untagged_color vlans (some node) port =
    if is? node.type "switch"
    then elim (get (read_port_config node.details) port) [
      | none ↦ none
      | some settings ↦ elim settings.untagged_vlan [
        | none ↦ none
        | some untagged ↦ if contains vlans untagged then vlan_color (some node) untagged else none
      ]
    ]
    else none

-- The lowest id that either end colours.
abbrev first_color : Option PortNode → Option PortNode → List ℕ → Option String
first_color source target [] = none
first_color source target (id ∷ ids) =
    or_option (or_option (vlan_color source id) (vlan_color target id))
      (first_color source target ids)

-- The ids that a cable shows, and whether its ends share none.
abbrev pub shared_vlans : Option (List ℕ) → Option (List ℕ) → List ℕ
shared_vlans (some source_set) (some target_set) = keep (contains target_set) source_set
shared_vlans source_set target_set = or_else (or_option source_set target_set) []

abbrev pub both_carry : Option (List ℕ) → Option (List ℕ) → Bool
both_carry source_set target_set = is_some? source_set && is_some? target_set

abbrev colored : Option PortNode → String → Option PortNode → String → Bool → List ℕ → CableVlan
colored source source_port target target_port mismatch [] = record {
  vlans = [];
  color = none;
  mismatch = mismatch;
}
colored source source_port target target_port mismatch (id ∷ ids) = record {
  vlans = id ∷ ids;
  color =
      or_option
        (or_option (untagged_color (id ∷ ids) source source_port)
          (untagged_color (id ∷ ids) target target_port))
        (first_color source target (id ∷ ids));
  mismatch = false;
}

-- The VLANs that a cable carries. Power cables carry none.
unfoldable pub cable_vlan :
    Option PortNode → Option String → Option PortNode → Option String → CableVlan
cable_vlan source source_handle target target_handle =
    if is_power_handle source_handle || is_power_handle target_handle
    then record { vlans = []; color = none; mismatch = false }
    else (let source_port = port_or source_handle "eth0" in
        let target_port = port_or target_handle "target-0" in
        let source_set = vlan_set source source_port in
        let target_set = vlan_set target target_port in
        colored source source_port target target_port (both_carry source_set target_set)
          (shared_vlans source_set target_set))
