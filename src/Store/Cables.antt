-- ===== src/Store/Cables.antt =====
-- builder-store.ts: `updateEdge`. The medium of some cables is fixed, whatever was picked.
use homelab_builder.Base.{
  String, ◌≡◌, Bool, true, false, ◌||◌, Option, none, some, List, [], ◌∷◌, map, if◌then◌else◌, ◌==◌,
  nat_eq, string_eq, is?, or_else, or_option, int_eq,
}
use homelab_builder.Hardware.{HardwareType}
use homelab_builder.Power.{is_power_handle}
use homelab_builder.Connection.{Medium, wireless, ethernet, required_connection_type}
use homelab_builder.Types.{HardwareNode, Dict, get, spread}
use homelab_builder.Store.State.{BuilderState, Edge, EdgeData}

-- Partial<Edge>
pub record EdgePatch : Type 0 where
  pub source : Option String
  pub target : Option String
  pub source_handle : Option String
  pub target_handle : Option String
  pub type : Option String
  pub cable : Option EdgeData

abbrev pub patched_edge : Edge → EdgePatch → Edge
patched_edge e updates = record {
  id = e.id;
  source = or_else updates.source e.source;
  target = or_else updates.target e.target;
  source_handle = or_option updates.source_handle e.source_handle;
  target_handle = or_option updates.target_handle e.target_handle;
  type = or_option updates.type e.type;
  cable = or_option updates.cable e.cable;
}

abbrev pub no_data : EdgeData
no_data = record {
  connection_type = none;
  speed = none;
  subnet = none;
  wireless_standard = none;
  direction = none;
}

abbrev pub medium_name : Medium → String
medium_name wireless = "wireless"
medium_name ethernet = "ethernet"

abbrev pub standard_for : Medium → Option String → String
standard_for ethernet standard = ""
standard_for wireless none = "Wi-Fi 6"
standard_for wireless (some standard) = if standard == "" then "Wi-Fi 6" else standard

-- The data of a cable whose medium is fixed.
abbrev pub with_medium : Medium → EdgeData → EdgeData
with_medium medium cable =
    if is? cable.connection_type (medium_name medium) then cable else record cable {
      connection_type = some (medium_name medium);
      wireless_standard = some (standard_for medium cable.wireless_standard);
    }

abbrev pub is_power_cable : Edge → Bool
is_power_cable e = is_power_handle e.source_handle || is_power_handle e.target_handle

-- The valid form of an edge that was changed.
unfoldable pub settled_edge : Dict HardwareType → Edge → Edge
settled_edge types e =
    if is_power_cable e
    then record e {
      cable = some (record (or_else e.cable no_data) { connection_type = some "power" });
    }
    else elim (required_connection_type (get types e.source) (get types e.target)) [
      | none ↦ e
      | some medium ↦ elim e.cable [
        | none ↦ e
        | some cable ↦ record e { cable = some (with_medium medium cable) }
      ]
    ]

unfoldable pub device_types : List HardwareNode → Dict HardwareType
device_types devices = spread [] (map {B = String × HardwareType} (λ n. (n.id, n.type)) devices)

unfoldable pub update_edge : BuilderState → String → EdgePatch → BuilderState
update_edge state id updates = record state {
  edges =
      map
        (λ e.
          if e.id == id
          then settled_edge (device_types state.hardware_nodes) (patched_edge e updates)
          else e)
        state.edges;
}

-- The medium that the program gives a cable: power on a power handle, and the required one on a link that
-- has only one.
abbrev pub HasMedium : Dict HardwareType → Edge → Type 0
HasMedium types e =
    (cable : EdgeData)
    → e.cable ≡ some cable
    → (is_power_cable e ≡ true → cable.connection_type ≡ some "power")
      × (is_power_cable e ≡ false
          → (medium : Medium)
          → required_connection_type (get types e.source) (get types e.target) ≡ some medium
          → cable.connection_type ≡ some (medium_name medium))

abbrev pub HaveMedium : Dict HardwareType → List Edge → Type 0
HaveMedium types [] = Unit
HaveMedium types (e ∷ edges) = HasMedium types e × HaveMedium types edges
