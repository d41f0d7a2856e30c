-- ===== src/Store/Parts.antt =====
-- builder-store.ts: the parts and the guests inside a host, and its virtual network.
use homelab_builder.Base.{
  String, Bool, true, false, not, Option, none, some, List, [], ◌∷◌, ◌++◌, map, if◌then◌else◌, ◌==◌,
  nat_eq, string_eq, is?, is_some?, or_else, or_option, any, keep, find, ℤ, pos, int_eq, whole,
}
use homelab_builder.Gaming.{
  Service, GameProfile, GameInstance, GameExposure, new_game_instance, size_server,
}
use homelab_builder.Types.{
  HardwareNode, HardwareSpec, HardwareComponent, ComponentType, VirtualMachine, VmType, VmStatus,
  VirtualNetwork, Json, Dict, get, put, no_details,
}
use homelab_builder.Types
use homelab_builder.Virtual.{initial_virtual_network, remove_virtual_endpoints}
use homelab_builder.Store.State.{BuilderState, HardwarePatch, no_change}
use homelab_builder.Store.History.{record_edit, change_device}
use homelab_builder.Store.Devices.{update_hardware}

-- Partial<HardwareComponent>
pub record ComponentPatch : Type 0 where
  pub id : Option String
  pub type : Option ComponentType
  pub name : Option String
  pub power_draw : Option ℤ
  pub details : Option HardwareSpec

abbrev patched_part : HardwareComponent → ComponentPatch → HardwareComponent
patched_part part patch = record {
  id = or_else patch.id part.id;
  type = or_else patch.type part.type;
  name = or_else patch.name part.name;
  power_draw = or_option patch.power_draw part.power_draw;
  details = or_option patch.details part.details;
}

-- Partial<VirtualMachine>
pub record VmPatch : Type 0 where
  pub id : Option String
  pub name : Option String
  pub type : Option VmType
  pub ip : Option String
  pub mac_address : Option String
  pub details : Option (Dict Json)
  pub os : Option String
  pub cpu_cores : Option ℤ
  pub ram_mb : Option ℤ
  pub status : Option VmStatus

abbrev patched_vm : VirtualMachine → VmPatch → VirtualMachine
patched_vm vm patch = record {
  id = or_else patch.id vm.id;
  name = or_else patch.name vm.name;
  type = or_else patch.type vm.type;
  ip = or_option patch.ip vm.ip;
  mac_address = or_option patch.mac_address vm.mac_address;
  details = or_option patch.details vm.details;
  os = or_option patch.os vm.os;
  cpu_cores = or_option patch.cpu_cores vm.cpu_cores;
  ram_mb = or_option patch.ram_mb vm.ram_mb;
  status = or_else patch.status vm.status;
}

abbrev with_parts : List HardwareComponent → HardwarePatch
with_parts parts = record no_change { internal_components = some parts }

abbrev with_vms : List VirtualMachine → HardwarePatch
with_vms vms = record no_change { vms = some vms }

unfoldable pub add_internal_component : BuilderState → String → HardwareComponent → BuilderState
add_internal_component state node_id component =
    change_device (record_edit state) node_id
      (λ device. with_parts (or_else device.internal_components [] ++ component ∷ []))

unfoldable pub remove_internal_component : BuilderState → String → String → BuilderState
remove_internal_component state node_id component_id =
    change_device (record_edit state) node_id (λ device.
      with_parts (keep (λ c. not (c.id == component_id)) (or_else device.internal_components [])))

-- A change of a part is no undo step.
unfoldable pub update_internal_component :
    BuilderState → String → String → ComponentPatch → BuilderState
update_internal_component state node_id component_id updates =
    change_device state node_id (λ device. with_parts (
      map (λ c. if c.id == component_id then patched_part c updates else c)
        (or_else device.internal_components [])))

-- `rawVM.details?.catalog_service_id`
abbrev catalog_id : Option (Dict Json) → Option String
catalog_id none = none
catalog_id (some details) = elim (get details "catalog_service_id") [
  | some (Json.str id) ↦ some id
  | _ ↦ none
]

abbrev game_of : Option Service → Option GameProfile
game_of none = none
game_of (some service) = service.game

abbrev exposure_name : GameExposure → String
exposure_name GameExposure.lan = "lan"
exposure_name GameExposure.port_forward = "port_forward"
exposure_name GameExposure.vpn = "vpn"
exposure_name GameExposure.relay = "relay"

abbrev instance_json : GameInstance → Json
instance_json game = Json.obj (
    Types.field "profile" (Json.str game.profile) (
      Types.field "players" (Json.num (whole game.players)) (
        Types.field "exposure" (Json.str (exposure_name game.exposure))
          (Types.field "port_offset" (Json.num (whole game.port_offset)) Types.end))))

-- `!rawVM.details?.game`: absent, or one of the values that count as false.
abbrev no_game : Option (Dict Json) → Bool
no_game none = true
no_game (some details) = elim (get details "game") [
  | none ↦ true
  | some Json.null ↦ true
  | some (Json.bool b) ↦ not b
  | some (Json.num n) ↦ n == pos 0
  | some (Json.str s) ↦ s == ""
  | some _ ↦ false
]

-- A game from the catalog becomes a game server with the memory and cores its usual group needs.
unfoldable pub as_game_server : List Service → VirtualMachine → VirtualMachine
as_game_server services raw =
    elim (game_of (find (λ service. is? (catalog_id raw.details) service.id) services)) [
      | none ↦ raw
      | some game ↦
          let settings = new_game_instance game none none none in
          let sizing = size_server game (some settings.players) in
          if no_game raw.details
          then record raw {
            cpu_cores = some (pos sizing.cpu_cores);
            ram_mb = some (pos sizing.ram_mb);
            details = some (put (or_else raw.details []) "game" (instance_json settings));
          }
          else raw
    ]

-- The change of the store; the addresses are recalculated afterwards in any case.
unfoldable pub add_vm : List Service → BuilderState → String → VirtualMachine → BuilderState
add_vm services state node_id raw =
    if any (λ n. n.id == node_id) state.hardware_nodes
    then change_device (record_edit state) node_id
        (λ host. with_vms (or_else host.vms [] ++ as_game_server services raw ∷ []))
    else state

abbrev without_endpoint : HardwareSpec → String → HardwareSpec
without_endpoint details vm_id = elim details.virtual_network [
  | none ↦ details
  | some network ↦ record details {
    virtual_network = some (remove_virtual_endpoints network (vm_id ∷ []));
  }
]

unfoldable pub remove_vm : BuilderState → String → String → BuilderState
remove_vm state node_id vm_id = change_device (record_edit state) node_id (λ host.
    record no_change {
      vms = some (keep (λ v. not (v.id == vm_id)) (or_else host.vms []));
      details = some (without_endpoint (or_else host.details no_details) vm_id);
    })

unfoldable pub update_vm : BuilderState → String → String → VmPatch → BuilderState
update_vm state node_id vm_id updates = change_device (record_edit state) node_id (λ host.
    with_vms (map (λ v. if v.id == vm_id then patched_vm v updates else v) (or_else host.vms [])))

unfoldable pub update_virtual_network : BuilderState → String → VirtualNetwork → BuilderState
update_virtual_network state host_id network =
    elim (find (λ n. n.id == host_id) state.hardware_nodes) [
      | none ↦ state
      | some host ↦ update_hardware (record_edit state) host_id (record no_change {
        details =
            some (record (or_else host.details no_details) { virtual_network = some network });
      })
    ]

abbrev network_of : HardwareNode → Option VirtualNetwork
network_of host = elim host.details [ none ↦ none | some details ↦ details.virtual_network ]

abbrev opened : BuilderState → Option String → BuilderState
opened state host = record state { virtual_host_id = host; selected_node_id = none }

-- A host that is opened for the first time gets a bridge with all its guests.
unfoldable pub open_virtual_network : BuilderState → Option String → BuilderState
open_virtual_network state host_id = elim (find (λ n. is? host_id n.id) state.hardware_nodes) [
  | none ↦ opened state none
  | some host ↦
      opened
        (if is_some? (network_of host)
          then state
          else update_virtual_network state host.id (initial_virtual_network host))
        (some host.id)
]
