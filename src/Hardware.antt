-- ===== src/Hardware.antt =====
-- frontend/src/lib/hardware-config.ts: the device types and what each of them can do.
mod Tests
use homelab_builder.Base.{
  Bool, true, false, ◌||◌, ◌&&◌, Option, none, some, ◌≡◌, ◌↔◌, Eq, ◌==◌, contains, List, [], ◌∷◌,
  arith, if◌then◌else◌, ℕ, leb, length, is?, ==_iff,
}

pub data HardwareType : Type 0 where
  router switch nas server server_v2 firewall vps pc access_point disk gpu cpu hba pcie :
      HardwareType
  ups pdu power_outlet sbc minipc iot modem rack console lan_table : HardwareType

unfoldable pub HardwareType-discrete : Discrete HardwareType
HardwareType-discrete = hlevel

abbrev pub type_beq : HardwareType → HardwareType → Bool
type_beq a b = elim (HardwareType-discrete a b) [ yes _ ↦ true | no _ ↦ false ]

pub type_beq_iff : (a b : HardwareType) → (type_beq a b ≡ true) ↔ (a ≡ b)
type_beq_iff a b = ground arith

instance abbrev pub type_eq : Eq HardwareType
type_eq = record { test = type_beq; test_iff = type_beq_iff }

pub record HardwareFeatures : Type 0 where
  pub has_cpu : Bool
  pub has_ram : Bool
  pub has_storage : Bool
  pub can_host_vms : Bool
  pub is_compute : Bool
  pub has_dynamic_ports : Bool
  pub is_networked : Bool
  pub can_be_nested : Bool
  pub can_host_nested : Bool
  pub can_connect_to_any : Bool

-- The columns of a row, in the order of the source's table.
abbrev row : Bool → Bool → Bool → Bool → Bool → Bool → Bool → Bool → Bool → Bool → HardwareFeatures
row a b c d e f g h i j = record {
  has_cpu = a;
  has_ram = b;
  has_storage = c;
  can_host_vms = d;
  is_compute = e;
  has_dynamic_ports = f;
  is_networked = g;
  can_be_nested = h;
  can_host_nested = i;
  can_connect_to_any = j;
}

unfoldable pub hardware_features : HardwareType → HardwareFeatures
hardware_features server = row true true true true true true true false true false
hardware_features server_v2 = row true true true true true true true false true true
hardware_features firewall = row true true true false false true true false false true
hardware_features vps = row true true true true true true true false true true
hardware_features pc = row true true true true true false true false true false
hardware_features minipc = row true true true true true false true false true false
hardware_features sbc = row true true true true true false true false true false
hardware_features iot = row true true true true true false true false true true
hardware_features nas = row true true true true true false true false true false
hardware_features router = row false false false false false true true false false true
hardware_features switch = row false false false false false true true false false true
hardware_features modem = row false false false false false true true false false true
hardware_features ups = row false false false false false false false false false false
hardware_features disk = row false false true false false false false true false false
hardware_features gpu = row false true false false false false false true false false
hardware_features cpu = row true false false false false false false true false false
hardware_features pdu = row false false false false false false false false false false
hardware_features power_outlet = row false false false false false false false false false false
hardware_features access_point = row false false false false false false true false false false
hardware_features hba = row false false false false false false false true false true
hardware_features pcie = row false false false false false false false true false false
hardware_features rack = row false false false false false false false false false false
hardware_features console = row false false false false false false true false false false
hardware_features lan_table = row false false false false false false false false false false

unfoldable pub node_has_cpu : HardwareType → Bool
unfolding hardware_features
node_has_cpu type = (hardware_features type).has_cpu

unfoldable pub node_has_ram : HardwareType → Bool
unfolding hardware_features
node_has_ram type = (hardware_features type).has_ram

unfoldable pub node_has_storage : HardwareType → Bool
unfolding hardware_features
node_has_storage type = (hardware_features type).has_storage

unfoldable pub can_node_host_vms : HardwareType → Bool
unfolding hardware_features
can_node_host_vms type = (hardware_features type).can_host_vms

unfoldable pub is_compute_node : HardwareType → Bool
unfolding hardware_features
is_compute_node type = (hardware_features type).is_compute

unfoldable pub node_has_dynamic_ports : HardwareType → Bool
unfolding hardware_features
node_has_dynamic_ports type = (hardware_features type).has_dynamic_ports

unfoldable pub is_network_node : HardwareType → Bool
unfolding hardware_features
is_network_node type = (hardware_features type).is_networked

unfoldable pub can_node_be_nested : HardwareType → Bool
unfolding hardware_features
can_node_be_nested type = (hardware_features type).can_be_nested

unfoldable pub can_node_host_nested : HardwareType → Bool
unfolding hardware_features
can_node_host_nested type = (hardware_features type).can_host_nested

unfoldable pub can_node_connect_to_any : HardwareType → Bool
unfolding hardware_features
can_node_connect_to_any type = (hardware_features type).can_connect_to_any

-- Devices that hand out power through sockets.
abbrev power_source_types : List HardwareType
power_source_types = ups ∷ pdu ∷ power_outlet ∷ []

unfoldable pub is_power_source : Option HardwareType → Bool
unfolding HardwareType-discrete
is_power_source none = false
is_power_source (some type) = contains power_source_types type

unfoldable pub has_network_ports : Option HardwareType → Bool
unfolding is_power_source
has_network_ports type = if is_power_source type then false else true

-- Devices that can join an access point's network without a cable.
abbrev wifi_client_types : List HardwareType
wifi_client_types = pc ∷ minipc ∷ sbc ∷ console ∷ []

-- Devices that stand on a desk or the floor and cannot be mounted in a rack.
abbrev floor_types : List HardwareType
floor_types = console ∷ lan_table ∷ power_outlet ∷ []

unfoldable pub is_floor_node : HardwareType → Bool
unfolding HardwareType-discrete
is_floor_node type = contains floor_types type

-- A client that joins an access point's Wi-Fi, in either order of the two ends.
unfoldable pub is_wifi_association : HardwareType → HardwareType → Bool
unfolding HardwareType-discrete
is_wifi_association a b =
    (a == access_point && contains wifi_client_types b)
    || (b == access_point && contains wifi_client_types a)
