-- ===== src/Store/Loading/Tests.antt =====
-- Loading a build of a router and a rack.
use homelab_builder.Base.{
  String, ◌≡◌, refl, false, Option, none, some, [], ◌∷◌, nat_eq, string_eq, int_eq,
}
use homelab_builder.Store.Loading.{
  BuildNode, BuildEdge, Build, missing, load_build, has_unsaved_changes,
}
use homelab_builder.Store.Sound.Runs.{IsFit}
use homelab_builder.Store.Loading.Loaded.{load_build-IsFit, load_build-clean}
use homelab_builder.Store.Payload.{BuildData}
use homelab_builder.Hardware.{HardwareType, router, rack, switch}
use homelab_builder.Types.{HardwareSpec}
use homelab_builder.Store.Samples.{empty}

abbrev stored : String → HardwareType → BuildNode
stored id type = record {
  id = id;
  type = type;
  name = id;
  ip = none;
  mac_address = none;
  power_draw = none;
  x = none;
  y = none;
  virtual_machines = none;
  internal_components = none;
  details = missing;
  parent_id = none;
}

abbrev cable : BuildEdge
cable = record {
  id = none;
  source_node_id = "r";
  target_node_id = "s";
  source_handle = some "eth0";
  target_handle = some "target-0";
  type = none;
  speed = none;
  subnet = none;
  wireless_standard = none;
  direction = none;
}

abbrev home : Build
home = record {
  id = "b";
  name = "Home";
  revision = 3;
  nodes = some (stored "r" router ∷ stored "k" rack ∷ stored "s" switch ∷ []);
  edges = some (cable ∷ []);
  settings = none;
  kind = none;
  gaming_plan = none;
}

abbrev unread : String → Option HardwareSpec
unread json = none

abbrev constant : BuildData → String
constant data_sent = "sent"

load_build-IsFit_example : IsFit (load_build unread constant empty "b2" "Home" home)
load_build-IsFit_example = load_build-IsFit unread constant empty "b2" "Home" home refl

load_build-clean_example :
    has_unsaved_changes unread constant (load_build unread constant empty "b2" "Home" home) ≡ false
load_build-clean_example = load_build-clean unread constant empty "b2" "Home" home
