-- ===== src/Store/Samples.antt =====
-- Small projects and devices for the tests of the store.
use homelab_builder.Types.{HardwareNode, homelab}
use homelab_builder.Hardware.{HardwareType}
use homelab_builder.Store.State.{saved, ready, no_settings, BuilderState}
use homelab_builder.Base.{String, true, none, some, [], nat_eq, string_eq, pos, int_eq}

-- A project that was just opened.
abbrev pub empty : BuilderState
empty = record {
  virtual_host_id = none;
  hardware_nodes = [];
  tags = [];
  nodes = [];
  edges = [];
  selected_node_id = none;
  build_kind = homelab;
  gaming_plan = [];
  build_settings = no_settings;
  validation_issues = [];
  current_build_id = some "b1";
  current_revision = 1;
  build_status = ready;
  save_state = saved;
  last_saved_at = none;
  save_error = none;
  server_reachable = true;
  canvas_focus = none;
  pending_focus = none;
  layout_motion = 0;
  project_name = "Home";
  last_synced_fingerprint = "";
  proposal_preview = none;
  applied_glow = none;
  history_past = [];
  history_future = [];
}

abbrev pub machine : String → HardwareType → HardwareNode
machine id type = record {
  id = id;
  type = type;
  name = id;
  ip = none;
  mac_address = none;
  subnet_mask = none;
  gateway = none;
  power_draw = none;
  x = pos 0;
  y = pos 0;
  details = none;
  vms = none;
  internal_components = none;
  parent_id = none;
}
