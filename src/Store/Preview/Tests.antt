-- ===== src/Store/Preview/Tests.antt =====
-- proposal-preview.ts: a proposal that removes one of two cabled devices and adds a third.
use homelab_builder.Store.Devices.{rack_height_px}
use homelab_builder.Store.Preview.Shown.{build_proposal_preview-IsWhole}
use homelab_builder.Store.Samples.{machine}
use homelab_builder.Types.{HardwareSpec}
use homelab_builder.Hardware.{HardwareType-discrete, switch, router}
use homelab_builder.Store.Signature.{text_le}
use homelab_builder.Store.Loading.{
  loaded_device, racks_first, loaded_node, missing, map_build_to_flow, BuildNode,
}
use homelab_builder.Store.State.{no_change, hardware_card, Node, Snapshot, Edge}
use homelab_builder.Store.Preview.{
  with_cable_ends, connection_key, edge_status, node_status, live_by_id, place, floated, mark,
  reveals_before, marked_ids, parents_first, preview_edges, preview_nodes, build_proposal_preview,
  Proposal,
}
use homelab_builder.Store.Canvas.{IsWhole, IsWholeStep}
use homelab_builder.Base.{
  ◌≡◌, true, sort, false, contains, all, map, [], ◌∷◌, none, ℤ, some, refl, pos, Option, String,
  string_eq, nat_eq, int_eq,
}

abbrev card_at : String → ℤ → Node
card_at id y = record {
  id = id;
  kind = hardware_card;
  position = record { x = pos 0; y = y };
  card = record { label = id; device = no_change };
  parent_id = none;
  inside_parent = false;
  style = none;
  z_index = none;
  measured = none;
  width = none;
  height = none;
  selected = true;
}

abbrev wire : Edge
wire = record {
  id = "w";
  source = "r";
  target = "s";
  source_handle = some "eth0";
  target_handle = some "target-0";
  type = some "custom";
  cable = none;
}

abbrev live : Snapshot
live = record {
  nodes = card_at "r" (pos 0) ∷ card_at "s" (pos 100) ∷ [];
  edges = wire ∷ [];
  hardware_nodes = machine "r" router ∷ machine "s" switch ∷ [];
  meta = none;
}

abbrev kept_router : String → BuildNode
kept_router id = record {
  id = id;
  type = router;
  name = id;
  ip = none;
  mac_address = none;
  power_draw = none;
  x = none;
  y = none;
  virtual_machines = none;
  internal_components = none;
  details = missing;
  parent_id = none;
}

abbrev proposal : Proposal
proposal = record {
  id = "p1";
  build = some (record {
    id = "b1";
    name = "Home";
    revision = 2;
    nodes = some (kept_router "r" ∷ kept_router "n" ∷ []);
    edges = none;
    settings = none;
    kind = none;
    gaming_plan = none;
  });
  validation = none;
  diff = record {
    nodes_added = "n" ∷ [];
    nodes_removed = "s" ∷ [];
    nodes_changed = [];
    vm_hosts = [];
    component_hosts = [];
    connections_added = [];
    connections_removed =
        record { source = "s"; target = "r"; target_handle = none; type = "ethernet" } ∷ [];
    connections_changed = [];
  };
}

abbrev unread : String → Option HardwareSpec
unread json = none

-- The ghost and its cable stay in sight; what goes is shown first.
shows_ghost :
    (build_proposal_preview unread text_le proposal live).changed_node_ids ≡ "s" ∷ "n" ∷ "r" ∷ []
unfolding build_proposal_preview map_build_to_flow preview_nodes preview_edges parents_first sort
    reveals_before mark floated place live_by_id node_status edge_status connection_key
    with_cable_ends loaded_node racks_first loaded_device rack_height_px HardwareType-discrete
shows_ghost = refl

live-IsWhole : IsWholeStep live
live-IsWhole = record { same = λ id. refl; joined = refl }

build_proposal_preview-IsWhole_example :
    let g = build_proposal_preview unread text_le proposal live in
    IsWhole (map (λ n. n.node) g.nodes) (map (λ e. e.edge) g.edges) g.hardware_nodes
    × (all (contains (marked_ids g.nodes)) g.changed_node_ids ≡ true)
build_proposal_preview-IsWhole_example =
    build_proposal_preview-IsWhole unread text_le proposal live live-IsWhole
