-- ===== src/Store/Tests.antt =====
-- Undo, Redo and a cable whose medium is fixed, on a small project.
use homelab_builder.Store.Payload.Sent.{get_build_data-IsWhole}
use homelab_builder.Store.History.Redo.{redo-undo, SameProject}
use homelab_builder.Store.Canvas.{device_ids, IsWhole, node_ids}
use homelab_builder.Store.Samples.{machine, empty}
use homelab_builder.Store.Payload.{saved_edge, SavedEdge, get_build_data, SavedNode}
use homelab_builder.Store.History.{history_limit, pop, canvas_of, undo, redo, record_edit}
use homelab_builder.Power.{is_power_handle}
use homelab_builder.Hardware.{
  HardwareType-discrete, server, pc, is_wifi_association, access_point, HardwareType,
}
use homelab_builder.Connection.{required_connection_type}
use homelab_builder.Types.{Dict}
use homelab_builder.Store.State.{EdgeData, Edge, BuilderState}
use homelab_builder.Store.Links.{ReactFlow}
use homelab_builder.Store.History.Laws.{Shows}
use homelab_builder.Store.Edits.{undo-run_edit, run_edit, remove_device, takes}
use homelab_builder.Store.Devices.{with_table, card_of, add_hardware}
use homelab_builder.Store.Cables.{no_data, settled_edge, EdgePatch}
use homelab_builder.Base.{
  contains, ◌≤◌, true, refl, [], String, ◌≡◌, ◌∷◌, length, arith, some, none, map, string_eq,
  nat_eq, int_eq,
}

-- What the store is without React Flow: changes of the canvas do nothing.
abbrev still : ReactFlow
still = record {
  apply_node_changes = λ changes nodes. nodes;
  apply_edge_changes = λ changes edges. edges;
  add_edge = λ edge edges. edges;
}

abbrev one : BuilderState
one = add_hardware empty (machine "s" server)

one-unseen : one.proposal_preview ≡ none
unfolding add_hardware record_edit
one-unseen = refl

taken : takes still (remove_device "s") one ≡ true
unfolding takes
taken = refl

undo-run_edit_example : Shows (undo (run_edit still (remove_device "s") one)) (canvas_of one)
undo-run_edit_example = undo-run_edit still (remove_device "s") one one-unseen taken

one-past : pop one.history_past ≡ some (canvas_of empty, [])
unfolding add_hardware record_edit pop
one-past = refl

one-bounded : length one.history_past ≤ history_limit
unfolding add_hardware record_edit
one-bounded = omega arith

redo-undo_example :
    Shows (redo (undo one)) (canvas_of one)
    × SameProject (redo (undo one)) one
    × ((redo (undo one)).history_past ≡ one.history_past)
redo-undo_example = redo-undo one (canvas_of empty) [] one-unseen one-past one-bounded

abbrev phone_link : Edge
phone_link = record {
  id = "e1";
  source = "ap";
  target = "pc";
  source_handle = some "eth0";
  target_handle = some "target-0";
  type = none;
  cable = some (record no_data { connection_type = some "ethernet" });
}

abbrev at_home : Dict HardwareType
at_home = ("ap", access_point) ∷ ("pc", pc) ∷ []

abbrev radio : EdgeData
radio = record no_data { connection_type = some "wireless"; wireless_standard = some "Wi-Fi 6" }

settled : (settled_edge at_home phone_link).cable ≡ some radio
unfolding settled_edge required_connection_type is_wifi_association is_power_handle
settled = refl

-- A phone whose cable is drawn to a socket of its charger.
abbrev one_link : BuilderState
one_link = record empty { edges = phone_link ∷ [] }

abbrev to_socket : EdgePatch
to_socket = record {
  source = none;
  target = none;
  source_handle = some "pwr-out-0";
  target_handle = none;
  type = none;
  cable = none;
}

one-IsWhole : IsWhole one.nodes one.edges one.hardware_nodes
unfolding add_hardware record_edit card_of with_table HardwareType-discrete
one-IsWhole = record { same = λ id. refl; joined = refl }

get_build_data-IsWhole_example :
    (map {A = SavedNode} (λ n. n.id) (get_build_data one).nodes ≡ node_ids one.nodes)
    × ((id : String)
        → contains (map {A = SavedNode} (λ n. n.id) (get_build_data one).nodes) id
          ≡ contains (device_ids one.hardware_nodes) id)
    × ((get_build_data one).edges ≡ map {A = Edge} {B = SavedEdge} saved_edge one.edges)
get_build_data-IsWhole_example = get_build_data-IsWhole one one-IsWhole
