-- ===== src/Store/Sound/Steps.antt =====
-- builder-store.ts: every edit, Undo and Redo leave the store sound and its history bounded.
use homelab_builder.Base.{
  ℕ, String, ◌≡◌, refl, sym, ◌∙◌, ◌⊎◌, inl, inr, Bool, true, not, ◌&&◌, ◌||◌, none, List, [], map,
  arith, if◌then◌else◌, ◌==◌, nat_eq, string_eq, is_some?, Bool-cases, Option-cases, length, any,
  keep, find, contains, int_eq,
}
use homelab_builder.Power
use homelab_builder.Power.{normalize_power_connection, is_power_handle, reversed}
use homelab_builder.Power.Cables.{normalize-IsOriented}
use homelab_builder.Virtual.{with_fresh_child_ids}
use homelab_builder.Store.Canvas.Ids.{contains-of_eq, ids-map, both}
use homelab_builder.Store.Sound.{IsReactFlow, add-IsWhole, without-IsWhole}
use homelab_builder.Store.Sound.Nodes.{on_nodes_change-IsWhole, cards-IsWhole, placed-IsWhole}
use homelab_builder.Store.Devices.{
  card_of, add_hardware, updated_node, update_hardware, remove_hardware, duplicate_hardware,
  copy_of, is_rack,
}
use homelab_builder.Store.Links.{
  on_connect, ReactFlow, is_cut, on_edges_change, apply_layout, request_canvas_focus, arranged,
  target_of, is_ready,
}
use homelab_builder.Store.Parts.{
  add_internal_component, remove_internal_component, add_vm, remove_vm, update_vm,
  update_virtual_network,
}
use homelab_builder.Types.{HardwareNode, VirtualNetwork, Point, Dict, spread}
use homelab_builder.Store.Canvas.{IsWhole, device_ids, node_ids, change_device-IsWhole}
use homelab_builder.Store.History.{record_edit}
use homelab_builder.Store.State.{Node, HardwarePatch, patched, BuilderState}
use homelab_builder.Store.Edits.{
  run_edit, Edit, add_device, remove_device, duplicate, add_part, remove_part, add_guest,
  remove_guest, update_guest, set_network, change_nodes, change_edges, connect, arrange,
}

-- A new link starts and ends at a card: React Flow draws no other.
abbrev pub aims : Edit → BuilderState → Bool
aims (connect connection) s =
    contains (node_ids s.nodes) connection.source && contains (node_ids s.nodes) connection.target
aims _ s = true

patched-ids :
    (id : String) (patch : HardwarePatch) (devices : List HardwareNode)
    → patch.id ≡ none
    → device_ids (map (λ n. if n.id == id then patched n patch else n) devices) ≡ device_ids devices
unfolding patched
patched-ids id patch devices h =
    ids-map {A = HardwareNode} (λ n. n.id) _ (λ n. ground arith) devices

update_hardware-IsWhole :
    (s : BuilderState) (id : String) (patch : HardwarePatch)
    → patch.id ≡ none
    → IsWhole s.nodes s.edges s.hardware_nodes
    → IsWhole
        (update_hardware s id patch).nodes
        (update_hardware s id patch).edges
        (update_hardware s id patch).hardware_nodes
unfolding update_hardware updated_node
update_hardware-IsWhole s id patch unchanged h =
    let cards =
      ids-map {A = Node} (λ n. n.id) (λ n. if n.id == id then updated_node patch n else n)
        (λ n. ground arith) s.nodes in
    record {
      same = λ a.
          contains-of_eq _ _ cards a
          ∙ h.same a
          ∙ contains-of_eq _ _ (sym (patched-ids id patch s.hardware_nodes unchanged)) a;
      joined = rw cards h.joined;
    }

cable_aims :
    (s : BuilderState) (c cable : Power.Connection)
    → aims (connect c) s ≡ true
    → (cable ≡ c) ⊎ (cable ≡ reversed c)
    → aims (connect cable) s ≡ true
cable_aims s c cable aimed (inl e) = rw e aimed
cable_aims s c cable aimed (inr e) = rw e (ground arith)

duplicate-IsWhole :
    (fresh : ℕ → String) (s : BuilderState) (id : String)
    → IsWhole s.nodes s.edges s.hardware_nodes
    → IsWhole
        (duplicate_hardware fresh s id).nodes
        (duplicate_hardware fresh s id).edges
        (duplicate_hardware fresh s id).hardware_nodes
unfolding duplicate_hardware copy_of with_fresh_child_ids card_of record_edit
duplicate-IsWhole fresh s id h = elim (Option-cases (find (λ n. n.id == id) s.hardware_nodes)) [
  | inl missing ↦ rw (missing, duplicate_hardware) h
  | inr (orig, at) ↦ elim (Bool-cases (is_rack orig)) [
    | inl racked ↦ rw (at, racked, duplicate_hardware) h
    | inr single ↦ rw (at, single, duplicate_hardware) (add-IsWhole _ _ _ _ _ refl h)
  ]
]

set_network-IsWhole :
    (s : BuilderState) (id : String) (network : VirtualNetwork)
    → IsWhole s.nodes s.edges s.hardware_nodes
    → IsWhole
        (update_virtual_network s id network).nodes
        (update_virtual_network s id network).edges
        (update_virtual_network s id network).hardware_nodes
unfolding update_virtual_network record_edit
set_network-IsWhole s id network h = elim (Option-cases (find (λ n. n.id == id) s.hardware_nodes)) [
  | inl missing ↦ rw (missing, update_virtual_network) h
  | inr (host, at) ↦
      rw (at, update_virtual_network) (update_hardware-IsWhole (record_edit s) id _ refl h)
]

module _ (flow : ReactFlow) (laws : IsReactFlow flow) where
  on_connect-IsWhole :
      (s : BuilderState) (c : Power.Connection)
      → aims (connect c) s ≡ true
      → IsWhole s.nodes s.edges s.hardware_nodes
      → IsWhole
          (on_connect flow s c).nodes
          (on_connect flow s c).edges
          (on_connect flow s c).hardware_nodes
  unfolding on_connect record_edit
  on_connect-IsWhole s c aimed h =
      elim (Bool-cases (is_power_handle c.source_handle || is_power_handle c.target_handle)) [
        | inl power ↦ elim (Option-cases (normalize_power_connection c)) [
          | inl refused ↦ rw (power, refused, on_connect) h
          | inr (cable, at) ↦
              rw (power, at, on_connect)
                (record {
                  same = h.same;
                  joined =
                      laws.added _ s.edges (both (node_ids s.nodes))
                        (cable_aims s c cable aimed (normalize-IsOriented c cable at).2) h.joined;
                })
        ]
        | inr network ↦
            rw (network, on_connect)
              (record {
                same = h.same;
                joined = laws.added _ s.edges (both (node_ids s.nodes)) aimed h.joined;
              })
      ]

  apply_layout-IsWhole :
      (s : BuilderState) (positions : List (String × Point))
      → IsWhole s.nodes s.edges s.hardware_nodes
      → IsWhole
          (apply_layout s positions).0.nodes
          (apply_layout s positions).0.edges
          (apply_layout s positions).0.hardware_nodes
  unfolding apply_layout request_canvas_focus record_edit
  apply_layout-IsWhole s positions h =
      let targets : Dict Point = spread [] positions in
      elim (Bool-cases (is_some? s.proposal_preview || not (is_ready s.build_status))) [
        | inl locked ↦ rw (locked, apply_layout) h
        | inr free ↦
            elim (Bool-cases (length (keep (λ n. is_some? (target_of targets n)) s.nodes) == 0)) [
              | inl none_moves ↦ rw (free, none_moves, apply_layout) h
              | inr moves ↦
                  rw (free, moves, apply_layout)
                    (placed-IsWhole _ _ _ _ (
                      cards-IsWhole s.nodes _ _ _
                        (ids-map {A = Node} (λ n. n.id) (arranged targets) (λ n. ground arith)
                          s.nodes)
                        h))
            ]
      ]

  pub run_edit-IsWhole :
      (edit : Edit) (s : BuilderState)
      → aims edit s ≡ true
      → IsWhole s.nodes s.edges s.hardware_nodes
      → IsWhole
          (run_edit flow edit s).nodes
          (run_edit flow edit s).edges
          (run_edit flow edit s).hardware_nodes
  unfolding run_edit add_hardware card_of remove_hardware duplicate_hardware copy_of
      with_fresh_child_ids add_internal_component remove_internal_component add_vm remove_vm
      update_vm update_virtual_network on_edges_change apply_layout request_canvas_focus record_edit
  run_edit-IsWhole (add_device node) s aimed h = add-IsWhole _ _ _ _ _ refl h
  run_edit-IsWhole (remove_device id) s aimed h = without-IsWhole _ _ _ _ h
  run_edit-IsWhole (duplicate fresh id) s aimed h = duplicate-IsWhole fresh s id h
  run_edit-IsWhole (add_part id part) s aimed h =
      change_device-IsWhole (record_edit s) id _ (λ d. refl) h
  run_edit-IsWhole (remove_part id part_id) s aimed h =
      change_device-IsWhole (record_edit s) id _ (λ d. refl) h
  run_edit-IsWhole (add_guest services id vm) s aimed h =
      elim (Bool-cases (any (λ n. n.id == id) s.hardware_nodes)) [
        | inl there ↦
            rw (there, run_edit, add_vm) (change_device-IsWhole (record_edit s) id _ (λ d. refl) h)
        | inr gone ↦ rw (gone, run_edit, add_vm) h
      ]
  run_edit-IsWhole (remove_guest id vm_id) s aimed h =
      change_device-IsWhole (record_edit s) id _ (λ d. refl) h
  run_edit-IsWhole (update_guest id vm_id patch) s aimed h =
      change_device-IsWhole (record_edit s) id _ (λ d. refl) h
  run_edit-IsWhole (set_network id network) s aimed h = set_network-IsWhole s id network h
  run_edit-IsWhole (change_nodes changes) s aimed h = on_nodes_change-IsWhole flow laws s changes h
  run_edit-IsWhole (change_edges changes) s aimed h = elim (Bool-cases (any is_cut changes)) [
    | inl away ↦
        rw (away, run_edit, on_edges_change)
          (record {
            same = h.same;
            joined = laws.edges changes s.edges (both (node_ids s.nodes)) h.joined;
          })
    | inr kept ↦
        rw (kept, run_edit, on_edges_change)
          (record {
            same = h.same;
            joined = laws.edges changes s.edges (both (node_ids s.nodes)) h.joined;
          })
  ]
  run_edit-IsWhole (connect connection) s aimed h = on_connect-IsWhole s connection aimed h
  run_edit-IsWhole (arrange positions) s aimed h = apply_layout-IsWhole s positions h
