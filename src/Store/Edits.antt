-- ===== src/Store/Edits.antt =====
-- builder-store.ts: the actions that are undo steps, as one type, and what Undo does after each.
use homelab_builder.Base.{
  ℕ, String, ◌≡◌, refl, ◌∙◌, Bool, true, false, not, ◌&&◌, ◌||◌, Option, none, some, List, [],
  arith, if◌then◌else◌, ◌==◌, nat_eq, string_eq, is_some?, length, any, keep, find, int_eq,
}
use homelab_builder.Power
use homelab_builder.Power.{is_power_handle, normalize_power_connection}
use homelab_builder.Gaming.{Service}
use homelab_builder.Types.{
  HardwareNode, HardwareComponent, VirtualMachine, VirtualNetwork, Point, spread,
}
use homelab_builder.Store.State.{BuilderState, HardwarePatch}
use homelab_builder.Store.History.{record_edit, change_device, canvas_of, undo}
use homelab_builder.Store.History.Laws.{Shows, undo-recorded}
use homelab_builder.Store.Devices.{
  add_hardware, remove_hardware, duplicate_hardware, update_hardware, is_rack,
}
use homelab_builder.Store.Parts.{
  add_internal_component, remove_internal_component, add_vm, remove_vm, update_vm, VmPatch,
  update_virtual_network,
}
use homelab_builder.Store.Links.{
  ReactFlow, NodeChange, EdgeChange, on_nodes_change, on_edges_change, on_connect, apply_layout,
  is_drag_end, has_removal, without_nodes, request_canvas_focus, is_cut, is_ready, target_of,
}

-- An action of the user that can be an undo step.
pub data Edit : Type 0 where
  add_device : HardwareNode → Edit
  remove_device : String → Edit
  duplicate : (ℕ → String) → String → Edit
  add_part : String → HardwareComponent → Edit
  remove_part : String → String → Edit
  add_guest : List Service → String → VirtualMachine → Edit
  remove_guest : String → String → Edit
  update_guest : String → String → VmPatch → Edit
  set_network : String → VirtualNetwork → Edit
  change_nodes : List NodeChange → Edit
  change_edges : List EdgeChange → Edit
  connect : Power.Connection → Edit
  arrange : List (String × Point) → Edit

-- Whether a device is copied: a rack is not.
abbrev copies : Option HardwareNode → Bool
copies none = false
copies (some device) = not (is_rack device)

-- The history and the preview of a state are those that recording an edit of another one leaves.
pub record Recorded (s t : BuilderState) : Type 0 where
  pub past : t.history_past ≡ (record_edit s).history_past
  pub future : t.history_future ≡ []
  pub preview : t.proposal_preview ≡ s.proposal_preview

Recorded-change_device :
    (s : BuilderState) (id : String) (change : HardwareNode → HardwarePatch)
    → Recorded s (change_device (record_edit s) id change)
unfolding change_device record_edit
Recorded-change_device s id change = record {
  past = ground arith;
  future = ground arith;
  preview = ground arith;
}

module _ (flow : ReactFlow) where
  unfoldable pub run_edit : Edit → BuilderState → BuilderState
  run_edit (add_device node) s = add_hardware s node
  run_edit (remove_device id) s = remove_hardware s id
  run_edit (duplicate fresh id) s = duplicate_hardware fresh s id
  run_edit (add_part id part) s = add_internal_component s id part
  run_edit (remove_part id part_id) s = remove_internal_component s id part_id
  run_edit (add_guest services id vm) s = add_vm services s id vm
  run_edit (remove_guest id vm_id) s = remove_vm s id vm_id
  run_edit (update_guest id vm_id patch) s = update_vm s id vm_id patch
  run_edit (set_network id network) s = update_virtual_network s id network
  run_edit (change_nodes changes) s = on_nodes_change flow s changes
  run_edit (change_edges changes) s = on_edges_change flow s changes
  run_edit (connect connection) s = on_connect flow s connection
  run_edit (arrange positions) s = (apply_layout s positions).0

  -- Whether the action changes the canvas for good. Measuring and dragging do not, nor does an action on a
  -- device that is not there.
  unfoldable pub takes : Edit → BuilderState → Bool
  takes (duplicate fresh id) s = copies (find (λ n. n.id == id) s.hardware_nodes)
  takes (add_guest services id vm) s = any (λ n. n.id == id) s.hardware_nodes
  takes (set_network id network) s = is_some? (find (λ n. n.id == id) s.hardware_nodes)
  takes (change_nodes changes) s = any is_drag_end changes || has_removal changes
  takes (change_edges changes) s = any is_cut changes
  takes (connect connection) s =
      if is_power_handle connection.source_handle || is_power_handle connection.target_handle
      then is_some? (normalize_power_connection connection)
      else true
  takes (arrange positions) s =
      not (is_some? s.proposal_preview)
      && is_ready s.build_status
      && not (length (keep (λ n. is_some? (target_of (spread [] positions) n)) s.nodes) == 0)
  takes _ s = true

  pub run_edit-Recorded :
      (edit : Edit) (s : BuilderState) → takes edit s ≡ true → Recorded s (run_edit edit s)
  unfolding run_edit takes add_hardware remove_hardware duplicate_hardware add_internal_component
      remove_internal_component add_vm remove_vm update_vm update_virtual_network update_hardware
      on_nodes_change on_edges_change on_connect apply_layout request_canvas_focus record_edit
      without_nodes
  run_edit-Recorded (add_device node) s h = record { past = refl; future = refl; preview = refl }
  run_edit-Recorded (remove_device id) s h = record { past = refl; future = refl; preview = refl }
  run_edit-Recorded (duplicate fresh id) s h = record {
    past = ground arith;
    future = ground arith;
    preview = ground arith;
  }
  run_edit-Recorded (add_part id part) s h = Recorded-change_device s id _
  run_edit-Recorded (remove_part id part_id) s h = Recorded-change_device s id _
  run_edit-Recorded (add_guest services id vm) s h = rw h (Recorded-change_device s id _)
  run_edit-Recorded (remove_guest id vm_id) s h = Recorded-change_device s id _
  run_edit-Recorded (update_guest id vm_id patch) s h = Recorded-change_device s id _
  run_edit-Recorded (set_network id network) s h = record {
    past = ground arith;
    future = ground arith;
    preview = ground arith;
  }
  run_edit-Recorded (change_nodes changes) s h = record {
    past = ground arith;
    future = ground arith;
    preview = ground arith;
  }
  run_edit-Recorded (change_edges changes) s h = record {
    past = ground arith;
    future = ground arith;
    preview = ground arith;
  }
  run_edit-Recorded (connect connection) s h = record {
    past = ground arith;
    future = ground arith;
    preview = ground arith;
  }
  run_edit-Recorded (arrange positions) s h = record {
    past = ground arith;
    future = ground arith;
    preview = ground arith;
  }

  -- An edit that does not take effect leaves both stacks alone.
  pub run_edit-untaken :
      (edit : Edit) (s : BuilderState)
      → takes edit s ≡ false
      → ((run_edit edit s).history_past ≡ s.history_past)
        × ((run_edit edit s).history_future ≡ s.history_future)
  unfolding run_edit takes add_vm update_virtual_network duplicate_hardware on_nodes_change
      on_edges_change on_connect apply_layout request_canvas_focus
  run_edit-untaken (add_device node) s h = absurd (ground arith)
  run_edit-untaken (remove_device id) s h = absurd (ground arith)
  run_edit-untaken (duplicate fresh id) s h = ground arith
  run_edit-untaken (add_part id part) s h = absurd (ground arith)
  run_edit-untaken (remove_part id part_id) s h = absurd (ground arith)
  run_edit-untaken (add_guest services id vm) s h = rw h (refl, refl)
  run_edit-untaken (remove_guest id vm_id) s h = absurd (ground arith)
  run_edit-untaken (update_guest id vm_id patch) s h = absurd (ground arith)
  run_edit-untaken (set_network id network) s h = ground arith
  run_edit-untaken (change_nodes changes) s h = ground arith
  run_edit-untaken (change_edges changes) s h = ground arith
  run_edit-untaken (connect connection) s h = ground arith
  run_edit-untaken (arrange positions) s h = ground arith

  -- Undo right after any edit that takes effect brings back the canvas from before it, exactly: its cards,
  -- its cables and its devices.
  pub undo-run_edit :
      (edit : Edit) (s : BuilderState)
      → s.proposal_preview ≡ none
      → takes edit s ≡ true
      → Shows (undo (run_edit edit s)) (canvas_of s)
  undo-run_edit edit s unseen h =
      let recorded = run_edit-Recorded edit s h in
      (undo-recorded s (run_edit edit s) recorded.past (recorded.preview ∙ unseen)).0
