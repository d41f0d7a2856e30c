-- ===== src/Store/Project.antt =====
-- builder-store.ts: tags, settings, the selection, what the camera looks at, and closing a project.
use homelab_builder.Base.{
  ◌+◌, String, Bool, true, false, not, ◌&&◌, Option, none, some, List, [], ◌∷◌, ◌++◌, map,
  if◌then◌else◌, ◌==◌, nat_eq, string_eq, is?, or_else, keep, contains, int_eq,
}
use homelab_builder.Hardware.{HardwareType, type_eq}
use homelab_builder.Types.{
  HardwareNode, HardwareSpec, BuilderTag, BuildKind, homelab, Dict, Json, get, spread, no_details,
}
use homelab_builder.Store.State.{
  BuilderState, idle, ready, saved, no_settings, Node, PendingFocus, ProposalPreview,
}
use homelab_builder.Store.Links.{ReactFlow, NodeChange, resized, request_canvas_focus}

unfoldable pub add_tag : BuilderState → BuilderTag → BuilderState
add_tag state tag =
    let tags = state.tags ++ tag ∷ [] in
    record state { tags = tags; build_settings = record state.build_settings { tags = some tags } }

-- The tags of a device.
abbrev pub tags_of : HardwareNode → List String
tags_of node = elim node.details [ none ↦ [] | some details ↦ or_else details.tags [] ]

abbrev pub untagged : String → HardwareNode → HardwareNode
untagged tag_id node =
    if contains (tags_of node) tag_id
    then record node {
      details = some (record (or_else node.details no_details) {
        tags = some (keep (λ id. not (id == tag_id)) (tags_of node));
      });
    }
    else node

-- The new details of each device that lost the tag.
abbrev changed_details : String → List HardwareNode → Dict (Option HardwareSpec)
changed_details tag_id devices = spread [] (
    map {B = String × Option HardwareSpec} (λ node. (node.id, (untagged tag_id node).details))
      (keep (λ node. contains (tags_of node) tag_id) devices))

abbrev with_details : Node → Option HardwareSpec → Node
with_details node details = record node {
  card = record { label = node.card.label; device = record node.card.device { details = details } };
}

unfoldable pub delete_tag : BuilderState → String → BuilderState
delete_tag state tag_id =
    let tags = keep (λ tag. not (tag.id == tag_id)) state.tags in
    record state {
      tags = tags;
      hardware_nodes = map (untagged tag_id) state.hardware_nodes;
      nodes =
          map
            (λ node. elim (get (changed_details tag_id state.hardware_nodes) node.id) [
              | none ↦ node
              | some details ↦ with_details node details
            ])
            state.nodes;
      build_settings = record state.build_settings { tags = some tags };
    }

unfoldable pub set_build_kind : BuilderState → BuildKind → BuilderState
set_build_kind state kind = record state { build_kind = kind }

unfoldable pub set_gaming_plan : BuilderState → Dict Json → BuilderState
set_gaming_plan state plan = record state { gaming_plan = plan }

-- Nothing ticked and nothing stored leaves the settings alone.
unfoldable pub set_setup_done : BuilderState → List String → BuilderState
set_setup_done state [] = elim state.build_settings.setup_done [
  | none ↦ state
  | some _ ↦ record state { build_settings = record state.build_settings { setup_done = some [] } }
]
set_setup_done state (id ∷ ids) = record state {
  build_settings = record state.build_settings { setup_done = some (id ∷ ids) };
}

unfoldable pub set_server_reachable : BuilderState → Bool → BuilderState
set_server_reachable state reachable = record state { server_reachable = reachable }

unfoldable pub select_node : BuilderState → Option String → BuilderState
select_node state node_id = record state { selected_node_id = node_id }

unfoldable pub set_project_name : BuilderState → String → BuilderState
set_project_name state name = record state { project_name = name }

unfoldable pub set_pending_focus : BuilderState → Option PendingFocus → BuilderState
set_pending_focus state focus = record state { pending_focus = focus }

unfoldable pub ids_of_types : List HardwareNode → List HardwareType → List String
ids_of_types devices [] = []
ids_of_types devices (type ∷ types) =
    map (λ n. n.id) (keep (λ n. n.type == type) devices) ++ ids_of_types devices types

-- The devices that a pending focus is about, as far as they exist.
unfoldable pub focus_ids : List HardwareNode → PendingFocus → List String
focus_ids devices focus = elim focus.types [
  | some types ↦ ids_of_types devices types
  | none ↦ map (λ n. n.id) (keep (λ n. contains (or_else focus.ids []) n.id) devices)
]

abbrev is_open : BuilderState → String → Bool
is_open state build_id =
    is? state.current_build_id build_id && (elim state.build_status [ ready ↦ true | _ ↦ false ])

abbrev focused : BuilderState → PendingFocus → List String → BuilderState
focused state focus [] = request_canvas_focus (record state { pending_focus = none }) none
focused state focus (id ∷ ids) =
    request_canvas_focus
      (record state {
        pending_focus = none;
        selected_node_id = if focus.select then some id else state.selected_node_id;
      })
      (some (id ∷ ids))

unfoldable pub take_pending_focus : BuilderState → String → BuilderState
take_pending_focus state build_id = elim state.pending_focus [
  | none ↦ state
  | some focus ↦
      if focus.build_id == build_id && is_open state build_id
      then focused state focus (focus_ids state.hardware_nodes focus)
      else state
]

unfoldable pub end_proposal_preview : BuilderState → BuilderState
end_proposal_preview state = record state { proposal_preview = none }

abbrev focused_preview : ProposalPreview → List String → ProposalPreview
focused_preview preview ids = record preview {
  focus = some (record {
    ids = some ids;
    nonce = elim preview.focus [ none ↦ 1 | some focus ↦ focus.nonce + 1 ];
  });
}

unfoldable pub focus_proposal_nodes : BuilderState → List String → BuilderState
focus_proposal_nodes state ids = elim state.proposal_preview [
  | none ↦ state
  | some preview ↦ record state { proposal_preview = some (focused_preview preview ids) }
]

abbrev is_resize : NodeChange → Bool
is_resize (resized id width height) = true
is_resize _ = false

abbrev resized_preview : ReactFlow → BuilderState → List NodeChange → BuilderState
resized_preview flow state [] = state
resized_preview flow state (change ∷ changes) = elim state.proposal_preview [
  | none ↦ state
  | some preview ↦ record state {
    proposal_preview =
        some (record preview { nodes = flow.apply_node_changes (change ∷ changes) preview.nodes });
  }
]

-- Of a preview only the measured sizes of its cards can change.
unfoldable pub apply_preview_node_changes :
    ReactFlow → BuilderState → List NodeChange → BuilderState
apply_preview_node_changes flow state changes = resized_preview flow state (keep is_resize changes)

-- Closing the project: nothing of it stays in the store. What the server was reached with stays.
unfoldable pub clear_current_build : BuilderState → BuilderState
clear_current_build state = record state {
  virtual_host_id = none;
  current_build_id = none;
  current_revision = 0;
  build_status = idle;
  save_state = saved;
  last_saved_at = none;
  save_error = none;
  project_name = "Untitled Project";
  nodes = [];
  edges = [];
  hardware_nodes = [];
  tags = [];
  selected_node_id = none;
  validation_issues = [];
  build_kind = homelab;
  gaming_plan = [];
  build_settings = no_settings;
  history_past = [];
  history_future = [];
  last_synced_fingerprint = "";
  proposal_preview = none;
  canvas_focus = none;
  pending_focus = none;
  applied_glow = none;
}
