-- ===== src/Store/Remote.antt =====
-- builder-store.ts: what the store takes over from the server: opening a build, following its changes,
-- applying a proposal, and the check of the network. Each is cut where it waits for the server.
pub mod Follows
mod Tests
use homelab_builder.Store.Canvas.{node_ids}
use homelab_builder.Store.Links.{request_canvas_focus, is_ready}
use homelab_builder.Store.History.{with_step, canvas_of}
use homelab_builder.Store.Loading.{nonempty, load_build, is_open, has_unsaved_changes, Build}
use homelab_builder.Store.Payload.{BuildData}
use homelab_builder.Types.{homelab, HardwareSpec}
use homelab_builder.Store.Validation.{validation_to_issues, ValidationReport}
use homelab_builder.Store.Saving.{still_open, Saver}
use homelab_builder.Store.State.{
  failed, saved, no_settings, Snapshot, ProposalPreview, loading, BuilderState, BuildStatus,
}
use homelab_builder.Base.{
  contains, ◌||◌, ◌+◌, keep, leb, ◌∷◌, ◌&&◌, not, ℕ, none, false, List, true, if◌then◌else◌, [],
  some, Bool, String, Option, string_eq, nat_eq, int_eq,
}

-- `validateNetwork`: which build is checked, and what the answer, if there is one, does.
unfoldable pub network_to_check : BuilderState → Option String
network_to_check s = nonempty s.current_build_id

unfoldable pub network_checked : String → Option ValidationReport → BuilderState → BuilderState
network_checked build_id none s = record s { validation_issues = [] }
network_checked build_id (some report) s =
    if still_open s build_id
    then record s { validation_issues = validation_to_issues (some report) }
    else s

unfoldable pub set_current_build_id : Option String → BuilderState → BuilderState
set_current_build_id id s = record s { current_build_id = id }

-- Nothing that the project before holds may stay under the id of another.
abbrev without_project : BuilderState → BuilderState
without_project s = record s {
  project_name = "";
  build_kind = homelab;
  gaming_plan = [];
  build_settings = no_settings;
  tags = [];
}

abbrev emptied : String → BuilderState → BuilderState
emptied id s = record s {
  current_build_id = some id;
  build_status = loading;
  current_revision = 0;
  virtual_host_id = none;
  nodes = [];
  edges = [];
  hardware_nodes = [];
  selected_node_id = none;
  validation_issues = [];
  history_past = [];
  history_future = [];
  proposal_preview = none;
  save_state = saved;
  save_error = none;
}

-- `openBuild` until it asks the server for the build. Asking again for the build that is open keeps it.
unfoldable pub start_open : String → Saver → Saver
start_open id s = if still_open s.builder id && is_ready s.builder.build_status then s else record {
  builder =
      if still_open s.builder id
      then emptied id s.builder
      else without_project (emptied id s.builder);
  unconfirmed_save = none;
}

abbrev pub is_loading : BuildStatus → Bool
is_loading loading = true
is_loading _ = false

-- A proposal can rename the build and change its kind and plan, so the step remembers those too.
abbrev pub proposal_step : BuilderState → Snapshot
proposal_step before = record (canvas_of before) {
  meta = some (record {
    project_name = some before.project_name;
    build_kind = some before.build_kind;
    gaming_plan = some before.gaming_plan;
  });
}

abbrev pub touched : Option ProposalPreview → List String
touched none = []
touched (some preview) = preview.changed_node_ids

-- What was applied is brought into view.
unfoldable pub shown : List String → BuilderState → BuilderState
shown [] s = s
shown (id ∷ ids) s =
    request_canvas_focus
      (record s {
        applied_glow = some (record {
          ids = some (id ∷ ids);
          nonce = elim s.applied_glow [ none ↦ 1 | some glow ↦ glow.nonce + 1 ];
        });
      })
      (some (id ∷ ids))

module _ (parse_json : String → Option HardwareSpec) (fingerprint : BuildData → String) where
  -- What the build that was asked for does, or that it could not be fetched.
  unfoldable pub opened : String → Option Build → BuilderState → BuilderState
  opened id none s =
      if still_open s id && is_loading s.build_status then record s { build_status = failed } else s
  opened id (some build) s =
      if still_open s id then load_build parse_json fingerprint s build.id build.name build else s

  -- `syncWithServer`: the build to fetch, if the server has a newer one and nothing is unsaved here.
  unfoldable pub start_sync : ℕ → BuilderState → Option String
  start_sync server_revision s =
      if not (is_open s) || leb server_revision s.current_revision
      then none
      else if has_unsaved_changes parse_json fingerprint s
      then none
      else s.current_build_id

  -- Whether it was reloaded, and the state then.
  unfoldable pub synced_with : String → Build → BuilderState → Bool × BuilderState
  synced_with build_id build s =
      if not (still_open s build_id)
      then (false, s)
      else if leb build.revision s.current_revision || has_unsaved_changes parse_json fingerprint s
      then (false, s)
      else (true, load_build parse_json fingerprint s build.id build.name build)

  -- `applyProposal`: unsaved edits are sent first.
  unfoldable pub saves_first : BuilderState → Bool
  saves_first s = has_unsaved_changes parse_json fingerprint s

  unfoldable pub taken_over : Build → Option ValidationReport → BuilderState → BuilderState
  taken_over build validation before =
      record (with_step (load_build parse_json fingerprint before build.id build.name build)
        before.history_past (proposal_step before)) {
          proposal_preview = none;
          validation_issues = validation_to_issues validation;
        }

  unfoldable pub proposal_applied :
      String → Build → Option ValidationReport → BuilderState → BuilderState
  proposal_applied build_id build validation before =
      if still_open before build_id
      then (let taken = taken_over build validation before in
          shown (keep (contains (node_ids taken.nodes)) (touched before.proposal_preview)) taken)
      else before
