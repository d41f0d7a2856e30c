-- ===== src/Store/Remote/Tests.antt =====
-- builder-store.ts: following the server with a project that was just opened.
use homelab_builder.Types.{HardwareSpec}
use homelab_builder.Store.History.{undo, canvas_of}
use homelab_builder.Store.Samples.{empty}
use homelab_builder.Store.Signature.{text_le, Signature}
use homelab_builder.Store.Saving.{still_open, start_save, Saver}
use homelab_builder.Store.Remote.Follows.{
  synced_with-cases, start_open-IsIdle, undo-proposal_applied, IsUndoneBy,
}
use homelab_builder.Store.Remote.{proposal_applied, opened, synced_with, start_sync, start_open}
use homelab_builder.Store.Payload.{get_build_data, BuildData}
use homelab_builder.Store.Loading.{has_unsaved_changes, Build}
use homelab_builder.Base.{
  ◌<◌, ◌⊎◌, ◌∷◌, true, some, refl, false, [], ◌≡◌, none, Option, String, string_eq, nat_eq, int_eq,
}

abbrev unread : String → Option HardwareSpec
unread json = none

abbrev fingerprint : BuildData → String
fingerprint payload = elim payload.nodes [ [] ↦ "" | n ∷ nodes ↦ n.id ]

abbrev constant : Signature → String
constant signature = "s"

abbrev newer_build : Build
newer_build = record {
  id = "b1";
  name = "Renamed";
  revision = 4;
  nodes = none;
  edges = none;
  settings = none;
  kind = none;
  gaming_plan = none;
}

reloads : (synced_with unread fingerprint "b1" newer_build empty).0 ≡ true
unfolding synced_with has_unsaved_changes get_build_data
reloads = refl

asks_newer : start_sync unread fingerprint 4 empty ≡ some "b1"
unfolding start_sync has_unsaved_changes get_build_data
asks_newer = refl

asks_older : start_sync unread fingerprint 1 empty ≡ none
unfolding start_sync has_unsaved_changes get_build_data
asks_older = refl

undo-proposal_applied_example :
    IsUndoneBy empty (undo (proposal_applied unread fingerprint "b1" newer_build none empty))
undo-proposal_applied_example =
    undo-proposal_applied unread fingerprint "b1" newer_build none empty refl

synced_with-cases_example :
    let r = synced_with unread fingerprint "b1" newer_build empty in
    ((r.0 ≡ false) × (r.1 ≡ empty))
    ⊎ ((r.0 ≡ true)
        × (still_open empty "b1" ≡ true)
        × (has_unsaved_changes unread fingerprint empty ≡ false)
        × (1 < 4)
        × (r.1.current_revision ≡ 4)
        × (has_unsaved_changes unread fingerprint r.1 ≡ false))
synced_with-cases_example = synced_with-cases unread fingerprint "b1" newer_build empty

abbrev other : Saver
other = record { builder = empty; unconfirmed_save = none }

start_open-IsIdle_example :
    let t = start_open "b2" other in
    let missed = opened unread fingerprint "b2" none t.builder in
    (canvas_of t.builder ≡ record { nodes = []; edges = []; hardware_nodes = []; meta = none })
    × (t.builder.history_past ≡ [])
    × (t.builder.history_future ≡ [])
    × (has_unsaved_changes unread fingerprint t.builder ≡ false)
    × ((start_save unread fingerprint text_le constant t).0 ≡ none)
    × (has_unsaved_changes unread fingerprint missed ≡ false)
    × ((start_save unread fingerprint text_le constant (record t { builder = missed })).0 ≡ none)
start_open-IsIdle_example = start_open-IsIdle unread fingerprint text_le constant "b2" other refl
