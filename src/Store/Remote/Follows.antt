-- ===== src/Store/Remote/Follows.antt =====
-- builder-store.ts: what following the server can and cannot change.
use homelab_builder.Store.Canvas.{node_ids}
use homelab_builder.Store.Loading.Loaded.{load_build-clean}
use homelab_builder.Store.Validation.{ValidationReport}
use homelab_builder.Store.Saving.{start_save, still_open, Saver}
use homelab_builder.Store.Links.{is_ready, request_canvas_focus}
use homelab_builder.Store.Signature.{Signature}
use homelab_builder.Store.Loading.{is_open, load_build, has_unsaved_changes, Build}
use homelab_builder.Store.Payload.{BuildData}
use homelab_builder.Types.{HardwareSpec}
use homelab_builder.Store.Remote.{
  is_loading, touched, taken_over, shown, opened, start_open, synced_with, proposal_applied,
  proposal_step,
}
use homelab_builder.Store.History.Laws.{pop-recorded, undo-restore_step, with_stacks, Shows}
use homelab_builder.Store.State.{BuilderState}
use homelab_builder.Store.History.{
  step_back, undo, with_step, history_limit, last, canvas_of, restore_meta, restore_step,
}
use homelab_builder.Base.{
  contains, keep, arith, List, ℕ, refl, inr, ◌||◌, leb, inl, Bool-cases, ◌<◌, take, ◌&&◌, true, ◌⊎◌,
  [], ◌∷◌, false, ◌++◌, Bool, none, ◌≡◌, Option, String, string_eq, nat_eq, int_eq,
}

-- One Undo brings back the canvas, the name, the kind and the plan exactly.
pub record IsUndoneBy (s t : BuilderState) : Type 0 where
  pub canvas : Shows t (canvas_of s)
  pub project_name : t.project_name ≡ s.project_name
  pub build_kind : t.build_kind ≡ s.build_kind
  pub gaming_plan : t.gaming_plan ≡ s.gaming_plan

restored : (s u t : BuilderState) → t ≡ restore_step u (proposal_step s) → IsUndoneBy s t
unfolding restore_step restore_meta
restored s u t e = rw e (record {
  canvas = record { nodes = refl; edges = refl; hardware_nodes = refl };
  project_name = refl;
  build_kind = refl;
  gaming_plan = refl;
})

undo-applied :
    (s t : BuilderState)
    → t.proposal_preview ≡ none
    → t.history_past ≡ last history_limit (s.history_past ++ proposal_step s ∷ [])
    → IsUndoneBy s (undo t)
undo-applied s t unseen recorded =
    let mine = proposal_step s in
    let past = last 49 s.history_past in
    restored s (with_stacks t past (take history_limit (step_back t mine ∷ t.history_future)))
      (undo t)
      (undo-restore_step t mine past unseen (rw (recorded) (pop-recorded s.history_past mine)))

shown-same :
    (ids : List String) (s : BuilderState)
    → ((shown ids s).proposal_preview ≡ s.proposal_preview)
      × ((shown ids s).history_past ≡ s.history_past)
unfolding shown request_canvas_focus
shown-same [] s = (refl, refl)
shown-same (id ∷ ids) s = (refl, refl)

-- Of a test that failed, neither part holds.
newer : (m n : ℕ) (edited : Bool) → (leb m n || edited) ≡ false → (edited ≡ false) × (n < m)
newer m n true h = absurd (ground arith)
newer m n false h = (refl, ground arith)

start_open-empty :
    (id : String) (s : Saver)
    → (still_open s.builder id && is_ready s.builder.build_status) ≡ false
    → let t = start_open id s in
      (canvas_of t.builder ≡ record { nodes = []; edges = []; hardware_nodes = []; meta = none })
      × (t.builder.history_past ≡ [])
      × (t.builder.history_future ≡ [])
      × (is_ready t.builder.build_status ≡ false)
unfolding start_open
start_open-empty id s other = elim (Bool-cases (still_open s.builder id)) [
  | inl e ↦ rw (other, e) (refl, refl, refl, refl)
  | inr e ↦ rw (other, e) (refl, refl, refl, refl)
]

module _ (parse_json : String → Option HardwareSpec) (fingerprint : BuildData → String) where
  -- Undo right after a proposal was applied to the open build brings back the canvas, the
  -- project's name, its kind and its plan from before it.
  pub undo-proposal_applied :
      (build_id : String) (build : Build) (validation : Option ValidationReport) (s : BuilderState)
      → still_open s build_id ≡ true
      → IsUndoneBy s (undo (proposal_applied parse_json fingerprint build_id build validation s))
  unfolding proposal_applied taken_over with_step
  undo-proposal_applied build_id build validation s opened =
      let taken = taken_over parse_json fingerprint build validation s in
      let ids = keep (contains (node_ids taken.nodes)) (touched s.proposal_preview) in
      let same = shown-same ids taken in
      rw (opened) (undo-applied s (shown ids taken) same.0 same.1)

  load_build-revision :
      (build : Build) (s : BuilderState)
      → (load_build parse_json fingerprint s build.id build.name build).current_revision
        ≡ build.revision
  unfolding load_build
  load_build-revision build s = refl

  -- A build that is followed is reloaded only while it is open, nothing is unsaved in it and
  -- the server's revision is newer, and then has no unsaved changes; otherwise the state stays
  -- as it is.
  pub synced_with-cases :
      (build_id : String) (build : Build) (s : BuilderState)
      → let r = synced_with parse_json fingerprint build_id build s in
        ((r.0 ≡ false) × (r.1 ≡ s))
        ⊎ ((r.0 ≡ true)
            × (still_open s build_id ≡ true)
            × (has_unsaved_changes parse_json fingerprint s ≡ false)
            × (s.current_revision < build.revision)
            × (r.1.current_revision ≡ build.revision)
            × (has_unsaved_changes parse_json fingerprint r.1 ≡ false))
  unfolding synced_with
  synced_with-cases build_id build s =
      let edited = has_unsaved_changes parse_json fingerprint s in
      elim (Bool-cases (still_open s build_id)) [
        | inl e ↦ elim (Bool-cases (leb build.revision s.current_revision || edited)) [
          | inl f ↦ rw (e, f) (inl (refl, refl))
          | inr f ↦
              let facts = newer build.revision s.current_revision edited f in
              rw (e, f)
                (inr (
                  refl,
                  refl,
                  facts.0,
                  facts.1,
                  load_build-revision build s,
                  load_build-clean parse_json fingerprint s build.id build.name build,
                ))
        ]
        | inr e ↦ rw (e) (inl (refl, refl))
      ]

  is_open-not_ready : (u : BuilderState) → is_ready u.build_status ≡ false → is_open u ≡ false
  is_open-not_ready u h = ground arith

  unready-clean :
      (u : BuilderState)
      → is_ready u.build_status ≡ false
      → has_unsaved_changes parse_json fingerprint u ≡ false
  unfolding has_unsaved_changes
  unready-clean u h = rw (is_open-not_ready u h) refl

  unready-unsent :
      (locale_before : String → String → Bool) (stringify : Signature → String) (t : Saver)
      → is_ready t.builder.build_status ≡ false
      → (start_save parse_json fingerprint locale_before stringify t).0 ≡ none
  unfolding start_save
  unready-unsent locale_before stringify t h = rw (is_open-not_ready t.builder h) refl

  missed-unready :
      (id : String) (u : BuilderState)
      → is_ready u.build_status ≡ false
      → is_ready (opened parse_json fingerprint id none u).build_status ≡ false
  unfolding opened
  missed-unready id u h = elim (Bool-cases (still_open u id && is_loading u.build_status)) [
    | inl e ↦ rw (e) refl
    | inr e ↦ rw (e) h
  ]

  -- Where the build that is opened is not there yet, right after it was asked for, and also
  -- when it cannot be fetched, nothing counts as unsaved and no save starts; the canvas and
  -- both stacks are empty while it is waited for.
  pub start_open-IsIdle :
      (locale_before : String → String → Bool) (stringify : Signature → String) (id : String)
      (s : Saver)
      → (still_open s.builder id && is_ready s.builder.build_status) ≡ false
      → let t = start_open id s in
        let missed = opened parse_json fingerprint id none t.builder in
        (canvas_of t.builder ≡ record { nodes = []; edges = []; hardware_nodes = []; meta = none })
        × (t.builder.history_past ≡ [])
        × (t.builder.history_future ≡ [])
        × (has_unsaved_changes parse_json fingerprint t.builder ≡ false)
        × ((start_save parse_json fingerprint locale_before stringify t).0 ≡ none)
        × (has_unsaved_changes parse_json fingerprint missed ≡ false)
        × ((start_save parse_json fingerprint locale_before stringify
              (record t { builder = missed })).0
            ≡ none)
  start_open-IsIdle locale_before stringify id s other =
      let t = start_open id s in
      let missed = opened parse_json fingerprint id none t.builder in
      let empty_now = start_open-empty id s other in
      let unready = missed-unready id t.builder empty_now.3 in
      (
        empty_now.0,
        empty_now.1,
        empty_now.2,
        unready-clean t.builder empty_now.3,
        unready-unsent locale_before stringify t empty_now.3,
        unready-clean missed unready,
        unready-unsent locale_before stringify (record t { builder = missed }) unready,
      )
