-- ===== src/Store/History/Redo.antt =====
-- Redo takes back what Undo did.
use homelab_builder.Base.{
  ◌≤◌, ◌≡◌, refl, sym, ap, ◌∙◌, Option, none, some, List, [], ◌∷◌, ◌++◌, arith, nat_eq, string_eq,
  length, take, int_eq,
}
use homelab_builder.Store.State.{BuilderState, Snapshot, SnapshotMeta}
use homelab_builder.Store.History.{
  history_limit, last, canvas_of, pop, undo, redo, restore_step, restore_meta, step_back,
  current_meta, current_meta?,
}
use homelab_builder.Store.History.Laws.{
  Shows, with_stacks, undo-step, undo-restore_step, redo-step, redo-restore_step, pop-eq-some,
  last_of_length-le, restore_step-Shows,
}

-- Name, kind and plan.
pub record SameProject (s t : BuilderState) : Type 0 where
  pub project_name : s.project_name ≡ t.project_name
  pub build_kind : s.build_kind ≡ t.build_kind
  pub gaming_plan : s.gaming_plan ≡ t.gaming_plan

current_meta-restore :
    (b s : BuilderState) (meta : Option SnapshotMeta)
    → current_meta? (current_meta? meta s) (restore_meta b meta) ≡ meta
unfolding current_meta restore_meta
current_meta-restore b s none = refl
current_meta-restore b s (some meta) = ground arith

current_meta-SameProject :
    (s t : BuilderState) (meta : Option SnapshotMeta)
    → SameProject s t
    → current_meta? meta s ≡ current_meta? meta t
unfolding current_meta
current_meta-SameProject s t none h = refl
current_meta-SameProject s t (some meta) h = simp (h.project_name, h.build_kind, h.gaming_plan)

restore_meta-SameProject :
    (s t : BuilderState) (meta : Option SnapshotMeta)
    → SameProject s t
    → SameProject (restore_meta s meta) (restore_meta t meta)
unfolding restore_meta
restore_meta-SameProject s t none h = h
restore_meta-SameProject s t (some meta) h = record {
  project_name = simp h.project_name;
  build_kind = simp h.build_kind;
  gaming_plan = simp h.gaming_plan;
}

restore_step-SameProject :
    (b : BuilderState) (snap : Snapshot)
    → SameProject (restore_step b snap) (restore_meta b snap.meta)
unfolding restore_step
restore_step-SameProject b snap =
    restore_meta-SameProject _ b snap.meta
      (record { project_name = refl; build_kind = refl; gaming_plan = refl })

-- The values that a step saved of a state come back with it.
restore_meta-current_meta :
    (b s : BuilderState) (meta : Option SnapshotMeta)
    → SameProject b s
    → SameProject (restore_meta (restore_meta b meta) (current_meta? meta s)) s
unfolding restore_meta current_meta
restore_meta-current_meta b s none h = h
restore_meta-current_meta b s (some meta) h = record {
  project_name = ground (arith, h.project_name);
  build_kind = ground (arith, h.build_kind);
  gaming_plan = ground (arith, h.gaming_plan);
}

-- Stepping back over a step that was restored gives that step.
step_back-restore :
    (b s : BuilderState) (snap : Snapshot)
    → step_back (restore_step b snap) (step_back s snap) ≡ snap
unfolding step_back
step_back-restore b s snap =
    let shows = restore_step-Shows b snap in
    let metas =
      current_meta-SameProject (restore_step b snap) (restore_meta b snap.meta)
        (current_meta? snap.meta s) (restore_step-SameProject b snap)
      ∙ current_meta-restore b s snap.meta in
    ground (arith, shows.nodes, shows.edges, shows.hardware_nodes, metas)

SameProject-trans : {a b c : BuilderState} → SameProject a b → SameProject b c → SameProject a c
SameProject-trans h k = record {
  project_name = h.project_name ∙ k.project_name;
  build_kind = h.build_kind ∙ k.build_kind;
  gaming_plan = h.gaming_plan ∙ k.gaming_plan;
}

step_back_fields :
    (s : BuilderState) (snap : Snapshot)
    → ((step_back s snap).nodes ≡ s.nodes)
      × ((step_back s snap).edges ≡ s.edges)
      × ((step_back s snap).hardware_nodes ≡ s.hardware_nodes)
      × ((step_back s snap).meta ≡ current_meta? snap.meta s)
unfolding step_back
step_back_fields s snap = (refl, refl, refl, refl)

module _ (s : BuilderState) (snap : Snapshot) (past : List Snapshot)
    (unseen : s.proposal_preview ≡ none) (top : pop s.history_past ≡ some (snap, past)) where
  undone : BuilderState
  undone = with_stacks s past (take history_limit (step_back s snap ∷ s.history_future))

  step_back-undo : step_back (undo s) (step_back s snap) ≡ snap
  step_back-undo = rw (undo-restore_step s snap past unseen top) (step_back-restore _ s snap)

  redone : BuilderState
  redone =
      with_stacks (undo s)
        (last history_limit ((undo s).history_past ++ step_back (undo s) (step_back s snap) ∷ []))
        (take 49 s.history_future)

  undo-SameProject : SameProject (undo s) (restore_meta s snap.meta)
  undo-SameProject = rw (undo-restore_step s snap past unseen top) (
      SameProject-trans (restore_step-SameProject _ snap) (
        restore_meta-SameProject _ s snap.meta
          (record { project_name = refl; build_kind = refl; gaming_plan = refl })))

  redo-undo-SameProject : SameProject (redo (undo s)) s
  redo-undo-SameProject =
      let u = undo-step s snap past unseen top in
      let step = redo-restore_step (undo s) (step_back s snap) (take 49 s.history_future) u.3 u.2 in
      rw step (
        SameProject-trans (restore_step-SameProject _ (step_back s snap)) (
          rw ((step_back_fields s snap).3) (
            SameProject-trans
              (restore_meta-SameProject _ (restore_meta s snap.meta) (current_meta? snap.meta s)
                (record {
                  project_name = undo-SameProject.project_name;
                  build_kind = undo-SameProject.build_kind;
                  gaming_plan = undo-SameProject.gaming_plan;
                }))
              (restore_meta-current_meta s s snap.meta
                (record { project_name = refl; build_kind = refl; gaming_plan = refl })))))

  whole_stack : (undo s).history_past ++ step_back (undo s) (step_back s snap) ∷ [] ≡ s.history_past
  whole_stack =
      ap (λ p. p ++ step_back (undo s) (step_back s snap) ∷ []) (undo-step s snap past unseen top).1
      ∙ ap (λ x. past ++ x ∷ []) step_back-undo
      ∙ sym (pop-eq-some s.history_past past snap top)

  -- Redo right after Undo brings back the canvas, the project's name, kind and plan, and the undo stack.
  pub redo-undo :
      length s.history_past ≤ history_limit
      → Shows (redo (undo s)) (canvas_of s)
        × SameProject (redo (undo s)) s
        × ((redo (undo s)).history_past ≡ s.history_past)
  redo-undo bounded =
      let u = undo-step s snap past unseen top in
      let r = redo-step (undo s) (step_back s snap) (take 49 s.history_future) u.3 u.2 in
      let f = step_back_fields s snap in
      (
        record {
          nodes = r.0.nodes ∙ f.0;
          edges = r.0.edges ∙ f.1;
          hardware_nodes = r.0.hardware_nodes ∙ f.2;
        },
        redo-undo-SameProject,
        r.1
            ∙ ap (last history_limit) whole_stack
            ∙ last_of_length-le history_limit s.history_past bounded,
      )
