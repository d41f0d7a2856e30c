-- ===== src/Store/Sound/Runs.antt =====
-- builder-store.ts: runs of edits, Undo and Redo, from a project that was just closed or opened.
use homelab_builder.Base.{
  ◌≤◌, ◌≡◌, refl, sym, ap, inl, inr, true, none, some, List, [], ◌∷◌, ◌++◌, arith, nat_eq,
  string_eq, Bool-cases, Option-cases, length, length-append, int_eq,
}
use homelab_builder.Store.Sound.{IsReactFlow, IsSound-recorded}
use homelab_builder.Store.Sound.Steps.{aims, run_edit-IsWhole}
use homelab_builder.Store.Canvas.{
  IsSound, IsWhole, IsWholeStep, AreWhole, AreWhole-snoc, AreWhole-last, AreWhole-take,
}
use homelab_builder.Store.Edits.{Edit, run_edit, takes, run_edit-Recorded, run_edit-untaken}
use homelab_builder.Store.History.{
  undo, redo, pop, step_back, history_limit, record_edit, canvas_of,
}
use homelab_builder.Store.History.Laws.{
  Shows, undo-step, redo-step, pop-eq-some, length-last-le, length-take-le,
}
use homelab_builder.Store.State.{BuilderState, Snapshot, ProposalPreview}
use homelab_builder.Store.Links.{ReactFlow}

-- Neither stack holds more steps than the limit.
pub record IsBounded (s : BuilderState) : Type 0 where
  pub past : length s.history_past ≤ history_limit
  pub future : length s.history_future ≤ history_limit

-- A canvas that a snapshot gave is as whole as it.
Shows-IsWhole :
    (t : BuilderState) (snap : Snapshot)
    → Shows t snap
    → IsWholeStep snap
    → IsWhole t.nodes t.edges t.hardware_nodes
Shows-IsWhole t snap e h = rw (e.nodes, e.edges, e.hardware_nodes) h

AreWhole-unsnoc :
    (steps : List Snapshot) (snap : Snapshot)
    → AreWhole (steps ++ snap ∷ [])
    → AreWhole steps × IsWholeStep snap
AreWhole-unsnoc [] snap h = (h.1, h.0)
AreWhole-unsnoc (a ∷ steps) snap h =
    let rest = AreWhole-unsnoc steps snap h.1 in ((h.0, rest.0), rest.1)

step_back-IsWholeStep :
    (s : BuilderState) (snap : Snapshot) → IsSound s → IsWholeStep (step_back s snap)
unfolding step_back
step_back-IsWholeStep s snap h = h.canvas

undo-stuck : (s : BuilderState) → pop s.history_past ≡ none → undo s ≡ s
unfolding undo
undo-stuck s e = ground arith

undo-seen : (s : BuilderState) (p : ProposalPreview) → s.proposal_preview ≡ some p → undo s ≡ s
unfolding undo
undo-seen s p e = simp e

redo-stuck : (s : BuilderState) → s.history_future ≡ [] → redo s ≡ s
unfolding redo
redo-stuck s e = ground arith

redo-seen : (s : BuilderState) (p : ProposalPreview) → s.proposal_preview ≡ some p → redo s ≡ s
unfolding redo
redo-seen s p e = simp e

-- Both hold of a state: what the history may bring back is whole, and there is not too much of it.
abbrev pub IsFit : BuilderState → Type 0
IsFit s = IsSound s × IsBounded s

AreWhole-of_eq : (xs ys : List Snapshot) → xs ≡ ys → AreWhole xs → AreWhole ys
AreWhole-of_eq xs ys e h = rw (sym e) h

record_edit-IsBounded : (s : BuilderState) → length (record_edit s).history_past ≤ history_limit
unfolding record_edit
record_edit-IsBounded s = length-last-le history_limit (s.history_past ++ canvas_of s ∷ [])

IsFit-of_eq : (s t : BuilderState) → s ≡ t → IsFit s → IsFit t
IsFit-of_eq s t e h = rw (sym e) h

undo_from :
    (s : BuilderState) (snap : Snapshot) (past : List Snapshot)
    → s.proposal_preview ≡ none
    → pop s.history_past ≡ some (snap, past)
    → IsFit s
    → IsFit (undo s)
undo_from s snap past unseen top (h, b) =
    let u = undo-step s snap past unseen top in
    let split = pop-eq-some s.history_past past snap top in
    let kept = AreWhole-unsnoc past snap (AreWhole-of_eq _ _ split h.past) in
    (
      record {
        canvas = Shows-IsWhole (undo s) snap u.0 kept.1;
        past = rw u.1 kept.0;
        future = rw u.2 (
            AreWhole-take history_limit (step_back s snap ∷ s.history_future)
              (step_back-IsWholeStep s snap h, h.future));
      },
      record {
        past = rw u.1 (
            omega
              (arith, b.past, ap {A = List Snapshot} length split, length-append past (snap ∷ [])));
        future = rw u.2 (length-take-le history_limit (step_back s snap ∷ s.history_future));
      },
    )

undo-IsFit : (s : BuilderState) → IsFit s → IsFit (undo s)
undo-IsFit s h = elim (Option-cases s.proposal_preview) [
  | inr (p, seen) ↦ rw (undo-seen s p seen) h
  | inl unseen ↦ elim (Option-cases (pop s.history_past)) [
    | inl empty ↦ rw (undo-stuck s empty) h
    | inr ((snap, past), top) ↦ undo_from s snap past unseen top h
  ]
]

redo_from_future :
    (s : BuilderState) (future : List Snapshot)
    → s.proposal_preview ≡ none
    → s.history_future ≡ future
    → IsFit s
    → IsFit (redo s)
redo_from_future s [] unseen e h = rw (redo-stuck s e) h
redo_from_future s (snap ∷ future) unseen e (h, b) =
    let r = redo-step s snap future unseen e in
    let kept : AreWhole (snap ∷ future) = AreWhole-of_eq _ _ e h.future in
    (
      record {
        canvas = Shows-IsWhole (redo s) snap r.0 kept.0;
        past = rw r.1 (
            AreWhole-last history_limit (s.history_past ++ step_back s snap ∷ []) (
              AreWhole-snoc s.history_past (step_back s snap) h.past
                (step_back-IsWholeStep s snap h)));
        future = rw r.2 kept.1;
      },
      record {
        past = rw r.1 (length-last-le history_limit (s.history_past ++ step_back s snap ∷ []));
        future = rw r.2 (omega (arith, b.future, ap {A = List Snapshot} length e));
      },
    )

redo-IsFit : (s : BuilderState) → IsFit s → IsFit (redo s)
redo-IsFit s h = elim (Option-cases s.proposal_preview) [
  | inr (p, seen) ↦ rw (redo-seen s p seen) h
  | inl unseen ↦ redo_from_future s s.history_future unseen refl h
]

module _ (flow : ReactFlow) where
  -- One thing that the user does.
  pub data Move (s t : BuilderState) : Type 0 where
    edited : (edit : Edit) → aims edit s ≡ true → run_edit flow edit s ≡ t → Move s t
    undone : undo s ≡ t → Move s t
    redone : redo s ≡ t → Move s t

  -- What a run of them leads to.
  pub data Run (s : BuilderState) : BuilderState → Type 0 where
    started : Run s s
    next : {t u : BuilderState} → Run s t → Move t u → Run s u

  module _ (laws : IsReactFlow flow) where
    run_edit-IsFit :
        (edit : Edit) (s : BuilderState)
        → aims edit s ≡ true
        → IsFit s
        → IsFit (run_edit flow edit s)
    run_edit-IsFit edit s aimed (h, b) =
        let canvas = run_edit-IsWhole flow laws edit s aimed h.canvas in
        elim (Bool-cases (takes flow edit s)) [
          | inl taken ↦
              let r = run_edit-Recorded flow edit s taken in
              (
                IsSound-recorded s _ h r.past r.future canvas,
                record {
                  past = rw r.past (record_edit-IsBounded s);
                  future = rw r.future (omega arith);
                },
              )
          | inr kept ↦
              let same = run_edit-untaken flow edit s kept in
              (
                record { canvas = canvas; past = rw same.0 h.past; future = rw same.1 h.future },
                record { past = rw same.0 b.past; future = rw same.1 b.future },
              )
        ]

    -- Where React Flow does what is assumed of it and new links run between cards: whatever the user edits,
    -- undoes and redoes, cards and devices keep the same ids and every cable its two cards, also on every canvas that can
    -- be brought back, and neither stack grows beyond 50 steps, if all that holds at the start.
    pub Run-IsFit : {s t : BuilderState} → Run s t → IsFit s → IsFit t
    Run-IsFit started h = h
    Run-IsFit (next run (edited edit aimed e)) h =
        IsFit-of_eq _ _ e (run_edit-IsFit edit _ aimed (Run-IsFit run h))
    Run-IsFit (next run (undone e)) h = IsFit-of_eq _ _ e (undo-IsFit _ (Run-IsFit run h))
    Run-IsFit (next run (redone e)) h = IsFit-of_eq _ _ e (redo-IsFit _ (Run-IsFit run h))
