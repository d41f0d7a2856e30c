-- ===== src/Store/History/Laws.antt =====
-- The undo stack: what the last step is, and that Undo and Redo are inverse.
use homelab_builder.Base.{
  ℕ, zero, suc, ◌+◌, ◌-◌, ◌≤◌, ◌≡◌, refl, ap, ◌∙◌, inl, inr, Option, none, some, List, [], ◌∷◌,
  ◌++◌, arith, nat_eq, string_eq, Option-cases, length, take, drop, length-append, int_eq,
}
use homelab_builder.Store.State.{BuilderState, Snapshot, SnapshotMeta}
use homelab_builder.Store.History.{
  history_limit, last, canvas_of, record_edit, pop, undo, redo, restore_step, restore_meta,
  step_back,
}

module _ {A : Type 0} where
  drop-append_le : (n : ℕ) (xs ys : List A) → n ≤ length xs → drop n (xs ++ ys) ≡ drop n xs ++ ys
  drop-append_le zero xs ys h = refl
  drop-append_le (suc n) [] ys h = absurd (omega arith)
  drop-append_le (suc n) (x ∷ xs) ys h = drop-append_le n xs ys (omega arith)

  -- The last n + 1 of a list with one more element are its last n, and that element.
  pub last-snoc : (n : ℕ) (xs : List A) (x : A) → last (n + 1) (xs ++ x ∷ []) ≡ last n xs ++ x ∷ []
  last-snoc n xs x =
      let e : length (xs ++ x ∷ []) - (n + 1) ≡ length xs - n =
        omega (arith, length-append xs (x ∷ [])) in
      rw e (drop-append_le (length xs - n) xs (x ∷ []) (omega arith))

  length-drop : (n : ℕ) (xs : List A) → length (drop n xs) ≡ length xs - n
  length-drop zero xs = omega arith
  length-drop (suc n) [] = omega arith
  length-drop (suc n) (x ∷ xs) = omega (arith, length-drop n xs)

  pub length-last-le : (n : ℕ) (xs : List A) → length (last n xs) ≤ n
  length-last-le n xs = omega (arith, length-drop (length xs - n) xs)

  pub last_of_length-le : (n : ℕ) (xs : List A) → length xs ≤ n → last n xs ≡ xs
  last_of_length-le n xs h = let e : length xs - n ≡ 0 = omega arith in rw e

  pub length-take-le : (n : ℕ) (xs : List A) → length (take n xs) ≤ n
  length-take-le zero xs = omega arith
  length-take-le (suc n) [] = omega arith
  length-take-le (suc n) (x ∷ xs) = omega (arith, length-take-le n xs)

  pub take_of_length-le : (n : ℕ) (xs : List A) → length xs ≤ n → take n xs ≡ xs
  take_of_length-le (suc n) (first ∷ rest) h = rw (take_of_length-le n rest (omega arith))
  take_of_length-le zero (first ∷ rest) h = absurd (omega arith)
  take_of_length-le zero [] h = refl
  take_of_length-le (suc n) [] h = refl

pub pop-snoc :
    (steps : List Snapshot) (step : Snapshot) → pop (steps ++ step ∷ []) ≡ some (step, steps)
unfolding pop
pop-snoc [] step = refl
pop-snoc (a ∷ []) step = refl
pop-snoc (a ∷ b ∷ steps) step = rw (pop-snoc (b ∷ steps) step)

-- The inverse: what was popped is the end of the stack.
pub pop-eq-some :
    (steps rest : List Snapshot) (step : Snapshot)
    → pop steps ≡ some (step, rest)
    → steps ≡ rest ++ step ∷ []
unfolding pop
pop-eq-some [] rest step h = cc
pop-eq-some (a ∷ []) rest step h = ground arith
pop-eq-some (a ∷ b ∷ steps) rest step h = elim (Option-cases (pop (b ∷ steps))) [
  | inl stuck ↦ absurd (ground arith)
  | inr ((top, below), at) ↦
      let same : step ≡ top = ground arith in
      let split : rest ≡ a ∷ below = ground arith in
      rw (split, same) (ap (◌∷◌ a) (pop-eq-some (b ∷ steps) below top at))
]

pub pop-recorded :
    (past : List Snapshot) (step : Snapshot)
    → pop (last history_limit (past ++ step ∷ [])) ≡ some (step, last 49 past)
pop-recorded past step = rw (last-snoc 49 past step) (pop-snoc (last 49 past) step)

-- The canvas of one state is that of a snapshot.
pub record Shows (s : BuilderState) (snap : Snapshot) : Type 0 where
  pub nodes : s.nodes ≡ snap.nodes
  pub edges : s.edges ≡ snap.edges
  pub hardware_nodes : s.hardware_nodes ≡ snap.hardware_nodes

restore_meta-Shows :
    (s : BuilderState) (meta : Option SnapshotMeta) (snap : Snapshot)
    → Shows s snap
    → Shows (restore_meta s meta) snap
unfolding restore_meta
restore_meta-Shows s none snap h = h
restore_meta-Shows s (some meta) snap h = record {
  nodes = h.nodes;
  edges = h.edges;
  hardware_nodes = h.hardware_nodes;
}

pub restore_step-Shows : (s : BuilderState) (snap : Snapshot) → Shows (restore_step s snap) snap
unfolding restore_step
restore_step-Shows s snap =
    restore_meta-Shows _ snap.meta snap
      (record { nodes = refl; edges = refl; hardware_nodes = refl })

pub restore_meta-history :
    (s : BuilderState) (meta : Option SnapshotMeta)
    → ((restore_meta s meta).history_past ≡ s.history_past)
      × ((restore_meta s meta).history_future ≡ s.history_future)
      × ((restore_meta s meta).proposal_preview ≡ s.proposal_preview)
unfolding restore_meta
restore_meta-history s none = (refl, refl, refl)
restore_meta-history s (some meta) = (refl, refl, refl)

pub restore_step-history :
    (s : BuilderState) (snap : Snapshot)
    → ((restore_step s snap).history_past ≡ s.history_past)
      × ((restore_step s snap).history_future ≡ s.history_future)
      × ((restore_step s snap).proposal_preview ≡ s.proposal_preview)
unfolding restore_step
restore_step-history s snap = restore_meta-history _ snap.meta

-- The state before a step is restored.
abbrev pub with_stacks : BuilderState → List Snapshot → List Snapshot → BuilderState
with_stacks t past future = record t { history_past = past; history_future = future }

pub undo-restore_step :
    (t : BuilderState) (snap : Snapshot) (past : List Snapshot)
    → t.proposal_preview ≡ none
    → pop t.history_past ≡ some (snap, past)
    → undo t
      ≡ restore_step
          (with_stacks t past (take history_limit (step_back t snap ∷ t.history_future)))
          snap
unfolding undo
undo-restore_step t snap past unseen top = simp (unseen, top)

pub redo-restore_step :
    (t : BuilderState) (snap : Snapshot) (future : List Snapshot)
    → t.proposal_preview ≡ none
    → t.history_future ≡ snap ∷ future
    → redo t
      ≡ restore_step
          (with_stacks t (last history_limit (t.history_past ++ step_back t snap ∷ [])) future)
          snap
unfolding redo
redo-restore_step t snap future unseen top = simp (unseen, top)

-- One undo, where the stack has a last step.
pub undo-step :
    (t : BuilderState) (snap : Snapshot) (past : List Snapshot)
    → t.proposal_preview ≡ none
    → pop t.history_past ≡ some (snap, past)
    → Shows (undo t) snap
      × ((undo t).history_past ≡ past)
      × ((undo t).history_future ≡ take history_limit (step_back t snap ∷ t.history_future))
      × ((undo t).proposal_preview ≡ none)
undo-step t snap past unseen top =
    let before = with_stacks t past (take history_limit (step_back t snap ∷ t.history_future)) in
    let kept = restore_step-history before snap in
    rw (undo-restore_step t snap past unseen top)
      (restore_step-Shows before snap, kept.0, kept.1, kept.2 ∙ unseen)

-- One redo, where there is a step to redo.
pub redo-step :
    (t : BuilderState) (snap : Snapshot) (future : List Snapshot)
    → t.proposal_preview ≡ none
    → t.history_future ≡ snap ∷ future
    → Shows (redo t) snap
      × ((redo t).history_past ≡ last history_limit (t.history_past ++ step_back t snap ∷ []))
      × ((redo t).history_future ≡ future)
redo-step t snap future unseen top =
    let before =
      with_stacks t (last history_limit (t.history_past ++ step_back t snap ∷ [])) future in
    let kept = restore_step-history before snap in
    rw (redo-restore_step t snap future unseen top) (restore_step-Shows before snap, kept.0, kept.1)

-- Undo right after a recorded edit brings back the canvas from before it, exactly.
pub undo-recorded :
    (s t : BuilderState)
    → t.history_past ≡ (record_edit s).history_past
    → t.proposal_preview ≡ none
    → Shows (undo t) (canvas_of s) × ((undo t).history_past ≡ last 49 s.history_past)
unfolding record_edit
undo-recorded s t recorded unseen =
    let step =
      undo-step t (canvas_of s) (last 49 s.history_past) unseen
        (rw recorded (pop-recorded s.history_past (canvas_of s))) in
    (step.0, step.1)
