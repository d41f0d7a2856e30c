-- ===== src/Store/Saving/Keeps.antt =====
-- builder-store.ts: the canvas, as it was drawn, when the answer to a save arrives.
use homelab_builder.Store.Saving.Given.{
  drawn_card, drawn_device, drawn_card-ips, drawn_device-ips, card-id, device-id,
}
use homelab_builder.Store.Validation.{ValidationReport}
use homelab_builder.Store.Loading.{Build, load_build}
use homelab_builder.Store.Signature.{Signature}
use homelab_builder.Store.Payload.{BuildData}
use homelab_builder.Store.History.Laws.{with_stacks, pop-recorded, undo-restore_step, Shows}
use homelab_builder.Types.{HardwareNode, HardwareSpec}
use homelab_builder.Store.State.{Node, BuilderState}
use homelab_builder.Store.Saving.{
  no_answer, save_failure, fetching, api_error, left, is_ours, still_open, from_server, Saver,
  with_server_values, saved_as, build_conflict, SentSave, threw, save_answered, latest_arrived,
  finish_save, fail_save, adopt_latest, Answer, conflict_step, SaveOutcome, Calculated,
  device_with_ips, card_with_ips,
}
use homelab_builder.Store.History.{
  step_back, history_limit, last, canvas_of, undo, restore_meta, with_step, restore_step,
}
use homelab_builder.Base.{
  ap, ◌∙◌, ◌==◌, not, ◌&&◌, take, Bool-cases, ℕ, inr, inl, ◌⊎◌, ◌∷◌, refl, [], some, none, map,
  Bool, ◌≡◌, String, Option, List, string_eq, nat_eq, int_eq,
}

-- The canvas of a state and its stacks, but for what an answer gives for each device.
pub record KeepsCanvas (given : String → Option Calculated) (s t : BuilderState) : Type 0 where
  pub nodes :
      map (λ n. drawn_card (given n.id) n) t.nodes ≡ map (λ n. drawn_card (given n.id) n) s.nodes
  pub hardware_nodes :
      map (λ hn. drawn_device (given hn.id) hn) t.hardware_nodes
      ≡ map (λ hn. drawn_device (given hn.id) hn) s.hardware_nodes
  pub edges : t.edges ≡ s.edges
  pub past : t.history_past ≡ s.history_past
  pub future : t.history_future ≡ s.history_future

-- One Undo brings back the canvas, the kind and the plan exactly.
pub record IsOneUndoFrom (s t : BuilderState) : Type 0 where
  pub canvas : Shows (undo t) (canvas_of s)
  pub build_kind : (undo t).build_kind ≡ s.build_kind
  pub gaming_plan : (undo t).gaming_plan ≡ s.gaming_plan

keeps_same :
    (given : String → Option Calculated) (s t : BuilderState)
    → t.nodes ≡ s.nodes
    → t.hardware_nodes ≡ s.hardware_nodes
    → t.edges ≡ s.edges
    → t.history_past ≡ s.history_past
    → t.history_future ≡ s.history_future
    → KeepsCanvas given s t
keeps_same given s t nodes devices edges past future = record {
  nodes = rw (nodes) refl;
  hardware_nodes = rw (devices) refl;
  edges = edges;
  past = past;
  future = future;
}

restored :
    (s u t : BuilderState)
    → t ≡ restore_step u (conflict_step s)
    → Shows t (canvas_of s) × (t.build_kind ≡ s.build_kind) × (t.gaming_plan ≡ s.gaming_plan)
unfolding restore_step restore_meta
restored s u t e = rw e (record { nodes = refl; edges = refl; hardware_nodes = refl }, refl, refl)

undo-adopted :
    (s u : BuilderState)
    → u.proposal_preview ≡ none
    → IsOneUndoFrom s (with_step u s.history_past (conflict_step s))
unfolding with_step
undo-adopted s u unseen =
    let mine = conflict_step s in
    let t : BuilderState = with_step u s.history_past mine in
    let past = last 49 s.history_past in
    let undone = undo-restore_step t mine past unseen (pop-recorded s.history_past mine) in
    let back =
      restored s (with_stacks t past (take history_limit (step_back t mine ∷ t.history_future)))
        (undo t) undone in
    record { canvas = back.0; build_kind = back.1; gaming_plan = back.2 }

map_same {ℓ} :
    {A : Type ℓ} (f : A → A) (g : A → A) (xs : List A)
    → ((a : A) → f (g a) ≡ f a)
    → map f (map g xs) ≡ map f xs
map_same f g [] h = refl
map_same f g (x ∷ xs) h = rw (h x, map_same f g xs h) refl

-- How an answer leaves a state: with the canvas as it was, or one Undo away.
abbrev pub KeepsWork :
    (String → Option Calculated) → BuilderState → SaveOutcome → BuilderState → Type 0
KeepsWork given s outcome t =
    KeepsCanvas given s t ⊎ ((outcome ≡ threw build_conflict) × IsOneUndoFrom s t)

module _ (parse_json : String → Option HardwareSpec) (fingerprint : BuildData → String)
    (locale_before : String → String → Bool) (stringify : Signature → String) where
  -- What an answer gives for each device.
  abbrev pub answer_gives : Answer → String → Option Calculated
  answer_gives (saved_as build validation) id =
      from_server parse_json fingerprint locale_before stringify build id
  answer_gives _ id = none

  with_server_values-nodes :
      (given : String → Option Calculated) (nodes : List Node)
      → map (λ n. drawn_card (given n.id) n) (map (λ n. card_with_ips (given n.id) n) nodes)
        ≡ map (λ n. drawn_card (given n.id) n) nodes
  with_server_values-nodes given nodes =
      map_same (λ n. drawn_card (given n.id) n) (λ n. card_with_ips (given n.id) n) nodes
        (λ n.
          ap (λ id. drawn_card (given id) (card_with_ips (given n.id) n)) (card-id (given n.id) n)
          ∙ drawn_card-ips (given n.id) n)

  with_server_values-devices :
      (given : String → Option Calculated) (devices : List HardwareNode)
      → map (λ n. drawn_device (given n.id) n) (map (λ n. device_with_ips (given n.id) n) devices)
        ≡ map (λ n. drawn_device (given n.id) n) devices
  with_server_values-devices given devices =
      map_same (λ n. drawn_device (given n.id) n) (λ n. device_with_ips (given n.id) n) devices
        (λ n.
          ap (λ id. drawn_device (given id) (device_with_ips (given n.id) n))
            (device-id (given n.id) n)
          ∙ drawn_device-ips (given n.id) n)

  finish_save-keeps :
      (sent : SentSave) (build : Build) (validation : Option ValidationReport) (now : ℕ)
      (s : BuilderState)
      → KeepsCanvas
          (from_server parse_json fingerprint locale_before stringify build)
          s
          (finish_save parse_json fingerprint locale_before stringify sent build validation now s)
  unfolding finish_save with_server_values
  finish_save-keeps sent build none now s = record {
    nodes =
        with_server_values-nodes (from_server parse_json fingerprint locale_before stringify build)
          s.nodes;
    hardware_nodes =
        with_server_values-devices
          (from_server parse_json fingerprint locale_before stringify build) s.hardware_nodes;
    edges = refl;
    past = refl;
    future = refl;
  }
  finish_save-keeps sent build (some report) now s = record {
    nodes =
        with_server_values-nodes (from_server parse_json fingerprint locale_before stringify build)
          s.nodes;
    hardware_nodes =
        with_server_values-devices
          (from_server parse_json fingerprint locale_before stringify build) s.hardware_nodes;
    edges = refl;
    past = refl;
    future = refl;
  }

  KeepsWork-same :
      (given : String → Option Calculated) (s : BuilderState) (outcome : SaveOutcome)
      → KeepsWork given s outcome s
  KeepsWork-same given s outcome = inl (keeps_same given s s refl refl refl refl refl)

  fail_save-keeps :
      (sent : SentSave) (reply : Answer) (s : Saver)
      → KeepsWork
          (λ _. none)
          s.builder
          (fail_save sent reply s).0
          (fail_save sent reply s).1.builder
  unfolding fail_save
  fail_save-keeps sent reply s =
      inl (
        keeps_same (λ _. none) s.builder (fail_save sent reply s).1.builder refl refl refl refl
          refl)

  adopt_latest-undo :
      (latest : Build) (s : BuilderState)
      → IsOneUndoFrom s (adopt_latest parse_json fingerprint locale_before stringify latest s)
  unfolding adopt_latest load_build
  adopt_latest-undo latest s =
      undo-adopted s (load_build parse_json fingerprint s latest.id latest.name latest) refl

  latest_arrived-keeps :
      (sent : SentSave) (retried : Bool) (reply : Answer) (latest : Option Build) (s : Saver)
      → let r =
          latest_arrived parse_json fingerprint locale_before stringify sent retried reply latest
            s in
        KeepsWork (λ _. none) s.builder r.0 r.1.builder
  unfolding latest_arrived
  latest_arrived-keeps sent retried reply none s = fail_save-keeps sent reply s
  latest_arrived-keeps sent retried reply (some latest) s =
      elim (Bool-cases (still_open s.builder sent.build_id)) [
        | inl e ↦
            elim (Bool-cases (
              is_ours parse_json fingerprint locale_before stringify sent latest s.unconfirmed_save
              && not retried)) [
                | inl f ↦
                    rw (e, f)
                      (inl (
                        keeps_same (λ _. none) s.builder
                          (record (s.builder) { current_revision = latest.revision }) refl refl refl
                          refl refl))
                | inr f ↦ rw (e, f) (inr (refl, adopt_latest-undo latest s.builder))
              ]
        | inr e ↦ rw (e) (fail_save-keeps sent reply s)
      ]

  -- Whatever the answer to a save is and whatever was drawn meanwhile, the canvas that is there
  -- when it comes and both stacks stay, but that the answer to a save that was done may give
  -- addresses of devices and guests, and details: a detail whose key is not derived stays unless the
  -- answer gives it, and a guest's address too. Or the answer is a conflict, and one Undo brings back
  -- the canvas, its kind and its plan exactly.
  pub save_answered-KeepsWork :
      (sent : SentSave) (retried : Bool) (now : ℕ) (reply : Answer) (s : Saver)
      → let r =
          save_answered parse_json fingerprint locale_before stringify sent retried now reply s in
        KeepsWork (answer_gives reply) s.builder r.0 r.1.builder
  unfolding save_answered
  save_answered-KeepsWork sent retried now (saved_as build validation) s =
      elim (Bool-cases (still_open s.builder sent.build_id)) [
        | inl e ↦ rw (e) (inl (finish_save-keeps sent build validation now s.builder))
        | inr e ↦ rw (e) (KeepsWork-same (answer_gives (saved_as build validation)) s.builder left)
      ]
  save_answered-KeepsWork sent retried now (api_error status message none) s =
      let reply = api_error status message none in
      elim (Bool-cases (still_open s.builder sent.build_id)) [
        | inl e ↦ elim (Bool-cases (status == 409)) [
          | inl f ↦ rw (e, f) (KeepsWork-same (λ _. none) s.builder fetching)
          | inr f ↦ rw (e, f) (fail_save-keeps sent reply s)
        ]
        | inr e ↦ rw (e) (KeepsWork-same (λ _. none) s.builder (threw (save_failure reply)))
      ]
  save_answered-KeepsWork sent retried now (api_error status message (some latest)) s =
      let reply = api_error status message (some latest) in
      elim (Bool-cases (still_open s.builder sent.build_id)) [
        | inl e ↦ elim (Bool-cases (status == 409)) [
          | inl f ↦ rw (e, f) (latest_arrived-keeps sent retried reply (some latest) s)
          | inr f ↦ rw (e, f) (fail_save-keeps sent reply s)
        ]
        | inr e ↦ rw (e) (KeepsWork-same (λ _. none) s.builder (threw (save_failure reply)))
      ]
  save_answered-KeepsWork sent retried now no_answer s =
      elim (Bool-cases (still_open s.builder sent.build_id)) [
        | inl e ↦ rw (e) (fail_save-keeps sent no_answer s)
        | inr e ↦ rw (e) (KeepsWork-same (λ _. none) s.builder (threw (save_failure no_answer)))
      ]
