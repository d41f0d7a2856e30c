-- ===== src/Store/Saving/Fit.antt =====
-- builder-store.ts: what an answer to a save leaves: a fit state, and what the user is told of it.
use homelab_builder.Store.State.{SaveState}
use homelab_builder.Store.History.Laws.{length-last-le}
use homelab_builder.Store.Validation.{ValidationReport}
use homelab_builder.Store.Signature.{Signature}
use homelab_builder.Store.Loading.Loaded.{load_build-IsFit, IsJoined}
use homelab_builder.Store.Payload.{get_build_data, BuildData}
use homelab_builder.Types.{HardwareNode, HardwareSpec}
use homelab_builder.Store.Sound.Runs.{IsFit}
use homelab_builder.Store.Loading.{is_open, load_build, has_unsaved_changes, Build}
use homelab_builder.Store.Canvas.{AreWhole-snoc, device_ids, AreWhole-last, node_ids}
use homelab_builder.Store.State.{saved, unsaved, Node, BuilderState}
use homelab_builder.Store.Saving.{
  sent_save, no_answer, is_ours, still_open, saved_as, from_server, Saver, with_server_values,
  adopt_latest, SentSave, save_answered, latest_arrived, finish_save, fail_save, conflict_step,
  api_error, Calculated, device_with_ips, card_with_ips, Answer,
}
use homelab_builder.Store.History.{history_limit, with_step}
use homelab_builder.Base.{
  ==_iff, ◌≢◌, ◌&&◌, inr, ==_self, true, inl, false, arith, ◌==◌, Bool-cases, ℕ, if◌then◌else◌, not,
  [], ◌++◌, ap, ◌∷◌, refl, none, map, Bool, ◌≡◌, some, List, String, Option, string_eq, nat_eq,
  int_eq,
}

IsFit-same :
    (s t : BuilderState)
    → node_ids t.nodes ≡ node_ids s.nodes
    → device_ids t.hardware_nodes ≡ device_ids s.hardware_nodes
    → t.edges ≡ s.edges
    → t.history_past ≡ s.history_past
    → t.history_future ≡ s.history_future
    → IsFit s
    → IsFit t
IsFit-same s t nodes devices edges past future h = (
  record {
    canvas = record {
      same = λ id. rw (nodes, devices) (h.0.canvas.same id);
      joined = rw (nodes, edges) h.0.canvas.joined;
    };
    past = rw (past) h.0.past;
    future = rw (future) h.0.future;
  },
  record { past = rw (past) h.1.past; future = rw (future) h.1.future },
)

card_with_ips-id : (c : Option Calculated) (n : Node) → (card_with_ips c n).id ≡ n.id
unfolding card_with_ips
card_with_ips-id none n = refl
card_with_ips-id (some entry) n = refl

device_with_ips-id : (c : Option Calculated) (n : HardwareNode) → (device_with_ips c n).id ≡ n.id
unfolding device_with_ips
device_with_ips-id none n = refl
device_with_ips-id (some entry) n = refl

ids-card_with_ips :
    (f : String → Option Calculated) (nodes : List Node)
    → node_ids (map (λ n. card_with_ips (f n.id) n) nodes) ≡ node_ids nodes
ids-card_with_ips f [] = refl
ids-card_with_ips f (n ∷ nodes) =
    rw (ids-card_with_ips f nodes) (ap (λ id. id ∷ node_ids nodes) (card_with_ips-id (f n.id) n))

ids-device_with_ips :
    (f : String → Option Calculated) (devices : List HardwareNode)
    → device_ids (map (λ n. device_with_ips (f n.id) n) devices) ≡ device_ids devices
ids-device_with_ips f [] = refl
ids-device_with_ips f (n ∷ devices) =
    rw (ids-device_with_ips f devices)
      (ap (λ id. id ∷ device_ids devices) (device_with_ips-id (f n.id) n))

adopted-IsFit :
    (s u : BuilderState) → IsFit s → IsFit u → IsFit (with_step u s.history_past (conflict_step s))
unfolding with_step
adopted-IsFit s u h loaded = (
  record {
    canvas = loaded.0.canvas;
    past =
        AreWhole-last history_limit (s.history_past ++ conflict_step s ∷ [])
          (AreWhole-snoc s.history_past (conflict_step s) h.0.past h.0.canvas);
    future = tt;
  },
  record {
    past = length-last-le history_limit (s.history_past ++ conflict_step s ∷ []);
    future = omega arith;
  },
)

-- The builds in an answer have edges that join their nodes.
abbrev pub AreJoined : Option Build → Type 0
AreJoined none = Unit
AreJoined (some build) = IsJoined build

abbrev pub IsJoinedAnswer : Answer → Type 0
IsJoinedAnswer (api_error status message latest) = AreJoined latest
IsJoinedAnswer _ = Unit

module _ (parse_json : String → Option HardwareSpec) (fingerprint : BuildData → String)
    (locale_before : String → String → Bool) (stringify : Signature → String) where
  finish_save-IsFit :
      (sent : SentSave) (build : Build) (validation : Option ValidationReport) (now : ℕ)
      (s : BuilderState)
      → IsFit s
      → IsFit
          (finish_save parse_json fingerprint locale_before stringify sent build validation now s)
  unfolding finish_save with_server_values
  finish_save-IsFit sent build none now s h =
      IsFit-same s
        (finish_save parse_json fingerprint locale_before stringify sent build none now s)
        (ids-card_with_ips (from_server parse_json fingerprint locale_before stringify build)
          s.nodes)
        (ids-device_with_ips (from_server parse_json fingerprint locale_before stringify build)
          s.hardware_nodes)
        refl refl refl h
  finish_save-IsFit sent build (some report) now s h =
      IsFit-same s
        (finish_save parse_json fingerprint locale_before stringify sent build (some report) now s)
        (ids-card_with_ips (from_server parse_json fingerprint locale_before stringify build)
          s.nodes)
        (ids-device_with_ips (from_server parse_json fingerprint locale_before stringify build)
          s.hardware_nodes)
        refl refl refl h

  fail_save-IsFit :
      (sent : SentSave) (reply : Answer) (s : Saver)
      → IsFit s.builder
      → IsFit (fail_save sent reply s).1.builder
  unfolding fail_save
  fail_save-IsFit sent reply s h =
      IsFit-same s.builder (fail_save sent reply s).1.builder refl refl refl refl refl h

  pub latest_arrived-IsFit :
      (sent : SentSave) (retried : Bool) (reply : Answer) (latest : Option Build) (s : Saver)
      → AreJoined latest
      → IsFit s.builder
      → IsFit
          (latest_arrived parse_json fingerprint locale_before stringify sent retried reply latest
            s).1.builder
  unfolding latest_arrived adopt_latest
  latest_arrived-IsFit sent retried reply none s joined h = fail_save-IsFit sent reply s h
  latest_arrived-IsFit sent retried reply (some latest) s joined h =
      elim (Bool-cases (still_open s.builder sent.build_id)) [
        | inl e ↦
            elim (Bool-cases (
              is_ours parse_json fingerprint locale_before stringify sent latest s.unconfirmed_save
              && not retried)) [
                | inl f ↦
                    rw (e, f)
                      (IsFit-same s.builder
                        (record (s.builder) { current_revision = latest.revision }) refl refl refl
                        refl refl h)
                | inr f ↦
                    rw (e, f)
                      (adopted-IsFit s.builder
                        (load_build parse_json fingerprint s.builder latest.id latest.name latest) h
                        (load_build-IsFit parse_json fingerprint s.builder latest.id latest.name
                          latest joined))
              ]
        | inr e ↦ rw (e) (fail_save-IsFit sent reply s h)
      ]

  -- Every answer to a save leaves a fit state fit, if the build that a refusal brings has
  -- edges that join its nodes.
  pub save_answered-IsFit :
      (sent : SentSave) (retried : Bool) (now : ℕ) (reply : Answer) (s : Saver)
      → IsJoinedAnswer reply
      → IsFit s.builder
      → IsFit
          (save_answered parse_json fingerprint locale_before stringify sent retried now reply
            s).1.builder
  unfolding save_answered
  save_answered-IsFit sent retried now (saved_as build validation) s joined h =
      elim (Bool-cases (still_open s.builder sent.build_id)) [
        | inl e ↦ rw (e) (finish_save-IsFit sent build validation now s.builder h)
        | inr e ↦ rw (e) h
      ]
  save_answered-IsFit sent retried now (api_error status message none) s joined h =
      elim (Bool-cases (still_open s.builder sent.build_id)) [
        | inl e ↦ elim (Bool-cases (status == 409)) [
          | inl f ↦ rw (e, f) h
          | inr f ↦ rw (e, f) (fail_save-IsFit sent (api_error status message none) s h)
        ]
        | inr e ↦ rw (e) h
      ]
  save_answered-IsFit sent retried now (api_error status message (some latest)) s joined h =
      elim (Bool-cases (still_open s.builder sent.build_id)) [
        | inl e ↦ elim (Bool-cases (status == 409)) [
          | inl f ↦
              rw (e, f)
                (latest_arrived-IsFit sent retried (api_error status message (some latest))
                  (some latest) s joined h)
          | inr f ↦ rw (e, f) (fail_save-IsFit sent (api_error status message (some latest)) s h)
        ]
        | inr e ↦ rw (e) h
      ]
  save_answered-IsFit sent retried now no_answer s joined h =
      elim (Bool-cases (still_open s.builder sent.build_id)) [
        | inl e ↦ rw (e) (fail_save-IsFit sent no_answer s h)
        | inr e ↦ rw (e) h
      ]

  -- What the state after a save that was done tells, and what it counts as synchronised.
  told_cases :
      (now_mark sent_mark merged_mark : String) (is_opened : Bool) (synced : String)
      → let edited = not (now_mark == sent_mark) in
        let state : SaveState = if edited then unsaved else saved in
        let fresh = if edited then synced else merged_mark in
        (now_mark ≡ sent_mark
          → (state ≡ saved) × ((if is_opened then not (merged_mark == fresh) else false) ≡ false))
        × (now_mark ≢ sent_mark → (state ≡ unsaved) × (fresh ≡ synced))
  told_cases now_mark sent_mark merged_mark true synced =
      ground (arith, ==_iff now_mark sent_mark, ==_self {A = String} merged_mark)
  told_cases now_mark sent_mark merged_mark false synced = ground (arith, ==_iff now_mark sent_mark)

  -- When a save of a canvas is answered and its build is still open: if the canvas would still be sent as
  -- it was, it shows as saved and has no unsaved changes, with what the answer brings; if it would be
  -- sent otherwise, it shows as unsaved and is compared with the same canvas as before.
  pub finish_save-told :
      (before : BuilderState) (retried : Bool) (now : ℕ) (build : Build)
      (validation : Option ValidationReport) (s : Saver)
      → let sent = sent_save parse_json fingerprint locale_before stringify before in
        let t =
          (save_answered parse_json fingerprint locale_before stringify sent retried now
            (saved_as build validation)
            s).1.builder in
        still_open s.builder sent.build_id ≡ true
        → (fingerprint (get_build_data s.builder) ≡ fingerprint (get_build_data before)
            → (t.save_state ≡ saved) × (has_unsaved_changes parse_json fingerprint t ≡ false))
          × (fingerprint (get_build_data s.builder) ≢ fingerprint (get_build_data before)
              → (t.save_state ≡ unsaved)
                × (t.last_synced_fingerprint ≡ s.builder.last_synced_fingerprint))
  unfolding save_answered finish_save with_server_values has_unsaved_changes get_build_data
  finish_save-told before retried now build none s open_now = rw (open_now) (
      told_cases (fingerprint (get_build_data s.builder)) (fingerprint (get_build_data before))
        (fingerprint (
          get_build_data
            (with_server_values parse_json fingerprint locale_before stringify build s.builder)))
        (is_open s.builder) s.builder.last_synced_fingerprint)
  finish_save-told before retried now build (some report) s open_now = rw (open_now) (
      told_cases (fingerprint (get_build_data s.builder)) (fingerprint (get_build_data before))
        (fingerprint (
          get_build_data
            (with_server_values parse_json fingerprint locale_before stringify build s.builder)))
        (is_open s.builder) s.builder.last_synced_fingerprint)
