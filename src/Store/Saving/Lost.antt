-- ===== src/Store/Saving/Lost.antt =====
-- builder-store.ts: a save whose answer was lost is known again by what the server holds.
use homelab_builder.Store.Saving.Stored.{
  AnyTwo, TwoApart, IsStored, text_sort, nodes-stored, edges-stored,
}
use homelab_builder.Store.State.{BuilderState}
use homelab_builder.Store.Saving.{
  sent_again, api_error, still_open, sent_save, no_answer, latest_arrived, fail_save,
  UnconfirmedSave, Saver, save_answered, is_ours, SentSave,
}
use homelab_builder.Store.Loading.{Build, BuildNode}
use homelab_builder.Types.{HardwareSpec}
use homelab_builder.Store.Signature.{
  stored_signature, NodeSignature, sent_signature, Signature, stored_node_signature,
  stored_edge_mark,
}
use homelab_builder.Store.Payload.{BuildData}
use homelab_builder.Base.{
  none, ◌+◌, Reordered-map, arith, ==_self, true, refl, Reordered-sort, IsPreorder, ◌==◌, some,
  false, ◌≡◌, sort, ◌&&◌, ℕ, map, Reordered, Option, String, List, Bool, string_eq, nat_eq, int_eq,
}

all_same :
    (id : String) (m n : ℕ) (signature : String)
    → m ≡ n
    → (id == id && m == n && signature == signature) ≡ true
all_same id m n signature e =
    rw (e) (rw (==_self {A = String} id, ==_self {A = String} signature, ==_self {A = ℕ} n) refl)

not_apart : (a b : Bool) → (a && b) ≡ false → a ≡ true → b ≡ true → ⊥
not_apart a b h k l = ground arith

module _ (parse_json : String → Option HardwareSpec) (fingerprint : BuildData → String)
    (locale_before : String → String → Bool) (stringify : Signature → String) where
  stored_apart :
      (a b : BuildNode)
      → TwoApart locale_before a b
      → (locale_before (stored_node_signature a).id (stored_node_signature b).id
          && locale_before (stored_node_signature b).id (stored_node_signature a).id)
        ≡ false
  unfolding stored_node_signature
  stored_apart a b h = h

  nodes-sorted :
      {mid stored : List BuildNode}
      → IsPreorder locale_before
      → Reordered (TwoApart locale_before) mid stored
      → sort {A = NodeSignature} (λ a b. locale_before a.id b.id) (map stored_node_signature mid)
        ≡ sort {A = NodeSignature}
            (λ a b. locale_before a.id b.id)
            (map stored_node_signature stored)
  nodes-sorted order r =
      Reordered-sort (λ (a b : NodeSignature). locale_before a.id b.id)
        (record {
          total = λ a b. order.total a.id b.id;
          trans = λ a b c. order.trans a.id b.id c.id;
        })
        (λ a b apart h k. absurd (not_apart (locale_before a.id b.id) _ apart h k))
        (Reordered-map {Could = λ a b. (locale_before a.id b.id && locale_before b.id a.id) ≡ false}
          stored_node_signature stored_apart r)

  -- What was sent and what the server holds of it have one signature.
  pub signature-stored :
      (payload : BuildData) (build : Build)
      → IsPreorder locale_before
      → IsStored locale_before payload build
      → stored_signature locale_before stringify build
        ≡ sent_signature locale_before stringify payload
  unfolding sent_signature stored_signature
  signature-stored payload build order h =
      rw
        (
          h.kind,
          nodes-stored payload.nodes h.nodes_as_sent h.nodes,
          edges-stored payload.edges h.edges_as_sent h.edges,
          nodes-sorted order h.nodes_order,
          text_sort (Reordered-map {Could = AnyTwo} stored_edge_mark (λ a b c. c) h.edges_order),
        )
        refl

  -- What is remembered of a save whose answer was lost.
  abbrev pub lost_save : SentSave → ℕ → Saver → Option UnconfirmedSave
  lost_save sent now s =
      (save_answered parse_json fingerprint locale_before stringify sent false now no_answer
        s).1.unconfirmed_save

  lost_save-kept :
      (sent : SentSave) (now : ℕ) (s : Saver)
      → still_open s.builder sent.build_id ≡ true
      → lost_save sent now s
        ≡ some (record {
          build_id = sent.build_id;
          revision = sent.revision;
          signature = sent.signature;
        })
  unfolding save_answered fail_save
  lost_save-kept sent now s open_now = ground arith

  is_ours-stored :
      (lost : UnconfirmedSave) (next : SentSave) (latest : Build)
      → next.build_id ≡ lost.build_id
      → latest.revision ≡ lost.revision + 1
      → stored_signature locale_before stringify latest ≡ lost.signature
      → is_ours parse_json fingerprint locale_before stringify next latest (some lost) ≡ true
  unfolding is_ours
  is_ours-stored lost next latest same revision signature =
      rw (signature, same)
        (all_same (lost.build_id) latest.revision (lost.revision + 1) lost.signature revision)

  sent_again-ours :
      (next : SentSave) (later : ℕ) (message : String) (latest : Build) (s : Saver)
      → still_open s.builder next.build_id ≡ true
      → is_ours parse_json fingerprint locale_before stringify next latest s.unconfirmed_save ≡ true
      → save_answered parse_json fingerprint locale_before stringify next false later
          (api_error 409 message (some latest))
          s
        ≡ (
          sent_again,
          record {
            builder = record (s.builder) { current_revision = latest.revision };
            unconfirmed_save = none;
          },
        )
  unfolding save_answered latest_arrived
  sent_again-ours next later message latest s open_then ours = rw (open_then, ours) refl

  -- If a save got no answer, and the next save of the build, which is still open, is refused
  -- as stale for the first time while the server holds at the next revision what the first one
  -- sent, in whatever order of its nodes, edges, guests and parts, where localeCompare orders texts
  -- and tells the ids of nodes that changed places apart, then the save is sent again from that revision, and nothing else changes on the
  -- canvas as it is then.
  pub lost_save-recognised :
      (before : BuilderState) (during after : Saver) (next : SentSave) (now later : ℕ)
      (message : String) (latest : Build)
      → let lost = sent_save parse_json fingerprint locale_before stringify before in
        still_open during.builder lost.build_id ≡ true
        → still_open after.builder lost.build_id ≡ true
        → next.build_id ≡ lost.build_id
        → latest.revision ≡ lost.revision + 1
        → IsPreorder locale_before
        → IsStored locale_before lost.payload latest
        → after.unconfirmed_save ≡ lost_save lost now during
        → save_answered parse_json fingerprint locale_before stringify next false later
            (api_error 409 message (some latest))
            after
          ≡ (
            sent_again,
            record {
              builder = record (after.builder) { current_revision = latest.revision };
              unconfirmed_save = none;
            },
          )
  lost_save-recognised before during after next now later message latest h k same revision order
        stored kept =
      let lost = sent_save parse_json fingerprint locale_before stringify before in
      let mark : UnconfirmedSave = record {
        build_id = lost.build_id;
        revision = lost.revision;
        signature = lost.signature;
      } in
      sent_again-ours next later message latest after (rw (same) k) (
        rw (kept, lost_save-kept lost now during h)
          (is_ours-stored mark next latest same revision
            (signature-stored lost.payload latest order stored)))
