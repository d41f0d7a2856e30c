-- ===== src/Store/Saving/Tests.antt =====
-- builder-store.ts: saves that are answered, refused or lost, of a project with one router.
use homelab_builder.Store.Signature.Order.{text_le-IsPreorder}
use homelab_builder.Store.Saving.Stored.{no_edges, no_nodes, one_node, IsStoredNode, IsStored}
use homelab_builder.Store.Saving.Lost.{lost_save-recognised, lost_save}
use homelab_builder.Store.Saving.Fit.{finish_save-told, save_answered-IsFit}
use homelab_builder.Types.{no_details, HardwareSpec}
use homelab_builder.Store.Samples.{machine, empty}
use homelab_builder.Hardware.{router}
use homelab_builder.Store.State.{unsaved, saved, whole_device, hardware_card, Node, BuilderState}
use homelab_builder.Store.Sound.Runs.{IsFit}
use homelab_builder.Store.Signature.{
  stored_node_signature, sent_node_signature, stored_signature, sent_signature, text_le, Signature,
}
use homelab_builder.Store.Saving.Keeps.{save_answered-KeepsWork, answer_gives, KeepsWork}
use homelab_builder.Store.Saving.{
  build_conflict, threw, no_answer, merge_server_details, sent_again, device_with_ips, is_ours,
  from_server, with_server_values, fail_save, Saver, SaveOutcome, sent_save, latest_arrived,
  finish_save, api_error, UnconfirmedSave, saved_as, save_answered, SentSave, Answer,
}
use homelab_builder.Store.Payload.{device_by_id, saved_node, get_build_data, BuildData}
use homelab_builder.Store.Loading.{parse_details, has_unsaved_changes, missing, BuildNode, Build}
use homelab_builder.Base.{
  rounded, exchanged, sort, ◌≢◌, nothing, ◌≡◌, refl, pos, false, concat, [], ◌∷◌, some, none, map,
  arith, String, Option, List, string_eq, nat_eq, int_eq,
}

abbrev router_card : Node
router_card = record {
  id = "r";
  kind = hardware_card;
  position = record { x = pos 1000; y = pos 2400 };
  card = record { label = "r"; device = whole_device (machine "r" router) };
  parent_id = none;
  inside_parent = false;
  style = none;
  z_index = none;
  measured = none;
  width = none;
  height = none;
  selected = false;
}

abbrev drawn : BuilderState
drawn = record empty { nodes = router_card ∷ []; hardware_nodes = machine "r" router ∷ [] }

-- The server's copy, with an address that it calculated.
abbrev stored_router : BuildNode
stored_router = record {
  id = "r";
  type = router;
  name = "r";
  ip = some "10.0.0.1";
  mac_address = none;
  power_draw = none;
  x = some (pos 1000);
  y = some (pos 2400);
  virtual_machines = none;
  internal_components = some [];
  details = missing;
  parent_id = none;
}

abbrev copy : Build
copy = record {
  id = "b1";
  name = "Home";
  revision = 2;
  nodes = some (stored_router ∷ []);
  edges = none;
  settings = none;
  kind = none;
  gaming_plan = none;
}

-- A build that somebody else emptied.
abbrev foreign : Build
foreign = record copy { nodes = none }

abbrev unread : String → Option HardwareSpec
unread json = none

-- The parameters: what is sent shows in the text by its ids.
abbrev ids_text : List String → String
ids_text [] = ""
ids_text (id ∷ ids) = concat id (concat "," (ids_text ids))

abbrev fingerprint : BuildData → String
fingerprint payload = ids_text (map (λ n. concat n.id n.ip) payload.nodes)

abbrev by_text : Signature → String
by_text signature = ids_text (map (λ n. n.id) signature.nodes)

abbrev first : SentSave
first = sent_save unread fingerprint text_le by_text drawn

abbrev beside : Option UnconfirmedSave → Saver
beside unconfirmed = record { builder = drawn; unconfirmed_save = unconfirmed }

abbrev reply : Answer → Option UnconfirmedSave → SaveOutcome × Saver
reply a unconfirmed =
    save_answered unread fingerprint text_le by_text first false 5 a (beside unconfirmed)

lost_then_refused :
    (reply (api_error 409 "" (some copy)) (reply no_answer none).1.unconfirmed_save).0 ≡ sent_again
unfolding save_answered latest_arrived fail_save is_ours sent_signature stored_signature
    get_build_data saved_node sort sent_node_signature stored_node_signature rounded device_by_id
lost_then_refused = refl

refused_by_another :
    (reply (api_error 409 "" (some foreign)) (reply no_answer none).1.unconfirmed_save).0
    ≡ threw build_conflict
unfolding save_answered latest_arrived fail_save is_ours sent_signature stored_signature
    get_build_data saved_node sort sent_node_signature stored_node_signature rounded device_by_id
refused_by_another = refl

address_taken_over :
    (reply (saved_as copy none) none).1.builder.hardware_nodes
    ≡ record (machine "r" router) { ip = some "10.0.0.1"; details = some no_details } ∷ []
unfolding save_answered finish_save with_server_values from_server device_with_ips
    merge_server_details parse_details
address_taken_over = refl

-- A project with two routers, which the server lists the other way round.
abbrev second_card : Node
second_card = record router_card {
  id = "s";
  card = record { label = "s"; device = whole_device (machine "s" router) };
}

abbrev drawn_two : BuilderState
drawn_two = record drawn {
  nodes = router_card ∷ second_card ∷ [];
  hardware_nodes = machine "r" router ∷ machine "s" router ∷ [];
}

abbrev stored_second : BuildNode
stored_second = record stored_router { id = "s"; name = "s" }

abbrev copy_two : Build
copy_two = record copy { nodes = some (stored_second ∷ stored_router ∷ []) }

abbrev sent_two : SentSave
sent_two = sent_save unread fingerprint text_le by_text drawn_two

abbrev beside_two : Option UnconfirmedSave → Saver
beside_two unconfirmed = record { builder = drawn_two; unconfirmed_save = unconfirmed }

IsStored-copy_two : IsStored text_le sent_two.payload copy_two
unfolding get_build_data saved_node device_by_id whole_device
IsStored-copy_two = record {
  kind = refl;
  nodes_as_sent = stored_router ∷ stored_second ∷ [];
  nodes = one_node same_router (one_node same_second no_nodes);
  nodes_order = exchanged stored_router stored_second refl;
  edges_as_sent = [];
  edges = no_edges;
  edges_order = nothing;
}
  where
    same_router : IsStoredNode (saved_node (some (machine "r" router)) router_card) stored_router
    same_router = record {
      id = refl;
      type = refl;
      name = refl;
      x = refl;
      y = refl;
      parent = refl;
      guests = nothing;
      parts = nothing;
    }

    same_second : IsStoredNode (saved_node (some (machine "s" router)) second_card) stored_second
    same_second = record {
      id = refl;
      type = refl;
      name = refl;
      x = refl;
      y = refl;
      parent = refl;
      guests = nothing;
      parts = nothing;
    }

lost_save-recognised_example :
    save_answered unread fingerprint text_le by_text sent_two false 9
      (api_error 409 "stale" (some copy_two))
      (beside_two (lost_save unread fingerprint text_le by_text sent_two 5 (beside_two none)))
    ≡ (
      sent_again,
      record { builder = record drawn_two { current_revision = 2 }; unconfirmed_save = none },
    )
lost_save-recognised_example =
    lost_save-recognised unread fingerprint text_le by_text drawn_two (beside_two none)
      (beside_two (lost_save unread fingerprint text_le by_text sent_two 5 (beside_two none)))
      sent_two 5 9 "stale" copy_two refl refl refl refl text_le-IsPreorder IsStored-copy_two refl

save_answered-KeepsWork_example :
    KeepsWork
      (answer_gives unread fingerprint text_le by_text (saved_as copy none))
      drawn
      (reply (saved_as copy none) none).0
      (reply (saved_as copy none) none).1.builder
save_answered-KeepsWork_example =
    save_answered-KeepsWork unread fingerprint text_le by_text first false 5 (saved_as copy none)
      (beside none)

drawn-IsFit : IsFit drawn
drawn-IsFit = (
  record { canvas = record { same = λ id. refl; joined = refl }; past = tt; future = tt },
  record { past = omega arith; future = omega arith },
)

save_answered-IsFit_example : IsFit (reply (api_error 409 "" (some foreign)) none).1.builder
save_answered-IsFit_example =
    save_answered-IsFit unread fingerprint text_le by_text first false 5
      (api_error 409 "" (some foreign)) (beside none) refl drawn-IsFit

finish_save-told_example :
    let t = (reply (saved_as copy none) none).1.builder in
    (fingerprint (get_build_data drawn) ≡ fingerprint (get_build_data drawn)
      → (t.save_state ≡ saved) × (has_unsaved_changes unread fingerprint t ≡ false))
    × (fingerprint (get_build_data drawn) ≢ fingerprint (get_build_data drawn)
        → (t.save_state ≡ unsaved) × (t.last_synced_fingerprint ≡ drawn.last_synced_fingerprint))
finish_save-told_example =
    finish_save-told unread fingerprint text_le by_text drawn false 5 copy none (beside none) refl
