-- ===== src/Store/Saving.antt =====
-- builder-store.ts: the save that the server answers later (`reassignAllIPs`). It is cut where it waits:
-- what is sent, and what each answer does to the state that is there when it comes.
pub mod Stored
pub mod Lost
pub mod Given
pub mod Keeps
pub mod Fit
mod Tests
use homelab_builder.Store.History.{with_step, canvas_of}
use homelab_builder.Store.Signature.{stored_signature, sent_signature, Signature}
use homelab_builder.Store.Payload.{text_or, get_build_data, BuildData}
use homelab_builder.Store.Validation.{validation_to_issues, ValidationReport}
use homelab_builder.Types.{
  without, spread_details, spread, no_details, get, VirtualMachine, HardwareSpec, HardwareNode,
  Dict,
}
use homelab_builder.Store.State.{Snapshot, saving, saved, unsaved, error, Node, BuilderState}
use homelab_builder.Store.Loading.{load_build, parse_details, is_open, BuildNode, Build}
use homelab_builder.Base.{
  true, ◌+◌, not, false, ◌&&◌, none, ◌==◌, or_option, or_else, map, is?, [], ◌∷◌, ℕ, some,
  if◌then◌else◌, Bool, String, Option, List, string_eq, nat_eq, int_eq,
}

-- A save whose answer never arrived.
pub record UnconfirmedSave : Type 0 where
  pub build_id : String
  pub revision : ℕ
  pub signature : String

-- The store, and the variable beside it.
pub record Saver : Type 0 where
  pub builder : BuilderState
  pub unconfirmed_save : Option UnconfirmedSave

-- What a save sends, and what it remembers of it.
pub record SentSave : Type 0 where
  pub build_id : String
  pub name : String
  pub revision : ℕ
  pub payload : BuildData
  pub fingerprint : String
  pub signature : String

-- What comes back: the saved build, an error of the server with its status, its message and the build
-- that it may hold, or nothing.
pub data Answer : Type 0 where
  saved_as : Build → Option ValidationReport → Answer
  api_error : ℕ → String → Option Build → Answer
  no_answer : Answer

pub data SaveError : Type 0 where
  no_open_build build_conflict : SaveError
  save_failure : Answer → SaveError

-- How a step ends: the save is over, was left because another build is open, is sent again, waits for
-- the newest build, or failed.
pub data SaveOutcome : Type 0 where
  done left sent_again fetching : SaveOutcome
  threw : SaveError → SaveOutcome

abbrev pub derived_detail_keys : List String
derived_detail_keys =
    "dhcp_pool" ∷ "wan_ip" ∷ "lan_gateway_ip" ∷ "lan_subnet" ∷ "interfaces" ∷ "power_load"
    ∷ "port_networks" ∷ []

-- The server's details over the local ones, of which the derived ones are dropped.
unfoldable pub merge_server_details : Option HardwareSpec → HardwareSpec → HardwareSpec
merge_server_details details server =
    let kept = or_else details no_details in
    spread_details (record kept { other = without derived_detail_keys kept.other }) server

-- What the server calculated for a node.
pub record Calculated : Type 0 where
  pub ip : Option String
  pub vm_ips : Dict String
  pub details : HardwareSpec

-- `ip: entry.vmIps.get(vm.id) ?? vm.ip`
abbrev pub with_vm_ip : Dict String → VirtualMachine → VirtualMachine
with_vm_ip vm_ips vm = record vm { ip = or_option (get vm_ips vm.id) vm.ip }

unfoldable pub device_with_ips : Option Calculated → HardwareNode → HardwareNode
device_with_ips none hn = hn
device_with_ips (some entry) hn = record hn {
  ip = entry.ip;
  details = some (merge_server_details hn.details entry.details);
  vms = elim hn.vms [ none ↦ none | some vms ↦ some (map (with_vm_ip entry.vm_ips) vms) ];
}

unfoldable pub card_with_ips : Option Calculated → Node → Node
card_with_ips none rfn = rfn
card_with_ips (some entry) rfn = record rfn {
  card = record {
    label = rfn.card.label;
    device = record (rfn.card.device) {
      ip = entry.ip;
      details = some (merge_server_details rfn.card.device.details entry.details);
      vms = some (map (with_vm_ip entry.vm_ips) (or_else rfn.card.device.vms []));
    };
  };
}

-- The build that was saved is still open.
abbrev pub still_open : BuilderState → String → Bool
still_open s build_id = is? s.current_build_id build_id

-- What the user is told of a save that failed.
unfoldable pub failure_message : Answer → String
failure_message (api_error status message latest) =
    if status == 422 && not (message == "")
    then message
    else "The server could not save this project."
failure_message _ = "The server could not be reached."

-- The save may or may not have reached the server.
abbrev unconfirmed_after : SentSave → Answer → Option UnconfirmedSave → Option UnconfirmedSave
unconfirmed_after sent (api_error status message latest) kept = kept
unconfirmed_after sent _ kept =
    some (record { build_id = sent.build_id; revision = sent.revision; signature = sent.signature })

unfoldable pub fail_save : SentSave → Answer → Saver → SaveOutcome × Saver
fail_save sent reply s = (
  threw (save_failure reply),
  record {
    builder = record (s.builder) { save_state = error; save_error = some (failure_message reply) };
    unconfirmed_save = unconfirmed_after sent reply s.unconfirmed_save;
  },
)

-- Kind and plan are part of what was being saved; the name is not edited here.
abbrev pub conflict_step : BuilderState → Snapshot
conflict_step before = record (canvas_of before) {
  meta = some (record {
    project_name = none;
    build_kind = some before.build_kind;
    gaming_plan = some before.gaming_plan;
  });
}

module _ (parse_json : String → Option HardwareSpec) (fingerprint : BuildData → String)
    (locale_before : String → String → Bool) (stringify : Signature → String) where
  -- What a save of the canvas sends.
  abbrev pub sent_save : BuilderState → SentSave
  sent_save s = record {
    build_id = text_or s.current_build_id "";
    name = text_or (some s.project_name) "Untitled Project";
    revision = s.current_revision;
    payload = get_build_data s;
    fingerprint = fingerprint (get_build_data s);
    signature = sent_signature locale_before stringify (get_build_data s);
  }

  -- A build that is not open, or whose graph is not there, is never saved.
  unfoldable pub start_save : Saver → Option SentSave × Saver
  start_save s =
      if is_open s.builder
      then (
        some (sent_save s.builder),
        record s { builder = record (s.builder) { save_state = saving } },
      )
      else (none, s)

  abbrev calculated : BuildNode → Calculated
  calculated n = record {
    ip = n.ip;
    vm_ips = spread [] (
        map {B = String × String} (λ vm. (vm.id, or_else vm.ip ""))
          (or_else n.virtual_machines []));
    details = record (parse_details parse_json n.details) { virtual_network = none };
  }

  -- `fromServer.get(id)`
  unfoldable pub from_server : Build → String → Option Calculated
  from_server build id =
      get
        (spread []
          (map {B = String × Calculated} (λ n. (n.id, calculated n)) (or_else build.nodes [])))
        id

  -- The addresses and derived details of the server, on the canvas as it is now.
  unfoldable pub with_server_values : Build → BuilderState → BuilderState
  with_server_values build s = record s {
    hardware_nodes = map (λ hn. device_with_ips (from_server build hn.id) hn) s.hardware_nodes;
    nodes = map (λ rfn. card_with_ips (from_server build rfn.id) rfn) s.nodes;
    current_revision = build.revision;
  }

  abbrev with_issues : Option ValidationReport → BuilderState → BuilderState
  with_issues none s = s
  with_issues (some report) s = record s { validation_issues = validation_to_issues (some report) }

  -- Edits made while the request was in flight are not on the server yet.
  abbrev pub edited_during_save : SentSave → BuilderState → Bool
  edited_during_save sent s = not (fingerprint (get_build_data s) == sent.fingerprint)

  unfoldable pub finish_save :
      SentSave → Build → Option ValidationReport → ℕ → BuilderState → BuilderState
  finish_save sent build validation now s =
      let merged = with_server_values build s in
      let edited = edited_during_save sent s in
      with_issues validation (record merged {
        last_synced_fingerprint =
            if edited then s.last_synced_fingerprint else fingerprint (get_build_data merged);
        save_state = if edited then unsaved else saved;
        last_saved_at = some now;
        save_error = none;
        server_reachable = true;
      })

  -- The server holds the save whose answer was lost.
  unfoldable pub is_ours : SentSave → Build → Option UnconfirmedSave → Bool
  is_ours sent latest none = false
  is_ours sent latest (some unconfirmed) =
      unconfirmed.build_id == sent.build_id
      && latest.revision == unconfirmed.revision + 1
      && stored_signature locale_before stringify latest == unconfirmed.signature

  -- The newer build is taken over; the canvas as it was stays one undo step away.
  unfoldable pub adopt_latest : Build → BuilderState → BuilderState
  adopt_latest latest before =
      with_step (load_build parse_json fingerprint before latest.id latest.name latest)
        before.history_past (conflict_step before)

  -- A save that was refused as stale, once the newest build is known or could not be fetched.
  unfoldable pub latest_arrived :
      SentSave → Bool → Answer → Option Build → Saver → SaveOutcome × Saver
  latest_arrived sent retried reply none s = fail_save sent reply s
  latest_arrived sent retried reply (some latest) s =
      if still_open s.builder sent.build_id
      then if is_ours sent latest s.unconfirmed_save && not retried
        then (
          sent_again,
          record {
            builder = record (s.builder) { current_revision = latest.revision };
            unconfirmed_save = none;
          },
        )
        else (
          threw build_conflict,
          record { builder = adopt_latest latest s.builder; unconfirmed_save = none },
        )
      else fail_save sent reply s

  abbrev stale : SentSave → Bool → Answer → Option Build → Saver → SaveOutcome × Saver
  stale sent retried reply none s = (fetching, s)
  stale sent retried reply (some latest) s = latest_arrived sent retried reply (some latest) s

  -- The answer to a save, at the time `now`.
  unfoldable pub save_answered : SentSave → Bool → ℕ → Answer → Saver → SaveOutcome × Saver
  save_answered sent retried now (saved_as build validation) s =
      if still_open s.builder sent.build_id
      then (
        done,
        record {
          builder = finish_save sent build validation now s.builder;
          unconfirmed_save = none;
        },
      )
      else (left, record s { unconfirmed_save = none })
  save_answered sent retried now (api_error status message latest) s =
      let reply = api_error status message latest in
      if not (still_open s.builder sent.build_id)
      then (threw (save_failure reply), s)
      else if status == 409
      then stale sent retried reply latest s
      else fail_save sent reply s
  save_answered sent retried now no_answer s =
      if still_open s.builder sent.build_id
      then fail_save sent no_answer s
      else (threw (save_failure no_answer), s)
