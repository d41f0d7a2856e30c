-- ===== src/Import/Tests.antt =====
-- import-selection.ts: a comparison with one new host, one host of the plan, and four guests.
use homelab_builder.Import.Counts.{decision_of-Agrees, are_named, Agrees}
use homelab_builder.Import.{
  needs_link, specs_key, specs_differ, specs_chosen, guest_key, missing, guest_default,
  decide_specs, GuestRow, take_guest, guest_chosen, discovered, unknown, matched, decide_guest,
  count_guests, same, differs, decide_guests, count_host, decide_hosts, count_hosts, share,
  decision_of, count_changes, Overrides, ImportPlan, ImportHost, GuestState, ChangeCount,
}
use homelab_builder.Base.{
  ◌==◌, Bool, if◌then◌else◌, String, ◌∷◌, ℕ, true, refl, ◌≡◌, some, pos, none, false, [], Option,
  string_eq, nat_eq, int_eq,
}

abbrev guest : GuestState → Option ℕ → Option String → Bool → GuestRow
guest state vmid planned changed = record {
  state = state;
  vmid = vmid;
  status = some "running";
  planned_id = planned;
  differs = changed;
}

abbrev new_host : ImportHost
new_host = record {
  node = "pve2";
  skipped = false;
  planned_id = none;
  paired_by = none;
  cpus = same;
  ram_gb = same;
  storage_gb = unknown;
  guests = guest discovered (some 101) none false ∷ guest missing none (some "v9") false ∷ [];
}

abbrev known_host : ImportHost
known_host = record new_host {
  node = "pve1";
  planned_id = some "d1";
  paired_by = some "link";
  ram_gb = differs;
  guests =
      guest matched (some 100) (some "v1") true ∷ guest matched (some 102) (some "v2") false ∷ [];
}

abbrev comparison : ImportPlan
comparison = record { build = some "b1"; hosts = new_host ∷ known_host ∷ [] }

-- The owner also drops the guest that was not found.
abbrev choices : Overrides
choices [] = none
choices (c ∷ key) = if c == 114 then some true else none

abbrev counts : ChangeCount
counts = record {
  hosts_added = 1;
  hosts_updated = 1;
  guests_added = 1;
  guests_updated = 1;
  guests_removed = 1;
  operations = 6;
}

counts_all : count_changes comparison choices ≡ counts
unfolding count_changes count_hosts count_host count_guests guest_chosen guest_default guest_key
    specs_chosen specs_differ specs_key needs_link
counts_all = refl

removes_nothing : (decision_of (λ text. text) comparison [] (λ key. none) "").remove_guests ≡ []
unfolding decision_of decide_hosts decide_guests decide_guest take_guest decide_specs guest_chosen
    guest_default guest_key specs_chosen specs_differ specs_key
removes_nothing = refl

named : are_named comparison.hosts ≡ true
unfolding are_named
named = refl

decision_of-Agrees_example :
    Agrees (count_changes comparison choices) (decision_of (λ text. text) comparison [] choices "")
decision_of-Agrees_example = decision_of-Agrees (λ text. text) comparison [] choices "" named

shares : share (pos 1) (pos 3) ≡ pos 33
unfolding share
shares = refl
