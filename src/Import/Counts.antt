-- ===== src/Import/Counts.antt =====
-- import-selection.ts: the changes that are announced are those that the server is told to make.
use homelab_builder.Types.{Dict}
use homelab_builder.Import.{
  matched, needs_link, discovered, no_changes, specs_differ, missing, decision_of, decide_specs,
  decide_hosts, decide_guests, take_guest, specs_chosen, count_hosts, count_host, count_guests,
  count_changes, ImportPlan, GuestState, counted, guest_chosen, is_set, Overrides, ImportHost,
  ImportDecision, decide_guest, GuestRow, ChangeCount,
}
use homelab_builder.Base.{
  ltb, ◌&&◌, is_some?, both-second, inr, inl, if◌then◌else◌, both-first, Bool-cases, ◌||◌,
  length-append, ◌+◌, refl, none, arith, [], ◌∷◌, ◌==◌, not, ◌≤◌, ◌++◌, true, some, ◌≡◌, length,
  false, all, ℕ, String, Bool, Option, List, string_eq, nat_eq, int_eq,
}

-- A row names its guest: by a positive vmid on the server, by an id in the plan.
abbrev pub has_number : Option ℕ → Bool
has_number none = false
has_number (some n) = not (n == 0)

abbrev pub names : GuestState → Option ℕ → Option String → Bool
names missing vmid planned = is_set planned
names _ vmid planned = has_number vmid

abbrev pub is_named : GuestRow → Bool
is_named row = names row.state row.vmid row.planned_id

unfoldable pub are_named : List ImportHost → Bool
are_named hosts = all (λ host. all is_named host.guests) hosts

-- The counts are the lengths of the lists.
pub record Agrees (count : ChangeCount) (decision : ImportDecision) : Type 0 where
  pub added : length decision.add_guests ≡ count.guests_added
  pub updated : length decision.update_guests ≡ count.guests_updated
  pub removed : length decision.remove_guests ≡ count.guests_removed
  pub specs : length decision.use_actual_specs ≤ count.hosts_updated

length-snoc {ℓ} :
    {A : Type ℓ} (xs : List A) (a : A) (n : ℕ) → length xs ≡ n → length (xs ++ a ∷ []) ≡ n + 1
length-snoc xs a n h = omega (arith, h, length-append xs (a ∷ []))

take_guest-Agrees :
    (state : GuestState) (vmid : Option ℕ) (planned : Option String) (count : ChangeCount)
    (decision : ImportDecision)
    → names state vmid planned ≡ true
    → Agrees count decision
    → Agrees (counted state count) (take_guest state vmid planned decision)
unfolding take_guest
take_guest-Agrees discovered none planned count decision named h = absurd (ground arith)
take_guest-Agrees discovered (some vmid) planned count decision named h =
    elim (Bool-cases (vmid == 0)) [
      | inl e ↦ absurd (ground arith)
      | inr e ↦ rw (e) (record {
        added = length-snoc decision.add_guests vmid count.guests_added h.added;
        updated = h.updated;
        removed = h.removed;
        specs = h.specs;
      })
    ]
take_guest-Agrees matched none planned count decision named h = absurd (ground arith)
take_guest-Agrees matched (some vmid) planned count decision named h =
    elim (Bool-cases (vmid == 0)) [
      | inl e ↦ absurd (ground arith)
      | inr e ↦ rw (e) (record {
        added = h.added;
        updated = length-snoc decision.update_guests vmid count.guests_updated h.updated;
        removed = h.removed;
        specs = h.specs;
      })
    ]
take_guest-Agrees missing vmid none count decision named h = absurd (ground arith)
take_guest-Agrees missing vmid (some id) count decision named h = elim (Bool-cases (id == "")) [
  | inl e ↦ absurd (ground arith)
  | inr e ↦ rw (e) (record {
    added = h.added;
    updated = h.updated;
    removed = length-snoc decision.remove_guests id count.guests_removed h.removed;
    specs = h.specs;
  })
]

guests-Agree :
    (overrides : Overrides) (rows : List GuestRow) (count : ChangeCount) (decision : ImportDecision)
    → all is_named rows ≡ true
    → Agrees count decision
    → Agrees (count_guests overrides rows count) (decide_guests overrides rows decision)
unfolding count_guests decide_guests decide_guest
guests-Agree overrides [] count decision named h = h
guests-Agree overrides (row ∷ rows) count decision named h =
    let this = both-first (is_named row) (all is_named rows) named in
    let others = both-second (is_named row) (all is_named rows) named in
    elim (Bool-cases (guest_chosen row overrides)) [
      | inl e ↦ rw (e) (
          guests-Agree overrides rows (counted row.state count)
            (take_guest row.state row.vmid row.planned_id decision) others
            (take_guest-Agrees row.state row.vmid row.planned_id count decision this h))
      | inr e ↦ rw (e) (guests-Agree overrides rows count decision others h)
    ]

or-true : (b : Bool) → (b || true) ≡ true
or-true b = ground arith

-- Figures are only chosen for a host that is in the plan.
specs_chosen-planned :
    (host : ImportHost) (overrides : Overrides)
    → is_set host.planned_id ≡ false
    → specs_chosen host overrides ≡ false
unfolding specs_chosen specs_differ
specs_chosen-planned host overrides new = ground arith

host-Agrees :
    (overrides : Overrides) (host : ImportHost) (count : ChangeCount) (decision : ImportDecision)
    → Agrees count decision
    → Agrees (count_host overrides host count) (decide_specs overrides host decision)
unfolding count_host decide_specs
host-Agrees overrides host count decision h = elim (Bool-cases (is_set host.planned_id)) [
  | inr new ↦
      rw (new, specs_chosen-planned host overrides new)
        (record { added = h.added; updated = h.updated; removed = h.removed; specs = h.specs })
  | inl planned ↦ elim (Bool-cases (specs_chosen host overrides)) [
    | inl e ↦
        rw (planned, e, or-true (needs_link host))
          (record {
            added = h.added;
            updated = h.updated;
            removed = h.removed;
            specs =
                omega (arith, h.specs, length-append decision.use_actual_specs (host.node ∷ []));
          })
    | inr e ↦ elim (Bool-cases (needs_link host)) [
      | inl f ↦
          rw (planned, e, f)
            (record {
              added = h.added;
              updated = h.updated;
              removed = h.removed;
              specs = omega (arith, h.specs);
            })
      | inr f ↦ rw (planned, e, f) h
    ]
  ]
]

skip-Agrees :
    (skipped : Bool) (count next : ChangeCount) (decision later : ImportDecision)
    → Agrees count decision
    → Agrees next later
    → Agrees (if skipped then count else next) (if skipped then decision else later)
skip-Agrees true count next decision later h k = h
skip-Agrees false count next decision later h k = k

hosts-Agree :
    (overrides : Overrides) (hosts : List ImportHost) (count : ChangeCount)
    (decision : ImportDecision)
    → are_named hosts ≡ true
    → Agrees count decision
    → Agrees (count_hosts overrides hosts count) (decide_hosts overrides hosts decision)
unfolding count_hosts decide_hosts are_named
hosts-Agree overrides [] count decision named h = h
hosts-Agree overrides (host ∷ hosts) count decision named h =
    let this = both-first (all is_named host.guests) (are_named hosts) named in
    let others = both-second (all is_named host.guests) (are_named hosts) named in
    hosts-Agree overrides hosts
      (if host.skipped
        then count
        else count_guests overrides host.guests (count_host overrides host count))
      (if host.skipped
        then decision
        else decide_guests overrides host.guests (decide_specs overrides host decision))
      others
      (skip-Agrees host.skipped count
        (count_guests overrides host.guests (count_host overrides host count)) decision
        (decide_guests overrides host.guests (decide_specs overrides host decision)) h
        (guests-Agree overrides host.guests (count_host overrides host count)
          (decide_specs overrides host decision) this
          (host-Agrees overrides host count decision h)))

abbrev start : (String → String) → ImportPlan → Dict String → String → ImportDecision
start trim plan hosts build_name = record {
  build_id = plan.build;
  build_name = if is_some? plan.build then none else some (trim build_name);
  hosts = hosts;
  use_actual_specs = [];
  add_guests = [];
  update_guests = [];
  remove_guests = [];
}

-- Where every guest of a comparison is named, the guests that are announced as added, updated and
-- removed are as many as the decision adds, updates and removes, and it takes over the figures of no
-- more hosts than are announced as updated.
pub decision_of-Agrees :
    (trim : String → String) (plan : ImportPlan) (hosts : Dict String) (overrides : Overrides)
    (build_name : String)
    → are_named plan.hosts ≡ true
    → Agrees (count_changes plan overrides) (decision_of trim plan hosts overrides build_name)
unfolding count_changes decision_of
decision_of-Agrees trim plan hosts overrides build_name named =
    let agreed =
      hosts-Agree overrides plan.hosts no_changes (start trim plan hosts build_name) named
        (record { added = refl; updated = refl; removed = refl; specs = omega arith }) in
    elim (Bool-cases (
      not (is_some? plan.build)
      && ltb 0 (count_hosts overrides plan.hosts no_changes).operations)) [
        | inl e ↦ rw (e) (record {
          added = agreed.added;
          updated = agreed.updated;
          removed = agreed.removed;
          specs = agreed.specs;
        })
        | inr e ↦ rw (e) agreed
      ]
