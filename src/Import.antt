-- ===== src/Import.antt =====
-- frontend/src/features/integrations/lib/import-selection.ts: what the owner takes over from a comparison
-- of the plan with a Proxmox server. Of a row and a host only the fields that are read are kept.
pub mod Counts
mod Tests
use homelab_builder.Text.Decimal.{decimal}
use homelab_builder.Types.{Dict}
use homelab_builder.Text.{codes}
use homelab_builder.Base.{
  zero, ◌/◌, ◌*◌, ◌==◌, none, min, ltb, ◌||◌, ◌-ℤ◌, suc, some, is_some?, is?, any, [], ◌∷◌, ◌++◌,
  ◌&&◌, true, pos, or_else, not, negsuc, false, ◌+◌, ℤ, ℕ, if◌then◌else◌, String, Option, List,
  Bool, string_eq, nat_eq, int_eq,
}

pub data GuestState : Type 0 where
  matched discovered missing : GuestState

pub data FigureState : Type 0 where
  same differs unknown : FigureState

pub record GuestRow : Type 0 where
  pub state : GuestState
  pub vmid : Option ℕ
  pub status : Option String
  pub planned_id : Option String
  pub differs : Bool

pub record ImportHost : Type 0 where
  pub node : String
  pub skipped : Bool
  pub planned_id : Option String
  pub paired_by : Option String
  pub cpus : FigureState
  pub ram_gb : FigureState
  pub storage_gb : FigureState
  pub guests : List GuestRow

pub record ImportPlan : Type 0 where
  pub build : Option String
  pub hosts : List ImportHost

-- What the owner said, by the key of the difference.
abbrev pub Overrides : Type 0
Overrides = List ℕ → Option Bool

-- `${value}` where the value may be missing.
abbrev pub shown_number : Option ℕ → List ℕ
shown_number none = codes "undefined"
shown_number (some n) = decimal n

abbrev pub shown_text : Option String → List ℕ
shown_text none = codes "undefined"
shown_text (some text) = codes text

unfoldable pub guest_key : GuestRow → List ℕ
guest_key row = elim row.state [
  | missing ↦ codes "remove:" ++ shown_text row.planned_id
  | matched ↦ codes "update:" ++ shown_number row.vmid
  | discovered ↦ codes "add:" ++ shown_number row.vmid
]

unfoldable pub specs_key : ImportHost → List ℕ
specs_key host = codes "specs:" ++ codes host.node

abbrev pub is_differs : FigureState → Bool
is_differs differs = true
is_differs _ = false

-- `!!id`
abbrev pub is_set : Option String → Bool
is_set none = false
is_set (some text) = not (text == "")

unfoldable pub specs_differ : ImportHost → Bool
specs_differ host =
    is_set host.planned_id && any is_differs (host.cpus ∷ host.ram_gb ∷ host.storage_gb ∷ [])

-- What happens to a guest unless the owner says otherwise: nothing is removed.
unfoldable pub guest_default : GuestRow → Bool
guest_default row = elim row.state [
  | discovered ↦ not (is? row.status "stopped")
  | matched ↦ row.differs
  | missing ↦ false
]

abbrev pub is_matched : GuestState → Bool
is_matched matched = true
is_matched _ = false

unfoldable pub guest_chosen : GuestRow → Overrides → Bool
guest_chosen row overrides =
    if is_matched row.state && not row.differs
    then false
    else or_else (overrides (guest_key row)) (guest_default row)

unfoldable pub specs_chosen : ImportHost → Overrides → Bool
specs_chosen host overrides =
    if specs_differ host then or_else (overrides (specs_key host)) true else false

-- A host of the plan that does not say yet which Proxmox host it is.
unfoldable pub needs_link : ImportHost → Bool
needs_link host = is_set host.planned_id && not (is? host.paired_by "link")

pub record ChangeCount : Type 0 where
  pub hosts_added : ℕ
  pub hosts_updated : ℕ
  pub guests_added : ℕ
  pub guests_updated : ℕ
  pub guests_removed : ℕ
  pub operations : ℕ

abbrev pub no_changes : ChangeCount
no_changes = record {
  hosts_added = 0;
  hosts_updated = 0;
  guests_added = 0;
  guests_updated = 0;
  guests_removed = 0;
  operations = 0;
}

abbrev pub counted : GuestState → ChangeCount → ChangeCount
counted discovered count = record count {
  guests_added = count.guests_added + 1;
  operations = count.operations + 1;
}
counted matched count = record count {
  guests_updated = count.guests_updated + 1;
  operations = count.operations + 1;
}
counted missing count = record count {
  guests_removed = count.guests_removed + 1;
  operations = count.operations + 1;
}

unfoldable pub count_guests : Overrides → List GuestRow → ChangeCount → ChangeCount
count_guests overrides [] count = count
count_guests overrides (row ∷ rows) count =
    count_guests overrides rows
      (if guest_chosen row overrides then counted row.state count else count)

-- A new host comes in as a device with its cable to the switch.
unfoldable pub count_host : Overrides → ImportHost → ChangeCount → ChangeCount
count_host overrides host count =
    if not (is_set host.planned_id)
    then record count { hosts_added = count.hosts_added + 1; operations = count.operations + 2 }
    else if needs_link host || specs_chosen host overrides
    then record count { hosts_updated = count.hosts_updated + 1; operations = count.operations + 1 }
    else count

unfoldable pub count_hosts : Overrides → List ImportHost → ChangeCount → ChangeCount
count_hosts overrides [] count = count
count_hosts overrides (host ∷ hosts) count = count_hosts overrides hosts (
    if host.skipped
    then count
    else count_guests overrides host.guests (count_host overrides host count))

-- A new project starts with a router, a switch and the cable between them.
unfoldable pub count_changes : ImportPlan → Overrides → ChangeCount
count_changes plan overrides =
    let count = count_hosts overrides plan.hosts no_changes in
    if not (is_some? plan.build) && ltb 0 count.operations
    then record count { operations = count.operations + 3 }
    else count

unfoldable pub total_changes : ChangeCount → ℕ
total_changes count =
    count.hosts_added + count.hosts_updated + count.guests_added + count.guests_updated
    + count.guests_removed

pub record ImportDecision : Type 0 where
  pub build_id : Option String
  pub build_name : Option String
  pub hosts : Dict String
  pub use_actual_specs : List String
  pub add_guests : List ℕ
  pub update_guests : List ℕ
  pub remove_guests : List String

-- A row that names its guest goes into the list of its state; 0 and the empty text name none.
unfoldable pub take_guest : GuestState → Option ℕ → Option String → ImportDecision → ImportDecision
take_guest discovered (some vmid) planned decision =
    if vmid == 0
    then decision
    else record decision { add_guests = decision.add_guests ++ vmid ∷ [] }
take_guest matched (some vmid) planned decision =
    if vmid == 0
    then decision
    else record decision { update_guests = decision.update_guests ++ vmid ∷ [] }
take_guest missing vmid (some id) decision =
    if id == ""
    then decision
    else record decision { remove_guests = decision.remove_guests ++ id ∷ [] }
take_guest _ _ _ decision = decision

unfoldable pub decide_guest : Overrides → GuestRow → ImportDecision → ImportDecision
decide_guest overrides row decision =
    if guest_chosen row overrides
    then take_guest row.state row.vmid row.planned_id decision
    else decision

unfoldable pub decide_guests : Overrides → List GuestRow → ImportDecision → ImportDecision
decide_guests overrides [] decision = decision
decide_guests overrides (row ∷ rows) decision =
    decide_guests overrides rows (decide_guest overrides row decision)

unfoldable pub decide_specs : Overrides → ImportHost → ImportDecision → ImportDecision
decide_specs overrides host decision =
    if specs_chosen host overrides
    then record decision { use_actual_specs = decision.use_actual_specs ++ host.node ∷ [] }
    else decision

unfoldable pub decide_hosts : Overrides → List ImportHost → ImportDecision → ImportDecision
decide_hosts overrides [] decision = decision
decide_hosts overrides (host ∷ hosts) decision = decide_hosts overrides hosts (
    if host.skipped
    then decision
    else decide_guests overrides host.guests (decide_specs overrides host decision))

-- `trim` is `String.trim`.
unfoldable pub decision_of :
    (String → String) → ImportPlan → Dict String → Overrides → String → ImportDecision
decision_of trim plan hosts overrides build_name = decide_hosts overrides plan.hosts (record {
  build_id = plan.build;
  build_name = if is_some? plan.build then none else some (trim build_name);
  hosts = hosts;
  use_actual_specs = [];
  add_guests = [];
  update_guests = [];
  remove_guests = [];
})

-- A share of a whole as a percentage, never over 100. Both numbers are whole.
unfoldable pub share : ℤ → ℤ → ℤ
share part (negsuc m) = pos 0
share part (pos zero) = pos 0
share (negsuc n) (pos (suc m)) = pos 0
share (pos n) (pos (suc m)) = pos (min 100 ((200 * n + suc m) / (2 * suc m)))

unfoldable pub free_share : ℤ → ℤ → ℤ
free_share used whole_size = pos 100 -ℤ share used whole_size
