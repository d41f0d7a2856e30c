-- ===== src/Autosave.antt =====
-- frontend/src/features/builder/store/autosave.ts: when the open build is saved. The timers that
-- setTimeout has set are a list; the three variables hold the numbers of those that can be cancelled.
pub mod Retries
mod Tests
use homelab_builder.Base.{
  ℕ, zero, suc, ◌+◌, ◌-◌, Bool, true, false, not, ◌&&◌, ◌||◌, Option, none, some, List, [], ◌∷◌,
  ◌++◌, ltb, leb, if◌then◌else◌, ◌==◌, nat_eq, string_eq, or_else, length, keep, find, int_eq,
}

pub data Job : Type 0 where
  check_job save_job : Job

pub record Timer : Type 0 where
  pub id : ℕ
  pub wait : ℕ
  pub job : Job

-- How a save ends when it fails: a conflict, an answer with a status, or no answer.
pub data SaveError : Type 0 where
  conflict no_answer : SaveError
  answered : ℕ → SaveError

-- What the handlers and the server are told.
pub data Output : Type 0 where
  save_sent conflict_told failure_told : Output

pub record Autosave : Type 0 where
  pub live : List Timer
  pub next_id : ℕ
  pub check_timer : Option ℕ
  pub save_timer : Option ℕ
  pub retry_timer : Option ℕ
  pub retries : ℕ
  pub stopped : Bool

abbrev pub autosave_check_ms : ℕ
autosave_check_ms = 300

abbrev pub autosave_delay_ms : ℕ
autosave_delay_ms = 2000

abbrev pub autosave_retry_ms : List ℕ
autosave_retry_ms = 2000 ∷ 5000 ∷ 15000 ∷ []

abbrev pub get_elem? : List ℕ → ℕ → Option ℕ
get_elem? [] n = none
get_elem? (x ∷ xs) zero = some x
get_elem? (x ∷ xs) (suc n) = get_elem? xs n

-- `clearTimeout`
abbrev pub clear_timeout : Autosave → Option ℕ → Autosave
clear_timeout a none = a
clear_timeout a (some id) = record a { live = keep (λ t. not (t.id == id)) a.live }

-- `setTimeout`; the number of the new timer is the old `next_id`.
abbrev pub set_timeout : Autosave → Job → ℕ → Autosave
set_timeout a job wait = record a {
  live = a.live ++ record { id = a.next_id; wait = wait; job = job } ∷ [];
  next_id = a.next_id + 1;
}

unfoldable pub is_refusal : SaveError → Bool
is_refusal conflict = false
is_refusal no_answer = false
is_refusal (answered status) =
    if status == 408 || status == 409 || status == 429
    then false
    else leb 400 status && ltb status 500

unfoldable pub started : Autosave
started = record {
  live = [];
  next_id = 1;
  check_timer = none;
  save_timer = none;
  retry_timer = none;
  retries = 0;
  stopped = false;
}

unfoldable pub cancel_save : Autosave → Autosave
cancel_save a = record (clear_timeout (clear_timeout a a.save_timer) a.retry_timer) {
  save_timer = none;
  retry_timer = none;
}

-- The store changed in a way that a save would send.
unfoldable pub on_change : Autosave → Autosave
on_change a =
    if a.stopped
    then a
    else record (set_timeout (clear_timeout a a.check_timer) check_job autosave_check_ms) {
      check_timer = some a.next_id;
    }

-- `is_open`: a build is open and ready. `dirty`: it differs from the server's copy.
unfoldable pub check : Autosave → Bool → Bool → Autosave
check a is_open dirty =
    let fired = record a { check_timer = none } in
    if a.stopped
    then fired
    else if not is_open
    then cancel_save fired
    else if not dirty
    then record (cancel_save fired) { retries = 0 }
    else let free = cancel_save fired in
      record (set_timeout free save_job (autosave_delay_ms - autosave_check_ms)) {
        save_timer = some free.next_id;
      }

-- The start of `save`, and whether a request is sent.
unfoldable pub save : Autosave → Bool → Bool → Autosave × List Output
save a is_open dirty = (
  record a { save_timer = none; retry_timer = none },
  if a.stopped || not is_open || not dirty then [] else save_sent ∷ [],
)

unfoldable pub save_done : Autosave → Autosave
save_done a = record a { retries = 0 }

-- `setTimeout(…, undefined)` waits 0 ms.
unfoldable pub retry_wait : ℕ → ℕ
retry_wait n = or_else (get_elem? autosave_retry_ms n) 0

abbrev gave_up : Autosave → Output → Autosave × List Output
gave_up a told = (record a { retries = 0 }, told ∷ [])

abbrev retry_later : Autosave → Autosave × List Output
retry_later a = (
  record (set_timeout a save_job (retry_wait a.retries)) {
    retry_timer = some a.next_id;
    retries = a.retries + 1;
  },
  [],
)

abbrev is_conflict : SaveError → Bool
is_conflict conflict = true
is_conflict _ = false

unfoldable pub save_failed : Autosave → SaveError → Autosave × List Output
save_failed a error =
    if a.stopped
    then (a, [])
    else if is_conflict error
    then gave_up a conflict_told
    else if is_refusal error || leb (length autosave_retry_ms) a.retries
    then gave_up a failure_told
    else retry_later a

-- What startAutosave returns: it stops, and saves what is still pending.
unfoldable pub stop : Autosave → Bool → Bool → Autosave × List Output
stop a is_open dirty = if a.stopped then (a, []) else (
  record (cancel_save (clear_timeout (record a { stopped = true }) a.check_timer)) {
    stopped = true;
  },
  if is_open && dirty then save_sent ∷ [] else [],
)

-- `last_fails` is a failure of the save that `stop` sent.
pub data Event : Type 0 where
  changed finished : Event
  fires : ℕ → Bool → Bool → Event
  left : Bool → Bool → Event
  fails last_fails : SaveError → Event

abbrev pub run_job : Job → Autosave → Bool → Bool → Autosave × List Output
run_job check_job a is_open dirty = (check a is_open dirty, [])
run_job save_job a is_open dirty = save a is_open dirty

-- A timer that fires is gone from the list; one that is not there cannot fire.
unfoldable pub step : Autosave → Event → Autosave × List Output
step a changed = (on_change a, [])
step a (fires id is_open dirty) = elim (find (λ t. t.id == id) a.live) [
  | none ↦ (a, [])
  | some timer ↦ run_job timer.job (clear_timeout a (some id)) is_open dirty
]
step a finished = (save_done a, [])
step a (fails error) = save_failed a error
step a (left is_open dirty) = stop a is_open dirty
step a (last_fails error) = (a, failure_told ∷ [])

-- What a run of events tells, in its order.
unfoldable pub run : Autosave → List Event → Autosave × List Output
run a [] = (a, [])
run a (event ∷ events) =
    let next = step a event in let rest = run next.0 events in (rest.0, next.1 ++ rest.1)
