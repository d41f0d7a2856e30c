-- ===== src/Autosave/Retries.antt =====
-- autosave.ts: retries, what the user is told of failures, and what happens after leaving.
use homelab_builder.Base.{
  ℕ, ◌+◌, ◌≤◌, ◌<◌, ◌≡◌, refl, ◌⊎◌, inl, inr, Bool, true, false, not, ◌||◌, some, List, [], ◌∷◌,
  ◌++◌, arith, keep, all, ◌&&◌, both-first, both-second, ◌==◌, nat_eq, string_eq, Option-cases,
  length, any, find, length-keep-le, int_eq,
}
use homelab_builder.Autosave.{Job, check_job, save_job, run_job, clear_timeout, fires}
use homelab_builder.Autosave.{
  Autosave, Event, step, run, changed, finished, left, fails, last_fails, on_change, check, save,
  save_done, save_failed, stop, cancel_save, SaveError, Output, save_sent,
}

length-clear-le : (a : Autosave) (id : ℕ) → length (clear_timeout a (some id)).live ≤ length a.live
length-clear-le a id = length-keep-le (λ t. not (t.id == id)) a.live

run_job-retries-le :
    (job : Job) (a : Autosave) (is_open dirty : Bool)
    → a.retries ≤ 3
    → (run_job job a is_open dirty).0.retries ≤ 3
unfolding check save cancel_save
run_job-retries-le check_job a is_open dirty h = ground arith
run_job-retries-le save_job a is_open dirty h = ground arith

step-retries-le : (a : Autosave) (event : Event) → a.retries ≤ 3 → (step a event).0.retries ≤ 3
unfolding step on_change check save save_done save_failed stop cancel_save
step-retries-le a changed h = ground arith
step-retries-le a (fires id is_open dirty) h = elim (Option-cases (find (λ t. t.id == id) a.live)) [
  | inl gone ↦ rw (gone, step) h
  | inr (timer, at) ↦
      rw (at, step) (run_job-retries-le timer.job (clear_timeout a (some id)) is_open dirty h)
]
step-retries-le a finished h = ground arith
step-retries-le a (fails error) h = ground arith
step-retries-le a (left is_open dirty) h = ground arith
step-retries-le a (last_fails error) h = h

-- A count of at most three retries stays so, whatever events follow.
pub run-retries-le :
    (a : Autosave) (events : List Event) → a.retries ≤ 3 → (run a events).0.retries ≤ 3
unfolding run
run-retries-le a [] h = h
run-retries-le a (event ∷ events) h =
    run-retries-le (step a event).0 events (step-retries-le a event h)

pub is_sent : Output → Bool
is_sent save_sent = true
is_sent _ = false

pub is_told : Output → Bool
is_told save_sent = false
is_told _ = true

any-append : (p : Output → Bool) (xs ys : List Output) → any p (xs ++ ys) ≡ (any p xs || any p ys)
any-append p [] ys = refl
any-append p (x ∷ xs) ys = ground (arith, any-append p xs ys)

run_job-stopped :
    (job : Job) (a : Autosave) (is_open dirty : Bool)
    → a.stopped ≡ true
    → ((run_job job a is_open dirty).0.stopped ≡ true)
      × (length (run_job job a is_open dirty).0.live ≤ length a.live)
      × (any is_sent (run_job job a is_open dirty).1 ≡ false)
unfolding check save is_sent
run_job-stopped check_job a is_open dirty h = ground arith
run_job-stopped save_job a is_open dirty h = ground arith

step-stopped :
    (a : Autosave) (event : Event)
    → a.stopped ≡ true
    → ((step a event).0.stopped ≡ true)
      × (length (step a event).0.live ≤ length a.live)
      × (any is_sent (step a event).1 ≡ false)
unfolding step on_change check save save_done save_failed stop is_sent
step-stopped a changed h = ground arith
step-stopped a (fires id is_open dirty) h = elim (Option-cases (find (λ t. t.id == id) a.live)) [
  | inl gone ↦ rw (gone, step) (h, omega arith, refl)
  | inr (timer, at) ↦
      let ran = run_job-stopped timer.job (clear_timeout a (some id)) is_open dirty h in
      rw (at, step) (ran.0, omega (arith, ran.1, length-clear-le a id), ran.2)
]
step-stopped a finished h = ground arith
step-stopped a (fails error) h = ground arith
step-stopped a (left is_open dirty) h = ground arith
step-stopped a (last_fails error) h = ground arith

-- After the builder was left, no run of events sends a save, and the list of timers does not grow.
pub run-stopped :
    (a : Autosave) (events : List Event)
    → a.stopped ≡ true
    → (length (run a events).0.live ≤ length a.live) × (any is_sent (run a events).1 ≡ false)
unfolding run
run-stopped a [] h = (omega arith, refl)
run-stopped a (event ∷ events) h =
    let now = step-stopped a event h in
    let later = run-stopped (step a event).0 events now.0 in
    ground (arith, any-append is_sent (step a event).1 (run (step a event).0 events).1)

-- A failure is told, or it is retried.
save_failed-cases :
    (a : Autosave) (error : SaveError)
    → a.stopped ≡ false
    → (any is_told (save_failed a error).1 ≡ true)
      ⊎ (((save_failed a error).0.stopped ≡ false)
          × ((save_failed a error).0.retries ≡ a.retries + 1)
          × (a.retries < 3))
unfolding save_failed is_told
save_failed-cases a error going = ground arith

-- While the build stays open and unsaved: edits, timers of any kind, and saves that fail.
abbrev pub is_trouble : Event → Bool
is_trouble changed = true
is_trouble (fires id is_open dirty) = is_open && dirty
is_trouble (fails error) = true
is_trouble _ = false

abbrev pub is_failure : Event → Bool
is_failure (fails error) = true
is_failure _ = false

-- The count of retries that a step without a failure keeps.
KeepsRetries : Autosave → Autosave → Type 0
KeepsRetries a b = (b.stopped ≡ false) × (b.retries ≡ a.retries)

run_job-keeps :
    (job : Job) (a : Autosave) → a.stopped ≡ false → KeepsRetries a (run_job job a true true).0
unfolding KeepsRetries check save cancel_save
run_job-keeps check_job a going = ground arith
run_job-keeps save_job a going = ground arith

step-keeps :
    (a : Autosave) (event : Event)
    → is_trouble event ≡ true
    → is_failure event ≡ false
    → a.stopped ≡ false
    → KeepsRetries a (step a event).0
unfolding KeepsRetries step on_change
step-keeps a changed t n going = ground arith
step-keeps a (fires id true true) t n going = elim (Option-cases (find (λ t. t.id == id) a.live)) [
  | inl gone ↦ rw (gone, step) (going, refl)
  | inr (timer, at) ↦ rw (at, step) (run_job-keeps timer.job (clear_timeout a (some id)) going)
]
step-keeps a (fires id true false) t n going = cc
step-keeps a (fires id false dirty) t n going = cc
step-keeps a (fails error) t n going = cc
step-keeps a finished t n going = cc
step-keeps a (left is_open dirty) t n going = cc
step-keeps a (last_fails error) t n going = cc

trouble_parts :
    (event : Event) (events : List Event)
    → all is_trouble (event ∷ events) ≡ true
    → (is_trouble event ≡ true) × (all is_trouble events ≡ true)
trouble_parts event events h =
    (both-first (is_trouble event) _ h, both-second (is_trouble event) _ h)

-- An event that is no failure leaves it to the later ones.
run-fails_later :
    (a : Autosave) (event : Event) (events : List Event)
    → a.stopped ≡ false
    → a.retries ≤ 3
    → all is_trouble (event ∷ events) ≡ true
    → is_failure event ≡ false
    → 4 ≤ a.retries + length (keep is_failure (event ∷ events))
    → ((step a event).0.stopped ≡ false
        → (step a event).0.retries ≤ 3
        → all is_trouble events ≡ true
        → 4 ≤ (step a event).0.retries + length (keep is_failure events)
        → any is_told (run (step a event).0 events).1 ≡ true)
    → any is_told (run a (event ∷ events)).1 ≡ true
unfolding run is_told KeepsRetries
run-fails_later a event events going few trouble quiet many told =
    let parts = trouble_parts event events trouble in
    let kept = step-keeps a event parts.0 quiet going in
    let fewer : length (keep is_failure (event ∷ events)) ≡ length (keep is_failure events) =
      rw quiet refl in
    let rest =
      told kept.0 (omega (arith, kept.1, few)) parts.1 (omega (arith, kept.1, many, fewer)) in
    ground (arith, any-append is_told (step a event).1 (run (step a event).0 events).1)

-- While the build stays open and unsaved and the builder is not left, whatever is edited and whichever
-- timers fire between the failures: if the failed saves make four with the retries that stand, of which
-- there are at most three, then a failure is told.
pub run-fails_told :
    (a : Autosave) (events : List Event)
    → a.stopped ≡ false
    → a.retries ≤ 3
    → all is_trouble events ≡ true
    → 4 ≤ a.retries + length (keep is_failure events)
    → any is_told (run a events).1 ≡ true
unfolding run step is_told KeepsRetries
run-fails_told a [] going few trouble many = absurd (omega arith)
run-fails_told a (fails error ∷ events) going few trouble many =
    let later = run (save_failed a error).0 events in
    let split = any-append is_told (save_failed a error).1 later.1 in
    elim (save_failed-cases a error going) [
      | inl told ↦ ground (arith, split)
      | inr (still, more, room) ↦
          let rest =
            run-fails_told (save_failed a error).0 events still (omega (arith, more)) (ground arith)
              (omega (arith, more)) in
          ground (arith, split)
    ]
run-fails_told a (changed ∷ events) going few trouble many =
    run-fails_later a changed events going few trouble refl many
      (run-fails_told (step a changed).0 events)
run-fails_told a (fires id o d ∷ events) going few trouble many =
    run-fails_later a (fires id o d) events going few trouble refl many
      (run-fails_told (step a (fires id o d)).0 events)
run-fails_told a (finished ∷ events) going few trouble many = absurd (ground arith)
run-fails_told a (left o d ∷ events) going few trouble many = absurd (ground arith)
run-fails_told a (last_fails e ∷ events) going few trouble many = absurd (ground arith)
