-- ===== src/Autosave/Tests.antt =====
-- Runs of the autosave: an edit that cannot be saved, and leaving the builder.
use homelab_builder.Base.{
  keep, ◌+◌, ◌≤◌, ◌≡◌, refl, true, false, List, [], ◌∷◌, arith, nat_eq, string_eq, length, any,
  int_eq,
}
use homelab_builder.Autosave.{fires}
use homelab_builder.Autosave.Retries.{
  is_failure, run-fails_told, run-stopped, run-retries-le, is_sent, is_told,
}
use homelab_builder.Autosave.{
  answered, no_answer, cancel_save, changed, fails, stop, run, Autosave, Event, started,
}

started-going : started.stopped ≡ false
unfolding started
started-going = refl

few : started.retries ≤ 3
unfolding started
few = omega arith

-- A save that fails, three retries that fail too, and an edit between the first two of them.
abbrev unanswered : List Event
unanswered =
    fails no_answer
    ∷ changed
    ∷ fires 1 true true
    ∷ fails (answered 500)
    ∷ fires 3 true true
    ∷ fails no_answer
    ∷ fires 4 true true
    ∷ fails (answered 429)
    ∷ []

many : 4 ≤ started.retries + length (keep is_failure unanswered)
unfolding started
many = omega arith

run-fails_told_example : any is_told (run started unanswered).1 ≡ true
run-fails_told_example = run-fails_told started unanswered started-going few refl many

abbrev edits : List Event
edits = changed ∷ fires 1 true true ∷ fires 2 true true ∷ fails no_answer ∷ []

run-retries-le_example : (run started edits).0.retries ≤ 3
run-retries-le_example = run-retries-le started edits few

abbrev gone : Autosave
gone = (stop started true true).0

gone-stopped : gone.stopped ≡ true
unfolding stop started cancel_save
gone-stopped = refl

run-stopped_example :
    (length (run gone edits).0.live ≤ length gone.live) × (any is_sent (run gone edits).1 ≡ false)
run-stopped_example = run-stopped gone edits gone-stopped
