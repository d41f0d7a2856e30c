-- ===== src/Connection/Loops.antt =====
-- The loop tests of connection-rules.ts answer exactly whether a path is there.
use homelab_builder.Search.Fuel.{unvisited-le, explore_total}
use homelab_builder.Connection.Graph.{contains-adjacency, linked-ends, linked}
use homelab_builder.Search.Correct.{Reach-mono, explore_iff, Reach}
use homelab_builder.Connection.{
  adjacency_from, neighbors, ends_of, loop_search, LinkEnd, makes_loop,
}
use homelab_builder.Base.{
  ◌∙◌, arith, ◌∷◌, ◌+◌, sym, length, all_of_contains, [], ◌↔◌, true, ◌≡◌, contains, is_some?, all,
  String, List, string_eq, nat_eq, int_eq,
}

-- Two devices are on one network: a path of network cables joins them.
abbrev pub Joined : List LinkEnd → String → String → Type 0
Joined edges a b = Reach (linked edges) a b

neighbors-ends :
    (edges : List LinkEnd) (a : String)
    → all (contains (ends_of edges)) (neighbors (adjacency_from [] edges) a) ≡ true
neighbors-ends edges a =
    all_of_contains (contains (ends_of edges)) (neighbors (adjacency_from [] edges) a)
      (λ b m. linked-ends edges a b (sym (contains-adjacency edges a b) ∙ m))

-- The search for a loop ends with an answer, and says exactly whether the two devices are on one network
-- already.
pub makes_loop_iff :
    (edges : List LinkEnd) (source target : String)
    → (is_some? (loop_search edges source target) ≡ true)
      × ((makes_loop edges source target ≡ true) ↔ Joined edges source target)
unfolding makes_loop loop_search
makes_loop_iff edges source target =
    let next = neighbors (adjacency_from [] edges) in
    let us = ends_of edges in
    let (answer, ended) =
      explore_total next target us (neighbors-ends edges) (length us + 2) (source ∷ [])
        (source ∷ []) (omega (arith, unvisited-le us (source ∷ []))) in
    let (to, from) = explore_iff next source target (length us + 2) answer ended in
    (
      rw ended,
      (
        λ h. Reach-mono (λ b c l. sym (contains-adjacency edges b c) ∙ l) (to (rw ended at h)),
        λ r. rw ended (from (Reach-mono (λ b c l. contains-adjacency edges b c ∙ l) r)),
      ),
    )
