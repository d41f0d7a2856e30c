-- ===== src/Search/Fuel.antt =====
-- A search over a finite set of vertices ends: the unvisited vertices and the queue bound the rounds.
use homelab_builder.Base.{
  ℕ, zero, suc, ◌+◌, ◌≤◌, ◌<◌, Bool, true, false, List, [], ◌∷◌, ◌++◌, some, ◌≡◌, refl, Eq, ◌==◌,
  contains, length, length-append, contains-snoc, if◌then◌else◌, arith, Bool-cases, inl, inr, all,
}
use homelab_builder.Search.{push_new, explore}

module _ {ℓ} {A : Type ℓ} ⦃e : Eq A⦄ where
  -- How many of the vertices are not visited.
  pub unvisited : List A → List A → ℕ
  unvisited [] visited = 0
  unvisited (u ∷ us) visited =
      if contains visited u then unvisited us visited else suc (unvisited us visited)

  pub unvisited-le : (us visited : List A) → unvisited us visited ≤ length us
  unfolding unvisited
  unvisited-le [] visited = omega arith
  unvisited-le (u ∷ us) visited = ground (arith, unvisited-le us visited)

  unvisited-snoc-le :
      (us visited : List A) (n : A) → unvisited us (visited ++ n ∷ []) ≤ unvisited us visited
  unfolding unvisited
  unvisited-snoc-le [] visited n = omega arith
  unvisited-snoc-le (u ∷ us) visited n =
      ground (arith, contains-snoc visited n u, unvisited-snoc-le us visited n)

  unvisited-snoc-lt :
      (us visited : List A) (n : A)
      → contains us n ≡ true
      → contains visited n ≡ false
      → unvisited us (visited ++ n ∷ []) < unvisited us visited
  unfolding unvisited
  unvisited-snoc-lt [] visited n h new = ground arith
  unvisited-snoc-lt (u ∷ us) visited n h new = ground (
    arith,
    e.test_iff u n,
    e.test_iff n u,
    contains-snoc visited n u,
    unvisited-snoc-le us visited n,
    unvisited-snoc-lt us visited n,
  )

  -- Every vertex that the edges lead to is one of `us`.
  push_new_measure :
      (us ns visited queue : List A)
      → all (contains us) ns ≡ true
      → unvisited us (push_new ns visited queue).0 + length (push_new ns visited queue).1
        ≤ unvisited us visited + length queue
  unfolding push_new
  push_new_measure us [] visited queue h = omega arith
  push_new_measure us (n ∷ ns) visited queue h = elim (Bool-cases (contains visited n)) [
    | inl old ↦ rw old (push_new_measure us ns visited queue (ground arith))
    | inr new ↦ rw new (
        ground (
          arith,
          push_new_measure us ns (visited ++ n ∷ []) (queue ++ n ∷ []),
          unvisited-snoc-lt us visited n,
          length-append queue (n ∷ []),
        ))
  ]

  -- With more fuel than unvisited and queued vertices the search answers.
  pub explore_total :
      (next : A → List A) (goal : A) (us : List A)
      → ((a : A) → all (contains us) (next a) ≡ true)
      → (fuel : ℕ) (visited queue : List A) → unvisited us visited + length queue < fuel
      → (found : Bool) × (explore next goal fuel visited queue ≡ some found)
  unfolding explore
  explore_total next goal us closed zero visited queue h = elim h [ ]
  explore_total next goal us closed (suc fuel) visited [] h = (false, refl)
  explore_total next goal us closed (suc fuel) visited (current ∷ queue) h =
      elim (Bool-cases (current == goal)) [
        | inl here ↦ (true, rw here)
        | inr other ↦ rw other (
            explore_total next goal us closed fuel (push_new (next current) visited queue).0
              (push_new (next current) visited queue).1
              (omega (arith, push_new_measure us (next current) visited queue (closed current))))
      ]
