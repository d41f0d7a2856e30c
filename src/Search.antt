-- ===== src/Search.antt =====
-- Breadth-first search as the program writes it: a set of visited vertices and a queue. The two searches
-- of frontend/src/features/builder/lib/connection-rules.ts, for network loops and for power loops, have
-- this loop.
pub mod Correct
pub mod Fuel
use homelab_builder.Base.{
  ℕ, zero, suc, Bool, true, false, List, [], ◌∷◌, ◌++◌, Option, none, some, Eq, ◌==◌, contains,
  if◌then◌else◌,
}

module _ {ℓ} {A : Type ℓ} ⦃e : Eq A⦄ where
  -- The body of the inner loop: `if (!visited.has(n)) { visited.add(n); queue.push(n); }`.
  unfoldable pub push_new : List A → List A → List A → List A × List A
  push_new [] visited queue = (visited, queue)
  push_new (n ∷ ns) visited queue =
      if contains visited n
      then push_new ns visited queue
      else push_new ns (visited ++ n ∷ []) (queue ++ n ∷ [])

  -- The outer loop: whether `goal` leaves the queue before it runs empty. `none` means that the
  -- fuel ran out.
  unfoldable pub explore : (A → List A) → A → ℕ → List A → List A → Option Bool
  explore next goal zero visited queue = none
  explore next goal (suc fuel) visited [] = some false
  explore next goal (suc fuel) visited (current ∷ queue) =
      let grown = push_new (next current) visited queue in
      let rest = explore next goal fuel grown.0 grown.1 in
      if current == goal then some true else rest
