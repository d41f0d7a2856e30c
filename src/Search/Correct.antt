-- ===== src/Search/Correct.antt =====
-- The search finds the goal exactly when a path leads to it.
use homelab_builder.Base.{
  ℕ, zero, suc, ◌≡◌, refl, ◌≢◌, ◌↔◌, ◌⊎◌, inl, inr, Bool, true, false, ◌||◌, some, List, [], ◌∷◌,
  ◌++◌, arith, Eq, ◌==◌, nat_eq, string_eq, Bool-cases, contains, contains-snoc, int_eq,
}
use mathlib.Core.Path.{subst}
use homelab_builder.Search.{push_new, explore}

-- A path along the links.
pub data Reach {ℓ} {A : Type ℓ} (linked : A → A → Bool) (a : A) : A → Type ℓ where
  here : Reach linked a a
  along : {b c : A} → Reach linked a b → linked b c ≡ true → Reach linked a c

module _ {ℓ} {A : Type ℓ} where
  -- A path is one in every graph that has at least its links.
  pub Reach-mono :
      {r s : A → A → Bool} {a b : A}
      → ((b c : A) → r b c ≡ true → s b c ≡ true)
      → Reach r a b
      → Reach s a b
  Reach-mono h here = here
  Reach-mono h (along {b} {c} p l) = along (Reach-mono h p) (h b c l)

  pub Reach-trans : {r : A → A → Bool} {a b c : A} → Reach r a b → Reach r b c → Reach r a c
  Reach-trans p here = p
  Reach-trans p (along q l) = along (Reach-trans p q) l

module _ {ℓ} {A : Type ℓ} {r s : A → A → Bool} {u v : A} where
  -- One more link, from u to v: a path uses it or does not.
  pub Reach-insert :
      {a b : A}
      → ((b c : A) → s b c ≡ true → (r b c ≡ true) ⊎ ((b ≡ u) × (c ≡ v)))
      → Reach s a b
      → Reach r a b ⊎ (Reach r a u × Reach r v b)
  Reach-insert h here = inl here
  Reach-insert {a} h (along {b} {c} p l) = elim (h b c l) [
    | inl old ↦ elim (Reach-insert h p) [
      | inl q ↦ inl (along q old)
      | inr q ↦ inr (q.0, along q.1 old)
    ]
    | inr new ↦ elim (Reach-insert h p) [
      | inl q ↦ inr (subst (λ x. Reach r a x) new.0 q, rw new.1 here)
      | inr q ↦ inr (q.0, rw new.1 here)
    ]
  ]

module _ {ℓ} {A : Type ℓ} ⦃e : Eq A⦄ where
  push_new_from :
      (ns visited queue : List A) (a : A)
      → contains (push_new ns visited queue).1 a ≡ true
      → (contains queue a ≡ true) ⊎ (contains ns a ≡ true)
  unfolding push_new
  push_new_from [] visited queue a h = inl h
  push_new_from (n ∷ ns) visited queue a h = elim (Bool-cases (contains visited n)) [
    | inl old ↦ ground (arith, push_new_from ns visited queue a)
    | inr new ↦
        ground
          (arith, push_new_from ns (visited ++ n ∷ []) (queue ++ n ∷ []) a, contains-snoc queue n a)
  ]

  push_new_keeps :
      (ns visited queue : List A) (a : A)
      → contains queue a ≡ true
      → contains (push_new ns visited queue).1 a ≡ true
  unfolding push_new
  push_new_keeps [] visited queue a h = h
  push_new_keeps (n ∷ ns) visited queue a h = elim (Bool-cases (contains visited n)) [
    | inl old ↦ rw old (push_new_keeps ns visited queue a h)
    | inr new ↦ rw new (
        push_new_keeps ns (visited ++ n ∷ []) (queue ++ n ∷ []) a
          (ground (arith, contains-snoc queue n a)))
  ]

  pub push_new_visited :
      (ns visited queue : List A) (a : A)
      → contains (push_new ns visited queue).0 a ≡ (contains visited a || contains ns a)
  unfolding push_new
  push_new_visited [] visited queue a = ground arith
  push_new_visited (n ∷ ns) visited queue a = elim (Bool-cases (contains visited n)) [
    | inl old ↦ ground (arith, push_new_visited ns visited queue a, e.test_iff n a)
    | inr new ↦ ground (
      arith,
      push_new_visited ns (visited ++ n ∷ []) (queue ++ n ∷ []) a,
      contains-snoc visited n a,
    )
  ]

  push_new_queue :
      (ns visited queue : List A) (a : A)
      → contains (push_new ns visited queue).0 a ≡ true
      → (contains visited a ≡ true) ⊎ (contains (push_new ns visited queue).1 a ≡ true)
  unfolding push_new
  push_new_queue [] visited queue a h = inl h
  push_new_queue (n ∷ ns) visited queue a h = elim (Bool-cases (contains visited n)) [
    | inl old ↦ ground (arith, push_new_queue ns visited queue a)
    | inr new ↦ ground (
      arith,
      push_new_queue ns (visited ++ n ∷ []) (queue ++ n ∷ []) a,
      push_new_keeps ns (visited ++ n ∷ []) (queue ++ n ∷ []) a,
      contains-snoc visited n a,
      contains-snoc queue n a,
    )
  ]

  module _ (next : A → List A) (start goal : A) where
    explore_sound :
        (fuel : ℕ) (visited queue : List A)
        → ((a : A) → contains queue a ≡ true → Reach (λ b c. contains (next b) c) start a)
        → explore next goal fuel visited queue ≡ some true
        → Reach (λ b c. contains (next b) c) start goal
    unfolding explore
    explore_sound zero visited queue inv h = cc
    explore_sound (suc fuel) visited [] inv h = cc
    explore_sound (suc fuel) visited (current ∷ queue) inv h = elim (Bool-cases (current == goal)) [
      | inl at_goal ↦ inv goal (ground arith)
      | inr other ↦
          explore_sound fuel (push_new (next current) visited queue).0
            (push_new (next current) visited queue).1
            (λ a m. elim (push_new_from (next current) visited queue a m) [
              | inl queued ↦ inv a (ground arith)
              | inr fresh ↦ along (inv current (ground (arith, e.test_iff current current))) fresh
            ])
            (rw other at h)
    ]

    -- A vertex that left the queue was not the goal, and all its neighbours are visited.
    abbrev IsDone : List A → A → Type ℓ
    IsDone visited a =
        (a ≢ goal) × ((b : A) → contains (next a) b ≡ true → contains visited b ≡ true)

    abbrev IsFrontier : List A → List A → Type ℓ
    IsFrontier visited queue =
        (a : A) → contains visited a ≡ true → (contains queue a ≡ true) ⊎ IsDone visited a

    IsFrontier-step :
        (current : A) (visited queue : List A)
        → current ≢ goal
        → IsFrontier visited (current ∷ queue)
        → IsFrontier
            (push_new (next current) visited queue).0
            (push_new (next current) visited queue).1
    IsFrontier-step current visited queue differs inv a seen =
        elim (push_new_queue (next current) visited queue a seen) [
          | inr queued ↦ inl queued
          | inl old ↦ elim (inv a old) [
            | inl waiting ↦ elim (Bool-cases (current == a)) [
              | inl popped ↦ inr (done_popped a ((e.test_iff current a).0 popped))
              | inr other ↦ inl (push_new_keeps (next current) visited queue a (ground arith))
            ]
            | inr done ↦ inr (
              done.0,
              λ b m. ground (arith, push_new_visited (next current) visited queue b, done.1 b m),
            )
          ]
        ]
      where
        done_popped : (a : A) → current ≡ a → IsDone (push_new (next current) visited queue).0 a
        done_popped a p = (
          rw (← p) differs,
          λ b m. ground (arith, push_new_visited (next current) visited queue b),
        )

    closed_Reach :
        (visited : List A)
        → contains visited start ≡ true
        → IsFrontier visited []
        → {a : A} → Reach (λ b c. contains (next b) c) start a
        → contains visited a ≡ true
    closed_Reach visited h inv here = h
    closed_Reach visited h inv (along {b} {c} r m) = elim (inv b (closed_Reach visited h inv r)) [
      | inl queued ↦ cc
      | inr done ↦ done.1 c m
    ]

    explore_complete :
        (fuel : ℕ) (visited queue : List A)
        → contains visited start ≡ true
        → IsFrontier visited queue
        → explore next goal fuel visited queue ≡ some false
        → ¬ Reach (λ b c. contains (next b) c) start goal
    unfolding explore
    explore_complete zero visited queue h inv answer = cc
    explore_complete (suc fuel) visited [] h inv answer = λ r.
        elim (inv goal (closed_Reach visited h inv r)) [ inl queued ↦ cc | inr done ↦ done.0 refl ]
    explore_complete (suc fuel) visited (current ∷ queue) h inv answer =
        elim (Bool-cases (current == goal)) [
          | inl at_goal ↦ cc
          | inr other ↦
              explore_complete fuel (push_new (next current) visited queue).0
                (push_new (next current) visited queue).1
                (ground (arith, push_new_visited (next current) visited queue start))
                (IsFrontier-step current visited queue
                  (λ p. ground (arith, e.test_iff current goal)) inv)
                (rw other at answer)
        ]

    -- The search started as the program starts it answers whether a path leads to the goal.
    pub explore_iff :
        (fuel : ℕ) (found : Bool)
        → explore next goal fuel (start ∷ []) (start ∷ []) ≡ some found
        → (found ≡ true) ↔ Reach (λ b c. contains (next b) c) start goal
    explore_iff fuel true h =
        (λ _. explore_sound fuel (start ∷ []) (start ∷ []) at_start h, λ _. refl)
      where
        at_start :
            (a : A) → contains (start ∷ []) a ≡ true → Reach (λ b c. contains (next b) c) start a
        at_start a m = rw (← (e.test_iff start a).0 (ground arith)) here
    explore_iff fuel false h = (
      λ p. cc,
      λ r. absurd (
          explore_complete fuel (start ∷ []) (start ∷ []) (ground (arith, e.test_iff start start))
            (λ a m. inl m) h r),
    )
