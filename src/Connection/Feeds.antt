-- ===== src/Connection/Feeds.antt =====
-- Power cables: what an accepted cable means for the flow of power.
use homelab_builder.Connection.Graph.{contains-ends_rest, present-eq, contains-ends}
use homelab_builder.Search.Fuel.{unvisited-le, explore_total}
use homelab_builder.Search.Correct.{
  here, Reach-mono, explore_iff, along, Reach-trans, Reach-insert, Reach,
}
use homelab_builder.Power.{normalize_power_connection}
use homelab_builder.Connection.{
  input_in_use, socket_in_use, present, is_power_edge, ends_of, of_option, ConnectionCheck,
  feed_search, power_feeds, feeds_from, feeds_back, check_power_connection, LinkEnd,
}
use homelab_builder.Base.{
  ◌||◌, ==_iff, ◌+◌, inr, arith, ap, ◌⊎◌, sym, length, inl, refl, all_of_contains, [], Option-cases,
  Bool-cases, ◌∷◌, ◌∙◌, ◌↔◌, ◌&&◌, false, ◌++◌, true, is_some?, is?, contains, any, all, ◌≡◌, some,
  String, List, Bool, string_eq, nat_eq, int_eq,
}
use homelab_builder.Power

-- Whether a power cable leads from one device to another.
abbrev pub carries : LinkEnd → String → String → Bool
carries edge a b = is? edge.source a && is? (present edge.target) b

abbrev pub feeds : List LinkEnd → String → String → Bool
feeds edges a b = any (λ edge. is_power_edge edge && carries edge a b) edges

contains-feeds_from :
    (cables : List LinkEnd) (a b : String)
    → contains (feeds_from cables a) b ≡ any (λ edge. carries edge a b) cables
unfolding feeds_from
contains-feeds_from [] a b = refl
contains-feeds_from (edge ∷ cables) a b = elim (Option-cases (present edge.target)) [
  | inl no_target ↦ rw no_target (ground (arith, contains-feeds_from cables a b))
  | inr (t, at_t) ↦ rw at_t (ground (arith, contains-feeds_from cables a b))
]

any-power_feeds :
    (edges : List LinkEnd) (a b : String)
    → any (λ edge. carries edge a b) (power_feeds edges) ≡ feeds edges a b
unfolding power_feeds
any-power_feeds [] a b = refl
any-power_feeds (edge ∷ edges) a b = elim (Bool-cases (is_power_edge edge)) [
  | inl power ↦ rw (power) (ap (λ rest. carries edge a b || rest) (any-power_feeds edges a b))
  | inr network ↦ rw (network) (any-power_feeds edges a b)
]

contains-power_feeds :
    (edges : List LinkEnd) (a b : String)
    → contains (feeds_from (power_feeds edges) a) b ≡ feeds edges a b
contains-power_feeds edges a b =
    contains-feeds_from (power_feeds edges) a b ∙ any-power_feeds edges a b

carries-ends :
    (cables : List LinkEnd) (a b : String)
    → any (λ edge. carries edge a b) cables ≡ true
    → contains (ends_of cables) b ≡ true
carries-ends [] a b h = cc
carries-ends (edge ∷ cables) a b h = elim (Bool-cases (carries edge a b)) [
  | inl led ↦ contains-ends edge cables b (inr (present-eq edge.target b (ground arith)))
  | inr apart ↦ contains-ends_rest edge cables b (carries-ends cables a b (rw apart at h))
]

feeds_from-ends :
    (cables : List LinkEnd) (a : String)
    → all (contains (ends_of cables)) (feeds_from cables a) ≡ true
feeds_from-ends cables a =
    all_of_contains (contains (ends_of cables)) (feeds_from cables a)
      (λ b m. carries-ends cables a b (sym (contains-feeds_from cables a b) ∙ m))

-- The search downstream ends with an answer, and says exactly whether power from the fed device reaches the socket's
-- own device.
pub feeds_back_iff :
    (edges : List LinkEnd) (target source : String)
    → (is_some? (feed_search (power_feeds edges) target source) ≡ true)
      × ((feeds_back (power_feeds edges) target source ≡ true) ↔ Reach (feeds edges) target source)
unfolding feeds_back feed_search
feeds_back_iff edges target source =
    let cables = power_feeds edges in
    let us = ends_of cables in
    let (answer, ended) =
      explore_total (feeds_from cables) source us (feeds_from-ends cables) (length us + 2)
        (target ∷ []) (target ∷ []) (omega (arith, unvisited-le us (target ∷ []))) in
    let (to, from) = explore_iff (feeds_from cables) target source (length us + 2) answer ended in
    (
      rw ended,
      (
        λ h. Reach-mono (λ b c l. sym (contains-power_feeds edges b c) ∙ l) (to (rw ended at h)),
        λ r. rw ended (from (Reach-mono (λ b c l. contains-power_feeds edges b c ∙ l) r)),
      ),
    )

-- No device is fed by power that it hands out itself.
abbrev pub NoPowerLoop : List LinkEnd → Type 0
NoPowerLoop edges = (a b : String) → feeds edges a b ≡ true → ¬ Reach (feeds edges) b a

-- The edge that a normalised cable becomes.
abbrev pub edge_of : Power.Connection → LinkEnd
edge_of cable = record {
  source = some cable.source;
  target = some cable.target;
  source_handle = of_option cable.source_handle;
  target_handle = of_option cable.target_handle;
}

feeds-snoc :
    (edges : List LinkEnd) (cable : Power.Connection) (a b : String)
    → feeds (edges ++ edge_of cable ∷ []) a b ≡ true
    → (feeds edges a b ≡ true) ⊎ ((a ≡ cable.source) × (b ≡ cable.target))
feeds-snoc [] cable a b h =
    inr (
      ground
        (arith, ==_iff cable.source a, ==_iff cable.target b, present-eq (some cable.target) b))
feeds-snoc (edge ∷ edges) cable a b h = elim (Bool-cases (is_power_edge edge && carries edge a b)) [
  | inl led ↦ inl (rw led)
  | inr apart ↦ elim (feeds-snoc edges cable a b (rw apart at h)) [
    | inl old ↦ inl (rw (apart, old))
    | inr new ↦ inr new
  ]
]

not_true : (b : Bool) → ¬ (b ≡ true) → b ≡ false
not_true true h = absurd (h refl)
not_true false h = refl

-- A power cable is accepted exactly when it runs from a socket to a power input that are both free, and
-- the device that it feeds does not feed the socket's own device, directly or through others.
pub check_power-ok_iff :
    (connection : Power.Connection) (edges : List LinkEnd)
    → (check_power_connection connection edges ≡ ConnectionCheck.ok) ↔ (
        (cable : Power.Connection) × (normalize_power_connection connection ≡ some cable)
        × (socket_in_use (power_feeds edges) cable ≡ false)
        × (input_in_use (power_feeds edges) cable ≡ false)
        × (¬ Reach (feeds edges) cable.target cable.source))
unfolding check_power_connection
check_power-ok_iff connection edges = (to, from)
  where
    loop :
        (cable : Power.Connection)
        → (feeds_back (power_feeds edges) cable.target cable.source ≡ true)
          ↔ Reach (feeds edges) cable.target cable.source
    loop cable = (feeds_back_iff edges cable.target cable.source).1

    to :
        check_power_connection connection edges ≡ ConnectionCheck.ok
        → (cable : Power.Connection) × (normalize_power_connection connection ≡ some cable)
          × (socket_in_use (power_feeds edges) cable ≡ false)
          × (input_in_use (power_feeds edges) cable ≡ false)
          × (¬ Reach (feeds edges) cable.target cable.source)
    to h = elim (Option-cases (normalize_power_connection connection)) [
      | inl refused ↦ absurd (ground arith)
      | inr (cable, oriented) ↦
          (cable, oriented, ground arith, ground arith, λ r. ground (arith, (loop cable).1 r))
    ]

    from :
        (cable : Power.Connection) × (normalize_power_connection connection ≡ some cable)
          × (socket_in_use (power_feeds edges) cable ≡ false)
          × (input_in_use (power_feeds edges) cable ≡ false)
          × (¬ Reach (feeds edges) cable.target cable.source)
        → check_power_connection connection edges ≡ ConnectionCheck.ok
    from (cable, oriented, socket, input, apart) =
        let clear : feeds_back (power_feeds edges) cable.target cable.source ≡ false =
          not_true _ (λ l. apart ((loop cable).0 l)) in
        ground arith

-- An accepted power cable keeps the wiring free of power loops.
pub check_power-NoPowerLoop :
    (connection cable : Power.Connection) (edges : List LinkEnd)
    → normalize_power_connection connection ≡ some cable
    → check_power_connection connection edges ≡ ConnectionCheck.ok
    → NoPowerLoop edges
    → NoPowerLoop (edges ++ edge_of cable ∷ [])
check_power-NoPowerLoop connection cable edges oriented h clean a b l r =
    elim (feeds-snoc edges cable a b l) [
      | inl old ↦ elim split [
        | inl p ↦ clean a b old p
        | inr (p, q) ↦ apart (Reach-trans q (Reach-trans (along here old) p))
      ]
      | inr new ↦ elim split [
        | inl p ↦ apart (rw (← new.0, ← new.1) p)
        | inr (p, q) ↦ apart (rw (← new.1) p)
      ]
    ]
  where
    split :
        Reach (feeds edges) b a
        ⊎ (Reach (feeds edges) b cable.source × Reach (feeds edges) cable.target a)
    split = Reach-insert (feeds-snoc edges cable) r

    apart : ¬ Reach (feeds edges) cable.target cable.source
    apart =
        let (found, same, _, _, free) = (check_power-ok_iff connection edges).0 h in
        let e : found ≡ cable = ground arith in rw e at free
