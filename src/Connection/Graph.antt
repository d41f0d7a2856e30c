-- ===== src/Connection/Graph.antt =====
-- The adjacency that the loop search walks holds exactly the network cables.
use homelab_builder.Base.{
  String, ◌≡◌, ◌⊎◌, inl, inr, Bool, true, not, ◌&&◌, ◌||◌, Option, none, some, List, [], ◌∷◌, arith,
  ◌==◌, nat_eq, string_eq, ==_iff, ==_self, is?, Bool-cases, Option-cases, any, contains, add,
  contains-add, int_eq,
}
use homelab_builder.Connection.{
  ends_of, LinkEnd, present, is_power_edge, neighbors, ensure, add_neighbor, link, add_edge,
  adjacency_from,
}
use homelab_builder.Types.{Dict}
use homelab_builder.Types.Lookup.{get-put}

-- Whether the edge is a network cable between these two devices, in either direction.
abbrev pub joins : LinkEnd → String → String → Bool
joins edge a b =
    not (is_power_edge edge)
    && ((is? (present edge.source) a && is? (present edge.target) b)
        || (is? (present edge.source) b && is? (present edge.target) a))

-- Whether some network cable joins two devices.
abbrev pub linked : List LinkEnd → String → String → Bool
linked edges a b = any (λ edge. joins edge a b) edges

neighbors-ensure :
    (adjacency : Dict (List String)) (a j : String)
    → neighbors (ensure adjacency a) j ≡ neighbors adjacency j
unfolding neighbors ensure
neighbors-ensure adjacency a j = ground (arith, ==_iff a j, get-put adjacency a j [])

contains-add_neighbor :
    (adjacency : Dict (List String)) (a b j k : String)
    → contains (neighbors (add_neighbor adjacency a b) j) k
      ≡ (contains (neighbors adjacency j) k || (a == j && b == k))
unfolding neighbors add_neighbor
contains-add_neighbor adjacency a b j k = elim (Bool-cases (a == j)) [
  | inl same ↦
      let e : a ≡ j = (==_iff a j).0 same in
      rw (get-put adjacency a j (add (neighbors adjacency a) b), same)
        (ground (arith, contains-add (neighbors adjacency a) b k))
  | inr other ↦ rw (get-put adjacency a j (add (neighbors adjacency a) b), other) (ground arith)
]

contains-link :
    (adjacency : Dict (List String)) (a b j k : String)
    → contains (neighbors (link adjacency a b) j) k
      ≡ (contains (neighbors adjacency j) k || (a == j && b == k) || (b == j && a == k))
contains-link adjacency a b j k =
    rw
      (
        contains-add_neighbor (add_neighbor (ensure (ensure adjacency a) b) a b) b a j k,
        contains-add_neighbor (ensure (ensure adjacency a) b) a b j k,
        neighbors-ensure (ensure adjacency a) b j,
        neighbors-ensure adjacency a j,
      )
      (ground arith)

contains-add_edge :
    (adjacency : Dict (List String)) (edge : LinkEnd) (a b : String)
    → contains (neighbors (add_edge adjacency edge) a) b
      ≡ (contains (neighbors adjacency a) b || joins edge a b)
unfolding add_edge
contains-add_edge adjacency edge a b = elim (Bool-cases (is_power_edge edge)) [
  | inl power ↦ rw power (ground arith)
  | inr network ↦ elim (Option-cases (present edge.source)) [
    | inl no_source ↦ rw (network, no_source) (ground arith)
    | inr (s, at_s) ↦ elim (Option-cases (present edge.target)) [
      | inl no_target ↦ rw (network, at_s, no_target) (ground arith)
      | inr (t, at_t) ↦ rw (network, at_s, at_t) (ground (arith, contains-link adjacency s t a b))
    ]
  ]
]

contains-adjacency_from :
    (adjacency : Dict (List String)) (edges : List LinkEnd) (a b : String)
    → contains (neighbors (adjacency_from adjacency edges) a) b
      ≡ (contains (neighbors adjacency a) b || linked edges a b)
unfolding adjacency_from
contains-adjacency_from adjacency [] a b = ground arith
contains-adjacency_from adjacency (edge ∷ edges) a b = ground (
  arith,
  contains-adjacency_from (add_edge adjacency edge) edges a b,
  contains-add_edge adjacency edge a b,
)

-- The neighbours of a device are those that a network cable joins to it.
pub contains-adjacency :
    (edges : List LinkEnd) (a b : String)
    → contains (neighbors (adjacency_from [] edges) a) b ≡ linked edges a b
unfolding neighbors
contains-adjacency edges a b = contains-adjacency_from [] edges a b

pub present-eq : (end : Option String) (b : String) → is? (present end) b ≡ true → end ≡ some b
present-eq none b h = cc
present-eq (some id) b h = ground (arith, ==_iff id "", ==_iff id b)

joins-ends :
    (edge : LinkEnd) (a b : String)
    → joins edge a b ≡ true
    → (edge.source ≡ some b) ⊎ (edge.target ≡ some b)
joins-ends edge a b h = elim (Bool-cases (is? (present edge.source) b)) [
  | inl at_source ↦ inl (present-eq edge.source b at_source)
  | inr elsewhere ↦ inr (present-eq edge.target b (ground arith))
]

pub contains-ends :
    (edge : LinkEnd) (edges : List LinkEnd) (b : String)
    → (edge.source ≡ some b) ⊎ (edge.target ≡ some b)
    → contains (ends_of (edge ∷ edges)) b ≡ true
unfolding ends_of
contains-ends edge edges b (inl at_source) = rw (at_source, ==_self b)
contains-ends edge edges b (inr at_target) = rw (at_target, ==_self b) (ground arith)

pub contains-ends_rest :
    (edge : LinkEnd) (edges : List LinkEnd) (b : String)
    → contains (ends_of edges) b ≡ true
    → contains (ends_of (edge ∷ edges)) b ≡ true
unfolding ends_of
contains-ends_rest edge edges b h = rw h (ground arith)

pub linked-ends :
    (edges : List LinkEnd) (a b : String)
    → linked edges a b ≡ true
    → contains (ends_of edges) b ≡ true
linked-ends [] a b h = cc
linked-ends (edge ∷ edges) a b h = elim (Bool-cases (joins edge a b)) [
  | inl joined ↦ contains-ends edge edges b (joins-ends edge a b joined)
  | inr apart ↦ contains-ends_rest edge edges b (linked-ends edges a b (rw apart at h))
]
