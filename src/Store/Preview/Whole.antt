-- ===== src/Store/Preview/Whole.antt =====
-- proposal-preview.ts: the graph of a preview is a whole canvas.
use homelab_builder.Types.{get}
use homelab_builder.Store.Loading.{nonempty}
use homelab_builder.Store.Canvas.Ids.{joins, map-append}
use homelab_builder.Store.Canvas.{node_ids}
use homelab_builder.Store.State.{Snapshot, Node, Edge}
use homelab_builder.Store.Preview.{
  revealed_edge, lifted, revealed_node, float_from, node_status, edge_status, removed, is_ghost,
  edge_key, preview_edge, link_key, is_rack_card, ghost_edge, DiffStatus, marked_ids, are_visible,
  ProposalDiff, MarkedEdge, with_cable_ends, preview_nodes, preview_edges, parents_first, mark,
  floated, MarkedNode,
}
use homelab_builder.Base.{
  none, is_some?, false, if◌then◌else◌, ==_self, all-keep, ◌∙◌, refl, contains-append, and-true,
  not, inr, both-second, [], ◌||◌, some, inl, both-first, arith, ap, Bool-cases, ◌∷◌, ◌++◌, map,
  keep, insert, add, true, Option-cases, Option, ◌≡◌, contains, all, sort, String, List, Bool,
  string_eq, nat_eq, int_eq,
}

contains-filtered :
    (p : MarkedNode → Bool) (nodes : List MarkedNode) (a : String)
    → (contains (marked_ids (keep p nodes)) a
        || contains (marked_ids (keep (λ n. not (p n)) nodes)) a)
      ≡ contains (marked_ids nodes) a
contains-filtered p [] a = refl
contains-filtered p (n ∷ nodes) a = ground (arith, contains-filtered p nodes a)

parents_first-ids :
    (nodes : List MarkedNode) (a : String)
    → contains (marked_ids (parents_first nodes)) a ≡ contains (marked_ids nodes) a
unfolding parents_first
parents_first-ids nodes a =
    rw
      (map-append {A = MarkedNode} (λ n. n.node.id) (keep is_rack_card nodes)
        (keep (λ n. not (is_rack_card n)) nodes))
      (contains-append (marked_ids (keep is_rack_card nodes))
          (marked_ids (keep (λ n. not (is_rack_card n)) nodes)) a
        ∙ contains-filtered is_rack_card nodes a)

marked_ids-mark :
    (live : List Node) (status : Node → Option DiffStatus) (nodes : List Node)
    → marked_ids (map (λ n. mark live n (status n)) nodes) ≡ node_ids nodes
unfolding mark
marked_ids-mark live status [] = refl
marked_ids-mark live status (n ∷ nodes) = ap (λ ids. n.id ∷ ids) (marked_ids-mark live status nodes)

either-id :
    (b : Bool) (g h : MarkedNode) → h.node.id ≡ g.node.id → (if b then g else h).node.id ≡ g.node.id
either-id true g h e = refl
either-id false g h e = e

float_from-id :
    (live : List Node) (proposed_ids ghost_ids : List String) (g : MarkedNode)
    (parent : Option String)
    → (float_from live proposed_ids ghost_ids g parent).node.id ≡ g.node.id
float_from-id live proposed_ids ghost_ids g none = refl
float_from-id live proposed_ids ghost_ids g (some rack_id) =
    either-id (contains proposed_ids rack_id || contains ghost_ids rack_id) g
      (lifted live rack_id g) refl

floated-id :
    (live : List Node) (proposed_ids ghost_ids : List String) (g : MarkedNode)
    → (floated live proposed_ids ghost_ids g).node.id ≡ g.node.id
unfolding floated
floated-id live proposed_ids ghost_ids g =
    float_from-id live proposed_ids ghost_ids g (nonempty g.node.parent_id)

marked_ids-floated :
    (live : List Node) (proposed_ids ghost_ids : List String) (nodes : List Node)
    → marked_ids (map (λ n. floated live proposed_ids ghost_ids (mark live n (some removed))) nodes)
      ≡ node_ids nodes
unfolding mark
marked_ids-floated live proposed_ids ghost_ids [] = refl
marked_ids-floated live proposed_ids ghost_ids (n ∷ nodes) =
    rw
      (
        floated-id live proposed_ids ghost_ids (mark live n (some removed)),
        marked_ids-floated live proposed_ids ghost_ids nodes,
      )
      refl

-- What is seen: the proposed cards and the ghosts.
pub preview_nodes-ids :
    (diff : ProposalDiff) (proposed live : Snapshot) (a : String)
    → contains (marked_ids (preview_nodes diff proposed live)) a ≡ (
        contains (node_ids proposed.nodes) a
        || contains
            (node_ids
              (keep (λ n. is_ghost diff.nodes_removed (node_ids proposed.nodes) n.id) live.nodes))
            a)
unfolding preview_nodes
preview_nodes-ids diff proposed live a =
    let proposed_ids = node_ids proposed.nodes in
    let ghosts = keep (λ n. is_ghost diff.nodes_removed proposed_ids n.id) live.nodes in
    let first = map (λ n. mark live.nodes n (get (node_status diff) n.id)) proposed.nodes in
    let second =
      map
        (λ n. floated live.nodes proposed_ids (node_ids ghosts) (mark live.nodes n (some removed)))
        ghosts in
    parents_first-ids (first ++ second) a
    ∙ ap (λ ids. contains ids a) (map-append {A = MarkedNode} (λ n. n.node.id) first second)
    ∙ contains-append (marked_ids first) (marked_ids second) a
    ∙ rw
        (
          marked_ids-mark live.nodes (λ n. get (node_status diff) n.id) proposed.nodes,
          marked_ids-floated live.nodes proposed_ids (node_ids ghosts) ghosts,
        )
        refl

all-keep_implied {ℓ} :
    {A : Type ℓ} (p q : A → Bool) (xs : List A) → all p xs ≡ true → all p (keep q xs) ≡ true
all-keep_implied p q [] h = refl
all-keep_implied p q (x ∷ xs) h = ground (arith, all-keep_implied p q xs)

all-append {ℓ} :
    {A : Type ℓ} (p : A → Bool) (xs ys : List A)
    → all p xs ≡ true
    → all p ys ≡ true
    → all p (xs ++ ys) ≡ true
all-append p [] ys h k = k
all-append p (x ∷ xs) ys h k = ground (arith, all-append p xs ys)

all-insert {ℓ} :
    {A : Type ℓ} (before : A → A → Bool) (p : A → Bool) (a : A) (xs : List A)
    → p a ≡ true
    → all p xs ≡ true
    → all p (insert before a xs) ≡ true
all-insert before p a [] h k = ground arith
all-insert before p a (x ∷ xs) h k = ground (arith, all-insert before p a xs)

all-sort {ℓ} :
    {A : Type ℓ} (before : A → A → Bool) (p : A → Bool) (xs : List A)
    → all p xs ≡ true
    → all p (sort before xs) ≡ true
unfolding sort
all-sort before p [] h = refl
all-sort before p (x ∷ xs) h =
    all-insert before p x (sort before xs) (both-first (p x) (all p xs) h)
      (all-sort before p xs (both-second (p x) (all p xs) h))

-- The ends of a marked cable are seen.
abbrev pub ends_seen : List String → MarkedEdge → Bool
ends_seen ids e = are_visible ids e.edge

seen-preview :
    (ids : List String) (status : Edge → Option DiffStatus) (edges : List Edge)
    → all (are_visible ids) edges ≡ true
    → all (ends_seen ids) (map (λ e. preview_edge (status e) e) edges) ≡ true
seen-preview ids status [] h = refl
seen-preview ids status (e ∷ edges) h = ground (arith, seen-preview ids status edges)

seen-ghosts :
    (ids : List String) (edges : List Edge)
    → all (are_visible ids) edges ≡ true
    → all (ends_seen ids) (map ghost_edge edges) ≡ true
seen-ghosts ids [] h = refl
seen-ghosts ids (e ∷ edges) h = ground (arith, seen-ghosts ids edges)

pub preview_edges-seen :
    (diff : ProposalDiff) (ids : List String) (proposed live : List Edge)
    → all (ends_seen ids) (preview_edges diff ids proposed live) ≡ true
unfolding preview_edges
preview_edges-seen diff ids proposed live =
    let gone = keep (λ e. contains (map link_key diff.connections_removed) (edge_key e)) live in
    all-append (ends_seen ids)
      (map (λ e. preview_edge (get (edge_status diff) (edge_key e)) e)
        (keep (are_visible ids) proposed))
      (map ghost_edge (keep (are_visible ids) gone))
      (seen-preview ids (λ e. get (edge_status diff) (edge_key e)) (keep (are_visible ids) proposed)
        (all-keep (are_visible ids) proposed))
      (seen-ghosts ids (keep (are_visible ids) gone) (all-keep (are_visible ids) gone))

all-add :
    (p : String → Bool) (xs : List String) (a : String)
    → all p xs ≡ true
    → p a ≡ true
    → all p (add xs a) ≡ true
all-add p xs a h k = elim (Bool-cases (contains xs a)) [
  | inl e ↦ rw (e) h
  | inr e ↦ rw (e) (all-append p xs (a ∷ []) h (and-true (p a) true k refl))
]

pub with_cable_ends-seen :
    (seen ids : List String) (edges : List MarkedEdge)
    → all (contains seen) ids ≡ true
    → all (ends_seen seen) edges ≡ true
    → all (contains seen) (with_cable_ends ids edges) ≡ true
unfolding with_cable_ends
with_cable_ends-seen seen ids [] h k = h
with_cable_ends-seen seen ids (e ∷ edges) h k =
    let this = both-first (ends_seen seen e) (all (ends_seen seen) edges) k in
    let others = both-second (ends_seen seen e) (all (ends_seen seen) edges) k in
    elim (Option-cases e.status) [
      | inl f ↦ rw (f) (with_cable_ends-seen seen ids edges h others)
      | inr (status, f) ↦ rw (f) (
          with_cable_ends-seen seen (add (add ids e.edge.source) e.edge.target) edges
            (all-add (contains seen) (add ids e.edge.source) e.edge.target
              (all-add (contains seen) ids e.edge.source h
                (both-first (contains seen e.edge.source) (contains seen e.edge.target) this))
              (both-second (contains seen e.edge.source) (contains seen e.edge.target) this))
            others)
    ]

pub revealed-ids :
    (changed_ids : List String) (nodes : List MarkedNode)
    → node_ids (map {B = Node} (λ n. n.node) (map (revealed_node changed_ids) nodes))
      ≡ marked_ids nodes
revealed-ids changed_ids [] = refl
revealed-ids changed_ids (n ∷ nodes) = ap (λ ids. n.node.id ∷ ids) (revealed-ids changed_ids nodes)

revealed_edge-seen :
    (ids changed_ids : List String) (e : MarkedEdge)
    → joins ids (revealed_edge changed_ids e).edge ≡ ends_seen ids e
revealed_edge-seen ids changed_ids e = elim (Bool-cases (is_some? e.status)) [
  | inl f ↦ rw (f) refl
  | inr f ↦ rw (f) refl
]

pub revealed-joined :
    (ids changed_ids : List String) (edges : List MarkedEdge)
    → all (ends_seen ids) edges ≡ true
    → all (joins ids) (map {B = Edge} (λ e. e.edge) (map (revealed_edge changed_ids) edges)) ≡ true
revealed-joined ids changed_ids [] h = refl
revealed-joined ids changed_ids (e ∷ edges) h = rw (revealed_edge-seen ids changed_ids e) (
    and-true (ends_seen ids e) _ (both-first (ends_seen ids e) (all (ends_seen ids) edges) h) (
      revealed-joined ids changed_ids edges
        (both-second (ends_seen ids e) (all (ends_seen ids) edges) h)))

members-seen :
    (nodes more : List MarkedNode)
    → ((a : String) → contains (marked_ids more) a ≡ true → contains (marked_ids nodes) a ≡ true)
    → all (λ n. contains (marked_ids nodes) n.node.id) more ≡ true
members-seen nodes [] h = refl
members-seen nodes (n ∷ more) h =
    rw (h n.node.id (ground (arith, ==_self {A = String} n.node.id)))
      (members-seen nodes more (λ a m. h a (ground arith)))

all-ids :
    (p : String → Bool) (nodes : List MarkedNode)
    → all (λ n. p n.node.id) nodes ≡ true
    → all p (marked_ids nodes) ≡ true
all-ids p [] h = refl
all-ids p (n ∷ nodes) h = ground (arith, all-ids p nodes)

-- The changed cards are seen.
pub changed-seen :
    (before : MarkedNode → MarkedNode → Bool) (p : MarkedNode → Bool) (nodes : List MarkedNode)
    → all (contains (marked_ids nodes)) (marked_ids (sort before (keep p nodes))) ≡ true
changed-seen before p nodes = all-ids (contains (marked_ids nodes)) (sort before (keep p nodes)) (
    all-sort before (λ n. contains (marked_ids nodes) n.node.id) (keep p nodes)
      (all-keep_implied (λ n. contains (marked_ids nodes) n.node.id) p nodes
        (members-seen nodes nodes (λ a m. m))))
