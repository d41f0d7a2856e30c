-- ===== src/Store/Saving/Stored.antt =====
-- builder-store.ts: a build of the server that holds what a save sent, and its parts of the signature.
use homelab_builder.Store.Signature.Order.{text_le_antisym, text_le-IsPreorder}
use homelab_builder.Store.Loading.{Build, BuildNode, BuildEdge}
use homelab_builder.Types.{homelab, VirtualMachine}
use homelab_builder.Store.Signature.{
  text_le, guest_marks, guest_mark, stored_node_signature, stored_edge_mark, sent_node_signature,
  sent_edge_mark,
}
use homelab_builder.Store.Payload.{text_or, BuildData, SavedNode, SavedEdge}
use homelab_builder.Base.{
  sym, Reordered-map, ◌∙◌, refl, ap, Reordered-sort, ◌∷◌, some, or_else, false, concat, ◌≡◌, sort,
  [], ◌&&◌, map, Reordered, String, List, Bool, string_eq, nat_eq, int_eq,
}

-- A guest as the signature reads it.
abbrev pub guest_name : VirtualMachine → String × String
guest_name vm = (vm.id, vm.name)

-- Any two change places.
abbrev pub AnyTwo : {A : Type 0} → A → A → Type 0
AnyTwo a b = Unit

-- The server's node is the one that was sent, whatever address and details it calculated, with its
-- guests and parts in whatever order.
pub record IsStoredNode (sent : SavedNode) (stored : BuildNode) : Type 0 where
  pub id : stored.id ≡ sent.id
  pub type : some stored.type ≡ sent.type
  pub name : stored.name ≡ sent.name
  pub x : stored.x ≡ some sent.x
  pub y : stored.y ≡ some sent.y
  pub parent : text_or stored.parent_id "" ≡ text_or sent.parent_id ""
  pub guests :
      Reordered AnyTwo
        (map guest_name sent.vms)
        (map guest_name (or_else stored.virtual_machines []))
  pub parts :
      Reordered AnyTwo
        (map {B = String} (λ c. c.id) sent.internal_components)
        (map (λ c. c.id) (or_else stored.internal_components []))

pub record IsStoredEdge (sent : SavedEdge) (stored : BuildEdge) : Type 0 where
  pub source : stored.source_node_id ≡ sent.source
  pub target : stored.target_node_id ≡ sent.target
  pub source_handle : text_or stored.source_handle "" ≡ sent.source_handle
  pub target_handle : text_or stored.target_handle "" ≡ sent.target_handle
  pub type : stored.type ≡ some sent.type

pub data AreStoredNodes : List SavedNode → List BuildNode → Type 0 where
  no_nodes : AreStoredNodes [] []
  one_node :
      {n : SavedNode} {m : BuildNode} {sent : List SavedNode} {stored : List BuildNode}
      → IsStoredNode n m
      → AreStoredNodes sent stored
      → AreStoredNodes (n ∷ sent) (m ∷ stored)

pub data AreStoredEdges : List SavedEdge → List BuildEdge → Type 0 where
  no_edges : AreStoredEdges [] []
  one_edge :
      {e : SavedEdge} {f : BuildEdge} {sent : List SavedEdge} {stored : List BuildEdge}
      → IsStoredEdge e f
      → AreStoredEdges sent stored
      → AreStoredEdges (e ∷ sent) (f ∷ stored)

-- `localeCompare` tells the ids of two nodes apart.
abbrev pub TwoApart : (String → String → Bool) → BuildNode → BuildNode → Type 0
TwoApart locale_before a b = (locale_before a.id b.id && locale_before b.id a.id) ≡ false

-- The build holds what was sent, its edges in whatever order, and its nodes in whatever order, but that
-- two whose ids `localeCompare` does not tell apart stay in theirs.
pub record IsStored (locale_before : String → String → Bool) (payload : BuildData) (build : Build)
    : Type 0 where
  pub kind : or_else build.kind homelab ≡ payload.kind
  pub nodes_as_sent : List BuildNode
  pub nodes : AreStoredNodes payload.nodes nodes_as_sent
  pub nodes_order : Reordered (TwoApart locale_before) nodes_as_sent (or_else build.nodes [])
  pub edges_as_sent : List BuildEdge
  pub edges : AreStoredEdges payload.edges edges_as_sent
  pub edges_order : Reordered AnyTwo edges_as_sent (or_else build.edges [])

pub text_sort : {xs ys : List String} → Reordered AnyTwo xs ys → sort text_le xs ≡ sort text_le ys
text_sort r = Reordered-sort text_le text_le-IsPreorder (λ a b _. text_le_antisym a b) r

marks_of_names :
    (vms : List VirtualMachine)
    → map guest_mark vms ≡ map (λ g. concat g.0 (concat ":" g.1)) (map guest_name vms)
marks_of_names [] = refl
marks_of_names (vm ∷ vms) = ap (λ l. guest_mark vm ∷ l) (marks_of_names vms)

same_marks :
    (vms others : List VirtualMachine)
    → Reordered AnyTwo (map guest_name vms) (map guest_name others)
    → guest_marks vms ≡ guest_marks others
same_marks vms others r =
    let written : String × String → String = λ g. concat g.0 (concat ":" g.1) in
    ap (sort text_le) (marks_of_names vms)
    ∙ text_sort (Reordered-map written (λ a b c. c) r)
    ∙ ap (sort text_le) (sym (marks_of_names others))

node_signature-stored :
    (n : SavedNode) (m : BuildNode)
    → IsStoredNode n m
    → sent_node_signature n ≡ stored_node_signature m
unfolding sent_node_signature stored_node_signature
node_signature-stored n m h =
    rw
      (
        h.id,
        h.type,
        h.name,
        h.x,
        h.y,
        h.parent,
        same_marks n.vms (or_else m.virtual_machines []) h.guests,
        text_sort h.parts,
      )
      refl

edge_mark-stored :
    (e : SavedEdge) (f : BuildEdge) → IsStoredEdge e f → sent_edge_mark e ≡ stored_edge_mark f
unfolding sent_edge_mark stored_edge_mark
edge_mark-stored e f h = rw (h.source, h.target, h.source_handle, h.target_handle, h.type) refl

pub nodes-stored :
    (sent : List SavedNode) (stored : List BuildNode)
    → AreStoredNodes sent stored
    → map sent_node_signature sent ≡ map stored_node_signature stored
nodes-stored [] [] no_nodes = refl
nodes-stored [] (m ∷ stored) h = elim h [ ]
nodes-stored (n ∷ sent) [] h = elim h [ ]
nodes-stored (n ∷ sent) (m ∷ stored) (one_node h rest) =
    rw (node_signature-stored n m h, nodes-stored sent stored rest) refl

pub edges-stored :
    (sent : List SavedEdge) (stored : List BuildEdge)
    → AreStoredEdges sent stored
    → map sent_edge_mark sent ≡ map stored_edge_mark stored
edges-stored [] [] no_edges = refl
edges-stored [] (f ∷ stored) h = elim h [ ]
edges-stored (e ∷ sent) [] h = elim h [ ]
edges-stored (e ∷ sent) (f ∷ stored) (one_edge h rest) =
    rw (edge_mark-stored e f h, edges-stored sent stored rest) refl
