-- ===== src/Store/Payload/Sent.antt =====
-- builder-store.ts: what of the canvas a save sends.
use homelab_builder.Base.{
  String, ◌≡◌, refl, ap, true, ◌&&◌, List, [], ◌∷◌, map, arith, nat_eq, string_eq, all, keep-true,
  contains, int_eq,
}
use homelab_builder.Store.Canvas.Ids.{joins}
use homelab_builder.Store.Canvas.{IsWhole, node_ids, device_ids}
use homelab_builder.Types.{HardwareNode}
use homelab_builder.Store.State.{Node, Edge, BuilderState}
use homelab_builder.Store.Payload.{
  SavedEdge, device_by_id, SavedNode, saved_edge, saved_node, get_build_data,
}

sent_ids :
    (devices : List HardwareNode) (nodes : List Node)
    → map {A = SavedNode}
        (λ n. n.id)
        (map {A = Node} {B = SavedNode} (λ n. saved_node (device_by_id devices n.id) n) nodes)
      ≡ node_ids nodes
unfolding saved_node
sent_ids devices [] = refl
sent_ids devices (n ∷ nodes) = ap (◌∷◌ n.id) (sent_ids devices nodes)

all-sent :
    (ids : List String) (edges : List Edge)
    → all (joins ids) edges ≡ true
    → all {A = SavedEdge}
        (λ e. contains ids e.source && contains ids e.target)
        (map {A = Edge} {B = SavedEdge} saved_edge edges)
      ≡ true
unfolding saved_edge
all-sent ids [] h = refl
all-sent ids (e ∷ edges) h = ground (arith, all-sent ids edges)

-- Of a whole canvas a save sends every card in its order, so every device, and every cable: none is
-- filtered out.
pub get_build_data-IsWhole :
    (s : BuilderState)
    → IsWhole s.nodes s.edges s.hardware_nodes
    → (map {A = SavedNode} (λ n. n.id) (get_build_data s).nodes ≡ node_ids s.nodes)
      × ((id : String)
          → contains (map {A = SavedNode} (λ n. n.id) (get_build_data s).nodes) id
            ≡ contains (device_ids s.hardware_nodes) id)
      × ((get_build_data s).edges ≡ map {A = Edge} {B = SavedEdge} saved_edge s.edges)
unfolding get_build_data
get_build_data-IsWhole s h =
    let ids = sent_ids s.hardware_nodes s.nodes in
    (
      ids,
      λ id. rw ids (h.same id),
      rw ids (
          keep-true _ (map {A = Edge} {B = SavedEdge} saved_edge s.edges)
            (all-sent (node_ids s.nodes) s.edges h.joined)),
    )
