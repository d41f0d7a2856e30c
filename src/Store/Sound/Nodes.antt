-- ===== src/Store/Sound/Nodes.antt =====
-- builder-store.ts: what React Flow reports of nodes leaves the canvas whole.
use homelab_builder.Base.{
  String, ◌≡◌, refl, sym, ap, ◌∙◌, inl, inr, Bool, true, false, not, List, [], ◌∷◌, arith, nat_eq,
  string_eq, Bool-cases, any, keep, contains, contains-add, int_eq,
}
use homelab_builder.Store.Canvas.{device_ids}
use homelab_builder.Store.Canvas.Ids.{
  contains-of_eq, contains-keep, joined-keep, keep-keep, ids-map, map-keep,
}
use homelab_builder.Types.{HardwareNode}
use homelab_builder.Store.Sound.{Edge, IsWhole, BuilderState, node_ids, Node, IsReactFlow}
use homelab_builder.Store.History.{record_edit, with_node_positions}
use homelab_builder.Store.Links.{
  is_drag_end, on_nodes_change, without_nodes, picked, resized, removed, moved, removed_ids,
  NodeChange, ReactFlow, has_removal, gone_with,
}

removed_ids-none :
    (changes : List NodeChange) → has_removal changes ≡ false → removed_ids changes ≡ []
unfolding has_removal
removed_ids-none [] h = refl
removed_ids-none (moved id to dragging ∷ changes) h = removed_ids-none changes h
removed_ids-none (removed id ∷ changes) h = absurd (ground arith)
removed_ids-none (resized id w k ∷ changes) h = removed_ids-none changes h
removed_ids-none (picked id on ∷ changes) h = removed_ids-none changes h

keep-all : (p : String → Bool) (xs : List String) → ((a : String) → p a ≡ true) → keep p xs ≡ xs
keep-all p [] h = refl
keep-all p (x ∷ xs) h = rw (h x) (ap (◌∷◌ x) (keep-all p xs h))

contains-gone_with :
    (devices : List HardwareNode) (gone : List String) (id : String)
    → contains gone id ≡ true
    → contains (gone_with devices gone) id ≡ true
unfolding gone_with
contains-gone_with [] gone id h = h
contains-gone_with (d ∷ devices) gone id h =
    contains-gone_with devices _ id (ground (arith, contains-add gone d.id id))

pub with_node_positions-ids :
    (devices : List HardwareNode) (nodes : List Node)
    → device_ids (with_node_positions devices nodes) ≡ device_ids devices
unfolding with_node_positions
with_node_positions-ids devices nodes =
    ids-map {A = HardwareNode} (λ n. n.id) _ (λ n. ground arith) devices

pub placed-IsWhole :
    (nodes : List Node) (edges : List Edge) (devices : List HardwareNode) (positions : List Node)
    → IsWhole nodes edges devices
    → IsWhole nodes edges (with_node_positions devices positions)
placed-IsWhole nodes edges devices positions h = record {
  same = λ a. h.same a ∙ contains-of_eq _ _ (sym (with_node_positions-ids devices positions)) a;
  joined = h.joined;
}

-- Other cards of the same ids.
pub cards-IsWhole :
    (nodes others : List Node) (edges : List Edge) (devices : List HardwareNode)
    → node_ids others ≡ node_ids nodes
    → IsWhole nodes edges devices
    → IsWhole others edges devices
cards-IsWhole nodes others edges devices e h = record {
  same = λ a. contains-of_eq _ _ e a ∙ h.same a;
  joined = rw e h.joined;
}

kept-same :
    (p : String → Bool) (xs ys : List String)
    → ((a : String) → contains xs a ≡ contains ys a)
    → (a : String) → contains (keep p xs) a ≡ contains (keep p ys) a
kept-same p xs ys h a = ground (arith, contains-keep p xs a, contains-keep p ys a, h a)

module _ (flow : ReactFlow) (laws : IsReactFlow flow) where
  applied-ids :
      (changes : List NodeChange) (nodes : List Node)
      → has_removal changes ≡ false
      → node_ids (flow.apply_node_changes changes nodes) ≡ node_ids nodes
  applied-ids changes nodes h =
      laws.nodes changes nodes
      ∙ rw (removed_ids-none changes h) (keep-all _ (node_ids nodes) (λ a. refl))

  -- A report that takes nodes away: what sat in a removed rack goes with it.
  without_nodes-IsWhole :
      (s t : BuilderState) (changes : List NodeChange) (gone : List String)
      → ((id : String) → contains (removed_ids changes) id ≡ true → contains gone id ≡ true)
      → node_ids t.nodes ≡ keep (λ id. not (contains (removed_ids changes) id)) (node_ids s.nodes)
      → t.edges ≡ s.edges
      → t.hardware_nodes ≡ s.hardware_nodes
      → IsWhole s.nodes s.edges s.hardware_nodes
      → IsWhole
          (without_nodes t gone).nodes
          (without_nodes t gone).edges
          (without_nodes t gone).hardware_nodes
  unfolding without_nodes
  without_nodes-IsWhole s t changes gone more nodes edges devices h =
      let left : String → Bool = λ id. not (contains gone id) in
      let cards : node_ids (keep (λ n. not (contains gone n.id)) t.nodes)
          ≡ keep left (node_ids s.nodes) =
        map-keep {A = Node} (λ n. n.id) left t.nodes
        ∙ ap (keep left) nodes
        ∙ keep-keep left (λ id. not (contains (removed_ids changes) id)) (node_ids s.nodes)
            (λ a kept. ground (arith, more a)) in
      record {
        same = λ a.
            contains-of_eq _ _ cards a
            ∙ kept-same left (node_ids s.nodes) (device_ids s.hardware_nodes) h.same a
            ∙ contains-of_eq _ _
                (sym (map-keep {A = HardwareNode} (λ n. n.id) left s.hardware_nodes)
                  ∙ ap (λ ds. device_ids (keep (λ n. not (contains gone n.id)) ds)) (sym devices))
                a;
        joined = rw (cards, edges) (joined-keep gone (node_ids s.nodes) s.edges h.joined);
      }

  -- What is left after a removal.
  abbrev left_after : BuilderState → List NodeChange → BuilderState
  left_after s changes =
      without_nodes (record (record_edit s) { nodes = flow.apply_node_changes changes s.nodes })
        (gone_with s.hardware_nodes (removed_ids changes))

  dropped-IsWhole :
      (s : BuilderState) (changes : List NodeChange)
      → IsWhole s.nodes s.edges s.hardware_nodes
      → IsWhole
          (left_after s changes).nodes
          (left_after s changes).edges
          (left_after s changes).hardware_nodes
  unfolding record_edit
  dropped-IsWhole s changes h =
      without_nodes-IsWhole s _ changes _
        (λ id. contains-gone_with s.hardware_nodes (removed_ids changes) id)
        (laws.nodes changes s.nodes) refl refl h

  pub on_nodes_change-IsWhole :
      (s : BuilderState) (changes : List NodeChange)
      → IsWhole s.nodes s.edges s.hardware_nodes
      → IsWhole
          (on_nodes_change flow s changes).nodes
          (on_nodes_change flow s changes).edges
          (on_nodes_change flow s changes).hardware_nodes
  unfolding on_nodes_change record_edit
  on_nodes_change-IsWhole s changes h = elim (Bool-cases (has_removal changes)) [
    | inl away ↦ elim (Bool-cases (any is_drag_end changes)) [
      | inl end ↦ rw (away, end) (placed-IsWhole _ _ _ _ (dropped-IsWhole s changes h))
      | inr still ↦ rw (away, still) (dropped-IsWhole s changes h)
    ]
    | inr stay ↦ elim (Bool-cases (any is_drag_end changes)) [
      | inl end ↦
          rw (stay, end)
            (placed-IsWhole _ _ _ _
              (cards-IsWhole s.nodes _ _ _ (applied-ids changes s.nodes stay) h))
      | inr still ↦
          rw (stay, still) (cards-IsWhole s.nodes _ _ _ (applied-ids changes s.nodes stay) h)
    ]
  ]
