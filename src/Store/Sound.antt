-- ===== src/Store/Sound.antt =====
-- builder-store.ts: every edit, Undo and Redo leave cards, devices and cables in step.
use homelab_builder.Base.{
  String, ◌≡◌, Bool, true, not, ◌&&◌, List, [], ◌∷◌, ◌++◌, arith, if◌then◌else◌, nat_eq, string_eq,
  all, keep, contains, contains-append, int_eq, whole,
}
use homelab_builder.Store.Canvas.Ids.{
  map-append, contains-keep, map-keep, joined-append, joined-keep,
}
use homelab_builder.Store.Canvas.{device_ids, AreWhole-snoc, AreWhole-last}
pub mod Nodes
pub mod Steps
pub mod Runs
mod Tests
use homelab_builder.Store.Canvas.{
  AreWhole-snoc, AreWhole-last, AreWhole, IsWhole, IsSound, node_ids,
}
use homelab_builder.Types.{HardwareNode}
use homelab_builder.Store.Links.{NewEdge, EdgeChange, removed_ids, NodeChange, ReactFlow}
use homelab_builder.Store.History.{canvas_of, history_limit, record_edit}
use homelab_builder.Store.State.{Edge, Node, BuilderState}

-- What the store relies on of @xyflow/react: a removal takes the node away and no other change touches an id,
-- and a cable of a result has the ends of one that was there, or of the new one.
pub record IsReactFlow (flow : ReactFlow) : Type 0 where
  pub nodes :
      (changes : List NodeChange) (nodes : List Node)
      → node_ids (flow.apply_node_changes changes nodes)
        ≡ keep (λ id. not (contains (removed_ids changes) id)) (node_ids nodes)
  pub edges :
      (changes : List EdgeChange) (edges : List Edge) (p : String → String → Bool)
      → all (λ e. p e.source e.target) edges ≡ true
      → all (λ e. p e.source e.target) (flow.apply_edge_changes changes edges) ≡ true
  pub added :
      (edge : NewEdge) (edges : List Edge) (p : String → String → Bool)
      → p edge.source edge.target ≡ true
      → all (λ e. p e.source e.target) edges ≡ true
      → all (λ e. p e.source e.target) (flow.add_edge edge edges) ≡ true

pub record_edit-IsSound : (s : BuilderState) → IsSound s → AreWhole (record_edit s).history_past
unfolding record_edit
record_edit-IsSound s h =
    AreWhole-last history_limit (s.history_past ++ canvas_of s ∷ [])
      (AreWhole-snoc s.history_past (canvas_of s) h.past h.canvas)

-- An edit that is recorded leaves a sound state, if it leaves a whole canvas.
pub IsSound-recorded :
    (s t : BuilderState)
    → IsSound s
    → t.history_past ≡ (record_edit s).history_past
    → t.history_future ≡ []
    → IsWhole t.nodes t.edges t.hardware_nodes
    → IsSound t
IsSound-recorded s t h past future canvas = record {
  canvas = canvas;
  past = rw past (record_edit-IsSound s h);
  future = rw future tt;
}

pub add-IsWhole :
    (nodes : List Node) (edges : List Edge) (devices : List HardwareNode) (node : Node)
    (device : HardwareNode)
    → node.id ≡ device.id
    → IsWhole nodes edges devices
    → IsWhole (nodes ++ node ∷ []) edges (devices ++ device ∷ [])
add-IsWhole nodes edges devices node device same h =
    let cards = map-append {A = Node} (λ n. n.id) nodes (node ∷ []) in
    record {
      same = λ a.
          rw (cards, map-append {A = HardwareNode} (λ n. n.id) devices (device ∷ []))
            (ground (
              arith,
              contains-append (node_ids nodes) (node.id ∷ []) a,
              contains-append (device_ids devices) (device.id ∷ []) a,
              h.same a,
              same,
            ));
      joined = rw cards (joined-append (node_ids nodes) (node.id ∷ []) edges h.joined);
    }

-- Taking the same ids off all three.
pub without-IsWhole :
    (gone : List String) (nodes : List Node) (edges : List Edge) (devices : List HardwareNode)
    → IsWhole nodes edges devices
    → IsWhole
        (keep (λ n. not (contains gone n.id)) nodes)
        (keep (λ e. not (contains gone e.source) && not (contains gone e.target)) edges)
        (keep (λ n. not (contains gone n.id)) devices)
without-IsWhole gone nodes edges devices h =
    let left : String → Bool = λ id. not (contains gone id) in
    let cards = map-keep {A = Node} (λ n. n.id) left nodes in
    record {
      same = λ a.
          rw (cards, map-keep {A = HardwareNode} (λ n. n.id) left devices)
            (ground (
              arith,
              contains-keep left (node_ids nodes) a,
              contains-keep left (device_ids devices) a,
              h.same a,
            ));
      joined = rw cards (joined-keep gone (node_ids nodes) edges h.joined);
    }
