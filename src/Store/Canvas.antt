-- ===== src/Store/Canvas.antt =====
-- builder-store.ts: the canvas and the device list describe one thing, and how the helpers keep it so.
use homelab_builder.Base.{
  ℕ, zero, suc, ◌-◌, String, ◌≡◌, sym, ◌∙◌, inl, inr, true, none, List, [], ◌∷◌, ◌++◌, map, arith,
  if◌then◌else◌, ◌==◌, nat_eq, string_eq, Option-cases, length, all, keep, find, take, drop,
  contains, int_eq, whole,
}
use homelab_builder.Store.Canvas.Ids.{contains-of_eq}
use Prim.{tt}
pub mod Ids
use homelab_builder.Store.Canvas.Ids.{device_ids-change_first, joins, ids-map}
use homelab_builder.Types.{HardwareNode}
use homelab_builder.Store.History.{with_card, last, change_device}
use homelab_builder.Store.State.{Edge, HardwarePatch, Snapshot, Node, BuilderState}

abbrev pub node_ids : List Node → List String
node_ids nodes = map (λ n. n.id) nodes

abbrev pub device_ids : List HardwareNode → List String
device_ids devices = map (λ n. n.id) devices

-- Cards and devices have the same ids, and every cable runs between two cards.
pub record IsWhole (nodes : List Node) (edges : List Edge) (devices : List HardwareNode)
    : Type 0 where
  pub same : (id : String) → contains (node_ids nodes) id ≡ contains (device_ids devices) id
  pub joined : all (joins (node_ids nodes)) edges ≡ true

abbrev pub IsWholeStep : Snapshot → Type 0
IsWholeStep snap = IsWhole snap.nodes snap.edges snap.hardware_nodes

-- The same of every step of a stack.
abbrev pub AreWhole : List Snapshot → Type 0
AreWhole [] = Unit
AreWhole (snap ∷ steps) = IsWholeStep snap × AreWhole steps

-- The canvas, and every canvas that Undo and Redo can bring back, is whole.
pub record IsSound (s : BuilderState) : Type 0 where
  pub canvas : IsWhole s.nodes s.edges s.hardware_nodes
  pub past : AreWhole s.history_past
  pub future : AreWhole s.history_future

pub AreWhole-snoc :
    (steps : List Snapshot) (snap : Snapshot)
    → AreWhole steps
    → IsWholeStep snap
    → AreWhole (steps ++ snap ∷ [])
AreWhole-snoc [] snap h k = (k, h)
AreWhole-snoc (a ∷ steps) snap h k = (h.0, AreWhole-snoc steps snap h.1 k)

AreWhole-drop : (n : ℕ) (steps : List Snapshot) → AreWhole steps → AreWhole (drop n steps)
AreWhole-drop zero steps h = h
AreWhole-drop (suc n) [] h = h
AreWhole-drop (suc n) (a ∷ steps) h = AreWhole-drop n steps h.1

pub AreWhole-last : (n : ℕ) (steps : List Snapshot) → AreWhole steps → AreWhole (last n steps)
AreWhole-last n steps h = AreWhole-drop (length steps - n) steps h

pub AreWhole-take : (n : ℕ) (steps : List Snapshot) → AreWhole steps → AreWhole (take n steps)
AreWhole-take zero steps h = tt
AreWhole-take (suc n) [] h = h
AreWhole-take (suc n) (a ∷ steps) h = (h.0, AreWhole-take n steps h.1)

pub change_device-IsWhole :
    (s : BuilderState) (id : String) (change : HardwareNode → HardwarePatch)
    → ((device : HardwareNode) → (change device).id ≡ none)
    → IsWhole s.nodes s.edges s.hardware_nodes
    → IsWhole
        (change_device s id change).nodes
        (change_device s id change).edges
        (change_device s id change).hardware_nodes
unfolding change_device
change_device-IsWhole s id change same h =
    elim (Option-cases (find (λ node. node.id == id) s.hardware_nodes)) [
      | inl missing ↦ rw (missing, change_device) h
      | inr (device, at) ↦
          let cards =
            ids-map {A = Node} (λ n. n.id)
              (λ node. if node.id == id then with_card node (change device) else node)
              (λ n. ground arith) s.nodes in
          rw (at, change_device)
            (record {
              same = λ a.
                  contains-of_eq _ _ cards a
                  ∙ h.same a
                  ∙ sym (
                      contains-of_eq _ _
                        (device_ids-change_first id (change device) (same device) s.hardware_nodes)
                        a);
              joined = rw cards h.joined;
            })
    ]
