-- ===== src/Store/Sound/Tests.antt =====
-- A run of edits on an empty project, with a canvas that only adds and removes.
use homelab_builder.Base.{
  String, ◌≡◌, refl, Bool, true, false, not, ◌||◌, some, List, [], ◌∷◌, ◌++◌, arith, ◌==◌, nat_eq,
  string_eq, all, keep, contains, int_eq,
}
use homelab_builder.Store.Samples.{empty, machine}
use homelab_builder.Hardware.{HardwareType-discrete}
use homelab_builder.Store.Sound.Runs.{Run-IsFit}
use Prim.{tt}
use homelab_builder.Power
use homelab_builder.Store.Project.{clear_current_build}
use homelab_builder.Store.Edits.{run_edit, add_device, connect}
use homelab_builder.Store.Sound.Steps.{aims}
use homelab_builder.Store.Sound.Runs.{IsFit, Run, started, next, edited, undone}
use homelab_builder.Store.Devices.{add_hardware, card_of, with_table}
use homelab_builder.Store.History.{undo, record_edit}
use homelab_builder.Hardware.{router, switch}
use homelab_builder.Store.State.{Edge}
use homelab_builder.Store.Sound.{BuilderState, Node, map-keep, IsReactFlow}
use homelab_builder.Store.Links.{chosen, cut, removed_ids, NewEdge, ReactFlow, EdgeChange}

abbrev drawn : NewEdge → Edge
drawn edge = record {
  id = "e";
  source = edge.source;
  target = edge.target;
  source_handle = edge.source_handle;
  target_handle = edge.target_handle;
  type = some edge.type;
  cable = some edge.cable;
}

abbrev is_cut_off : List EdgeChange → String → Bool
is_cut_off [] id = false
is_cut_off (cut gone ∷ changes) id = gone == id || is_cut_off changes id
is_cut_off (chosen other on ∷ changes) id = is_cut_off changes id

abbrev plain : ReactFlow
plain = record {
  apply_node_changes = λ changes nodes. keep (λ n. not (contains (removed_ids changes) n.id)) nodes;
  apply_edge_changes = λ changes edges. keep (λ e. not (is_cut_off changes e.id)) edges;
  add_edge = λ edge edges. edges ++ drawn edge ∷ [];
}

all-kept :
    (p q : Edge → Bool) (edges : List Edge) → all p edges ≡ true → all p (keep q edges) ≡ true
all-kept p q [] h = refl
all-kept p q (e ∷ edges) h = ground (arith, all-kept p q edges)

all-snoc :
    (p : Edge → Bool) (edges : List Edge) (e : Edge)
    → p e ≡ true
    → all p edges ≡ true
    → all p (edges ++ e ∷ []) ≡ true
all-snoc p [] e k h = ground arith
all-snoc p (a ∷ edges) e k h = ground (arith, all-snoc p edges e)

plain-IsReactFlow : IsReactFlow plain
plain-IsReactFlow = record {
  nodes = λ changes nodes.
      map-keep {A = Node} (λ n. n.id) (λ id. not (contains (removed_ids changes) id)) nodes;
  edges = λ changes edges p h.
      all-kept (λ e. p e.source e.target) (λ e. not (is_cut_off changes e.id)) edges h;
  added = λ edge edges p k h. all-snoc (λ e. p e.source e.target) edges (drawn edge) k h;
}

abbrev link : Power.Connection
link = record {
  source = "r";
  target = "s";
  source_handle = some "eth0";
  target_handle = some "target-0";
}

abbrev closed : BuilderState
closed = clear_current_build empty

closed-IsFit : IsFit closed
unfolding clear_current_build
closed-IsFit = (
  record { canvas = record { same = λ id. refl; joined = refl }; past = tt; future = tt },
  record { past = omega arith; future = omega arith },
)

abbrev routed : BuilderState
routed = run_edit plain (add_device (machine "r" router)) closed

abbrev switched : BuilderState
switched = run_edit plain (add_device (machine "s" switch)) routed

link-aims : aims (connect link) switched ≡ true
unfolding run_edit add_hardware card_of with_table record_edit clear_current_build
    HardwareType-discrete
link-aims = refl

-- Two devices, a cable between them, and Undo.
wired : Run plain closed (undo (run_edit plain (connect link) switched))
wired =
    next
      (next
        (next (next started (edited (add_device (machine "r" router)) refl refl))
          (edited (add_device (machine "s" switch)) refl refl))
        (edited (connect link) link-aims refl))
      (undone refl)

Run-IsFit_example : IsFit (undo (run_edit plain (connect link) switched))
Run-IsFit_example = Run-IsFit plain plain-IsReactFlow wired closed-IsFit
