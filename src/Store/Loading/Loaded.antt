-- ===== src/Store/Loading/Loaded.antt =====
-- builder-store.ts and build-mapper.ts: what a build that was loaded is like.
use homelab_builder.Base.{
  String, ◌≡◌, refl, ap, ◌∙◌, Bool, true, false, not, ◌||◌, Option, List, [], ◌∷◌, map, arith,
  if◌then◌else◌, ◌==◌, nat_eq, string_eq, ==_self, or_else, all, keep, contains, contains-append,
  int_eq,
}
use homelab_builder.Hardware.{type_eq}
use Prim.{tt}
use homelab_builder.Store.Payload.{get_build_data, BuildData}
use homelab_builder.Store.Loading.{
  rack, Build, BuildNode, BuildEdge, load_build, has_unsaved_changes, map_build_to_flow,
  racks_first, loaded_node, loaded_edge, loaded_device, keep_measured, is_open,
}
use homelab_builder.Store.State.{BuilderState, Node, Edge}
use homelab_builder.Store.Canvas.{node_ids, device_ids}
use homelab_builder.Store.Canvas.Ids.{both, joins, map-append}
use homelab_builder.Store.Sound.Runs.{IsFit}
use homelab_builder.Types.{HardwareNode, HardwareSpec}

abbrev pub build_ids : List BuildNode → List String
build_ids nodes = map (λ n. n.id) nodes

-- Every edge of a build joins two of its nodes.
abbrev pub IsJoined : Build → Type 0
IsJoined build =
    all {A = BuildEdge}
      (λ e. both (build_ids (or_else build.nodes [])) e.source_node_id e.target_node_id)
      (or_else build.edges [])
    ≡ true

contains-filter :
    (p : BuildNode → Bool) (nodes : List BuildNode) (a : String)
    → (contains (build_ids (keep p nodes)) a
        || contains (build_ids (keep (λ n. not (p n)) nodes)) a)
      ≡ contains (build_ids nodes) a
contains-filter p [] a = refl
contains-filter p (n ∷ nodes) a = ground (arith, contains-filter p nodes a)

pub racks_first-ids :
    (nodes : List BuildNode) (a : String)
    → contains (build_ids (racks_first nodes)) a ≡ contains (build_ids nodes) a
unfolding racks_first
racks_first-ids nodes a =
    let racks = keep (λ n. n.type == rack) nodes in
    let others = keep (λ n. not (n.type == rack)) nodes in
    rw (map-append {A = BuildNode} (λ n. n.id) racks others) (
      contains-append (build_ids racks) (build_ids others) a
      ∙ contains-filter (λ n. n.type == rack) nodes a)

clean_bit : (is_open : Bool) (a : String) → (if is_open then not (a == a) else false) ≡ false
clean_bit true a = rw (==_self a)
clean_bit false a = refl

module _ (parse_json : String → Option HardwareSpec) (fingerprint : BuildData → String) where
  pub loaded_device-ids :
      (nodes : List BuildNode) → device_ids (map (loaded_device parse_json) nodes) ≡ build_ids nodes
  unfolding loaded_device
  loaded_device-ids [] = refl
  loaded_device-ids (n ∷ nodes) = ap (◌∷◌ n.id) (loaded_device-ids nodes)

  loaded_node-ids :
      (devices : List HardwareNode) (previous : List Node) (nodes : List BuildNode)
      → node_ids (map (keep_measured previous) (map (loaded_node parse_json devices) nodes))
        ≡ build_ids nodes
  unfolding keep_measured loaded_node
  loaded_node-ids devices previous [] = refl
  loaded_node-ids devices previous (n ∷ nodes) =
      ground (arith, loaded_node-ids devices previous nodes)

  loaded_edge-joined :
      (ids : List String) (edges : List BuildEdge)
      → all {A = BuildEdge} (λ e. both ids e.source_node_id e.target_node_id) edges ≡ true
      → all (joins ids) (map (loaded_edge parse_json) edges) ≡ true
  unfolding loaded_edge
  loaded_edge-joined ids [] h = refl
  loaded_edge-joined ids (e ∷ edges) h = ground (arith, loaded_edge-joined ids edges)

  all-joins_of_same :
      (xs ys : List String) (edges : List Edge)
      → ((a : String) → contains xs a ≡ contains ys a)
      → all (joins ys) edges ≡ true
      → all (joins xs) edges ≡ true
  all-joins_of_same xs ys [] e h = refl
  all-joins_of_same xs ys (edge ∷ edges) e h =
      ground (arith, all-joins_of_same xs ys edges e, e edge.source, e edge.target)

  -- A build that was just loaded has no unsaved changes.
  pub load_build-clean :
      (s : BuilderState) (id name : String) (build : Build)
      → has_unsaved_changes parse_json fingerprint
          (load_build parse_json fingerprint s id name build)
        ≡ false
  unfolding has_unsaved_changes load_build get_build_data
  load_build-clean s id name build =
      let loaded = load_build parse_json fingerprint s id name build in
      clean_bit (is_open loaded) (fingerprint (get_build_data loaded))

  -- A build whose edges join its nodes loads as a fit state: cards and devices have the same ids, every cable
  -- joins two cards, and there is nothing to undo or to redo.
  pub load_build-IsFit :
      (s : BuilderState) (id name : String) (build : Build)
      → IsJoined build
      → IsFit (load_build parse_json fingerprint s id name build)
  unfolding load_build map_build_to_flow
  load_build-IsFit s id name build joined =
      let sent = or_else build.nodes [] in
      let loaded = load_build parse_json fingerprint s id name build in
      let cards : (a : String) → contains (node_ids loaded.nodes) a ≡ contains (build_ids sent) a =
        λ a.
          rw (loaded_node-ids loaded.hardware_nodes _ (racks_first sent))
            (racks_first-ids sent a) in
      (
        record {
          canvas = record {
            same = λ a. rw (loaded_device-ids sent) (cards a);
            joined =
                all-joins_of_same _ _ _ cards
                  (loaded_edge-joined (build_ids sent) (or_else build.edges []) joined);
          };
          past = tt;
          future = tt;
        },
        record { past = omega arith; future = omega arith },
      )
