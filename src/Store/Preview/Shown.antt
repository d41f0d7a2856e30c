-- ===== src/Store/Preview/Shown.antt =====
-- proposal-preview.ts: what a preview shows of a proposal and of the canvas that it is made for.
use homelab_builder.Store.Preview.Whole.{
  revealed-ids, changed-seen, with_cable_ends-seen, revealed-joined, preview_nodes-ids,
  preview_edges-seen,
}
use homelab_builder.Store.Canvas.Ids.{map-append, contains-keep, map-keep}
use homelab_builder.Store.Loading.Loaded.{loaded_device-ids, racks_first-ids, build_ids}
use homelab_builder.Store.Canvas.{IsWhole, node_ids, device_ids, IsWholeStep}
use homelab_builder.Store.State.{Snapshot, Node}
use homelab_builder.Store.Preview.{
  revealed_node, MarkedNode, reveals_before, preview_edges, preview_nodes, marked_ids, is_ghost,
  proposed_graph, Proposal, build_proposal_preview,
}
use homelab_builder.Store.Loading.{
  racks_first, loaded_device, BuildNode, Build, map_build_to_flow, loaded_node,
}
use homelab_builder.Types.{HardwareNode, HardwareSpec}
use homelab_builder.Base.{
  contains-append, ◌++◌, none, is_some?, sym, sort, ◌∙◌, ◌∷◌, [], or_else, ap, all, some, map, keep,
  refl, true, contains, false, ◌≡◌, List, ◌&&◌, ◌||◌, Option, String, Bool, string_eq, nat_eq,
  int_eq,
}

bool_same : (p l g : Bool) → (p || (l && g)) ≡ (p || (l && (l && g)))
bool_same true l g = refl
bool_same false true g = refl
bool_same false false g = refl

module _ (parse_json : String → Option HardwareSpec) (locale_before : String → String → Bool) where
  loaded_nodes-ids :
      (devices : List HardwareNode) (nodes : List BuildNode)
      → node_ids (map (loaded_node parse_json devices) nodes) ≡ build_ids nodes
  unfolding loaded_node
  loaded_nodes-ids devices [] = refl
  loaded_nodes-ids devices (n ∷ nodes) = ap (λ ids. n.id ∷ ids) (loaded_nodes-ids devices nodes)

  proposed_graph-same :
      (build : Option Build) (a : String)
      → let flow = proposed_graph parse_json locale_before build in
        contains (node_ids flow.nodes) a ≡ contains (device_ids flow.hardware_nodes) a
  unfolding map_build_to_flow
  proposed_graph-same none a = refl
  proposed_graph-same (some build) a =
      let sent = or_else build.nodes [] in
      ap (λ ids. contains ids a)
        (loaded_nodes-ids (map (loaded_device parse_json) sent) (racks_first sent))
      ∙ racks_first-ids sent a
      ∙ ap (λ ids. contains ids a) (sym (loaded_device-ids parse_json (λ payload. "") sent))

  ghosts-ids :
      (removed_ids proposed_ids : List String) (live : List Node) (a : String)
      → contains (node_ids (keep (λ n. is_ghost removed_ids proposed_ids n.id) live)) a
        ≡ (contains (node_ids live) a && is_ghost removed_ids proposed_ids a)
  ghosts-ids removed_ids proposed_ids live a =
      ap (λ ids. contains ids a)
        (map-keep {A = Node} (λ n. n.id) (is_ghost removed_ids proposed_ids) live)
      ∙ contains-keep (is_ghost removed_ids proposed_ids) (node_ids live) a

  ghost_devices-ids :
      (ghost_ids : List String) (live : List HardwareNode) (a : String)
      → contains (device_ids (keep (λ d. contains ghost_ids d.id) live)) a
        ≡ (contains (device_ids live) a && contains ghost_ids a)
  ghost_devices-ids ghost_ids live a =
      ap (λ ids. contains ids a) (map-keep {A = HardwareNode} (λ n. n.id) (contains ghost_ids) live)
      ∙ contains-keep (contains ghost_ids) (device_ids live) a

  -- Both sides of a preview name the same ids.
  preview-same :
      (proposed live : Snapshot) (ghost_ids removed_ids changed_ids : List String)
      (nodes : List MarkedNode) (a : String)
      → ghost_ids
        ≡ node_ids (keep (λ n. is_ghost removed_ids (node_ids proposed.nodes) n.id) live.nodes)
      → contains (marked_ids nodes) a ≡ (
          contains (node_ids proposed.nodes) a
          || contains
              (node_ids
                (keep (λ n. is_ghost removed_ids (node_ids proposed.nodes) n.id) live.nodes))
              a)
      → contains (node_ids proposed.nodes) a ≡ contains (device_ids proposed.hardware_nodes) a
      → contains (node_ids live.nodes) a ≡ contains (device_ids live.hardware_nodes) a
      → contains (node_ids (map {B = Node} (λ n. n.node) (map (revealed_node changed_ids) nodes))) a
        ≡ contains
            (device_ids
              (proposed.hardware_nodes ++ keep (λ d. contains ghost_ids d.id) live.hardware_nodes))
            a
  preview-same proposed live ghost_ids removed_ids changed_ids nodes a ghosts shown same_proposed
        same_live =
      let kept = keep (λ d. contains ghost_ids d.id) live.hardware_nodes in
      let p = contains (node_ids proposed.nodes) a in
      let l = contains (node_ids live.nodes) a in
      let g = is_ghost removed_ids (node_ids proposed.nodes) a in
      let named =
        ap (λ ids. contains ids a) ghosts
        ∙ ghosts-ids removed_ids (node_ids proposed.nodes) live.nodes a in
      let pd = contains (device_ids proposed.hardware_nodes) a in
      let ld = contains (device_ids live.hardware_nodes) a in
      let devices =
        ap (λ ids. contains ids a)
          (map-append {A = HardwareNode} (λ n. n.id) proposed.hardware_nodes kept)
        ∙ contains-append (device_ids proposed.hardware_nodes) (device_ids kept) a
        ∙ ap (λ x. pd || x) (ghost_devices-ids ghost_ids live.hardware_nodes a) in
      ap (λ ids. contains ids a) (revealed-ids changed_ids nodes)
      ∙ shown
      ∙ ap (λ x. p || x) (ghosts-ids removed_ids (node_ids proposed.nodes) live.nodes a)
      ∙ bool_same p l g
      ∙ ap (λ x. p || (l && x)) (sym named)
      ∙ ap (λ x. x || (l && contains ghost_ids a)) same_proposed
      ∙ ap (λ x. pd || (x && contains ghost_ids a)) same_live
      ∙ sym devices

  revealed_ids :
      (changed_ids : List String) (nodes : List MarkedNode)
      → marked_ids (map (revealed_node changed_ids) nodes) ≡ marked_ids nodes
  revealed_ids changed_ids [] = refl
  revealed_ids changed_ids (n ∷ nodes) =
      ap (λ ids. n.node.id ∷ ids) (revealed_ids changed_ids nodes)

  -- The preview of any proposal on a whole canvas is a whole canvas: cards and devices have the same ids,
  -- and every cable joins two cards that are shown; and every card that it brings into view is shown.
  pub build_proposal_preview-IsWhole :
      (proposal : Proposal) (live : Snapshot)
      → IsWholeStep live
      → let g = build_proposal_preview parse_json locale_before proposal live in
        IsWhole (map (λ n. n.node) g.nodes) (map (λ e. e.edge) g.edges) g.hardware_nodes
        × (all (contains (marked_ids g.nodes)) g.changed_node_ids ≡ true)
  unfolding build_proposal_preview
  build_proposal_preview-IsWhole proposal live whole =
      let diff = proposal.diff in
      let proposed = proposed_graph parse_json locale_before proposal.build in
      let nodes = preview_nodes diff proposed live in
      let edges = preview_edges diff (marked_ids nodes) proposed.edges live.edges in
      let before = reveals_before locale_before nodes in
      let changed_ids = marked_ids (sort before (keep (λ n. is_some? n.status) nodes)) in
      let ghost_ids =
        node_ids
          (keep (λ n. is_ghost diff.nodes_removed (node_ids proposed.nodes) n.id) live.nodes) in
      let kept = keep (λ d. contains ghost_ids d.id) live.hardware_nodes in
      let seen = preview_edges-seen diff (marked_ids nodes) proposed.edges live.edges in
      (
        record {
          same = λ a.
              preview-same proposed live ghost_ids diff.nodes_removed changed_ids nodes a refl
                (preview_nodes-ids diff proposed live a) (proposed_graph-same proposal.build a)
                (whole.same a);
          joined =
              rw (revealed-ids changed_ids nodes)
                (revealed-joined (marked_ids nodes) changed_ids edges seen);
        },
        rw (revealed_ids changed_ids nodes) (
            with_cable_ends-seen (marked_ids nodes) changed_ids edges
              (changed-seen before (λ n. is_some? n.status) nodes) seen),
      )
