-- ===== src/Virtual.antt =====
-- frontend/src/features/builder/lib: the virtual network of a host (virtual-network.ts), the identity of
-- a copied device (hardware-instance.ts), and frontend/src/lib/asset-link.ts.
pub mod Reach
mod Tests
use homelab_builder.Base.{
  ◌>>=◌, zero, ◌==◌, ◌++◌, suc, ℕ, ◌+◌, String, not, ◌&&◌, Option, none, some, List, [], ◌∷◌, map,
  if◌then◌else◌, nat_eq, string_eq, is_some?, or_else, length, keep, contains, int_eq, whole,
  concat,
}
use homelab_builder.Types.{
  str, Json, VirtualNetwork, VirtualEdge, VirtualMachine, HardwareNode, HardwareSpec,
  HardwareComponent, Dict, get, put, spread, without, Point,
}

abbrev pub uplink_id : String
uplink_id = "uplink"

unfoldable pub initial_virtual_network : HardwareNode → VirtualNetwork
initial_virtual_network host = record {
  switches = record { id = "bridge-0"; name = "vmbr0"; x = whole 280; y = whole 180 } ∷ [];
  positions = [];
  edges =
      record { id = "uplink-bridge"; source = uplink_id; target = "bridge-0" }
      ∷ map {B = VirtualEdge}
          (λ vm. record { id = concat "bridge-" vm.id; source = "bridge-0"; target = vm.id })
          (or_else host.vms []);
}

-- The set of what is reached, and the part of the queue that is still to come.
pub record Progress : Type 0 where
  pub reached : List String
  pub queue : List String

-- The end of an edge that is not the current one, if the edge is at it; the empty text counts as none.
abbrev pub next_of : String → VirtualEdge → Option String
next_of current edge =
    let next =
      if edge.source == current
      then edge.target
      else if edge.target == current
      then edge.source
      else "" in
    if next == "" then none else some next

-- A VM is an endpoint: only a switch joins the queue.
abbrev pub meet : List String → Option String → Progress → Progress
meet switches none p = p
meet switches (some next) p = if contains p.reached next then p else record {
  reached = p.reached ++ next ∷ [];
  queue = if contains switches next then p.queue ++ next ∷ [] else p.queue;
}

-- The loop over the edges, at one element of the queue.
unfoldable pub visit : List String → String → List VirtualEdge → Progress → Progress
visit switches current [] p = p
visit switches current (edge ∷ edges) p =
    visit switches current edges (meet switches (next_of current edge) p)

-- The loop over the queue. `none` means that the fuel ran out.
unfoldable pub reach_from :
    List String → List VirtualEdge → ℕ → List String → List String → Option (List String)
reach_from switches edges zero reached queue = none
reach_from switches edges (suc fuel) reached [] = some reached
reach_from switches edges (suc fuel) reached (current ∷ queue) =
    let p = visit switches current edges (record { reached = reached; queue = queue }) in
    reach_from switches edges fuel p.reached p.queue

abbrev pub switch_ids : VirtualNetwork → List String
switch_ids network = map (λ node. node.id) network.switches

-- What the uplink reaches. Each round takes from the queue, which a switch joins once.
unfoldable pub connected_virtual_machines : VirtualNetwork → Option (List String)
connected_virtual_machines network =
    let switches = switch_ids network in
    reach_from switches network.edges (length switches + 2) (uplink_id ∷ []) (uplink_id ∷ [])

-- `ids.get(id) ?? id`
abbrev pub remap : Dict String → String → String
remap ids id = or_else (get ids id) id

unfoldable pub remap_virtual_endpoints : VirtualNetwork → Dict String → VirtualNetwork
remap_virtual_endpoints network ids = record {
  switches = network.switches;
  positions = spread [] (map {B = String × Point} (λ p. (remap ids p.0, p.1)) network.positions);
  edges =
      map {B = VirtualEdge}
        (λ edge. record edge { source = remap ids edge.source; target = remap ids edge.target })
        network.edges;
}

unfoldable pub remove_virtual_endpoints : VirtualNetwork → List String → VirtualNetwork
remove_virtual_endpoints network ids = record {
  switches = keep (λ node. not (contains ids node.id)) network.switches;
  positions = keep (λ p. not (contains ids p.0)) network.positions;
  edges =
      keep (λ edge. not (contains ids edge.source) && not (contains ids edge.target)) network.edges;
}

abbrev pub asset_detail_keys : List String
asset_detail_keys =
    "inventory_item_id" ∷ "inventory_label" ∷ "inventory_quantity" ∷ "proxmox_node" ∷ []

abbrev filled_text : Option Json → Option String
filled_text (some (str id)) = if id == "" then none else some id
filled_text _ = none

-- The inventory item that a device or component stands for.
unfoldable pub asset_id_of : Option HardwareSpec → Option String
asset_id_of details = filled_text (details >>= (λ d. get d.other "inventory_item_id"))

abbrev with_key : String → Option Json → Dict Json → Dict Json
with_key key none link = link
with_key key (some value) link = (key, value) ∷ link

abbrev taken_keys : Dict Json → List String → Dict Json
taken_keys source [] = []
taken_keys source (key ∷ keys) = with_key key (get source key) (taken_keys source keys)

-- Only the link, in the order of its keys.
unfoldable pub asset_link_of : Option HardwareSpec → Dict Json
asset_link_of none = []
asset_link_of (some details) = taken_keys details.other asset_detail_keys

-- The same details without the link to a physical machine.
unfoldable pub without_asset_link : HardwareSpec → HardwareSpec
without_asset_link details = record details { other = without asset_detail_keys details.other }

-- `randomUUID` is the argument `fresh`: its n-th call gives `fresh n`.
unfoldable pub fresh_vms : (ℕ → String) → ℕ → List VirtualMachine → List VirtualMachine
fresh_vms fresh n [] = []
fresh_vms fresh n (vm ∷ vms) = record vm { id = fresh n } ∷ fresh_vms fresh (n + 1) vms

-- The new id of each old one; the first guest with an id counts.
unfoldable pub fresh_ids : (ℕ → String) → ℕ → Dict String → List VirtualMachine → Dict String
fresh_ids fresh n ids [] = ids
fresh_ids fresh n ids (vm ∷ vms) =
    fresh_ids fresh (n + 1) (if is_some? (get ids vm.id) then ids else put ids vm.id (fresh n)) vms

unfoldable pub fresh_components : (ℕ → String) → ℕ → List HardwareComponent → List HardwareComponent
fresh_components fresh n [] = []
fresh_components fresh n (part ∷ parts) =
    record part { id = fresh n } ∷ fresh_components fresh (n + 1) parts

abbrev remapped : HardwareSpec → Dict String → HardwareSpec
remapped details ids = elim details.virtual_network [
  | none ↦ details
  | some network ↦ record details { virtual_network = some (remap_virtual_endpoints network ids) }
]

-- `...(network ? { details: … } : {})`
abbrev remapped? : Option HardwareSpec → Dict String → Option HardwareSpec
remapped? none ids = none
remapped? (some details) ids = some (remapped details ids)

-- Every placed device gets guests and parts with ids of their own.
unfoldable pub with_fresh_child_ids : (ℕ → String) → ℕ → HardwareNode → HardwareNode
with_fresh_child_ids fresh n node =
    let old = or_else node.vms [] in
    record node {
      vms = some (fresh_vms fresh n old);
      internal_components =
          some (fresh_components fresh (n + length old) (or_else node.internal_components []));
      details = remapped? node.details (fresh_ids fresh n [] old);
    }
