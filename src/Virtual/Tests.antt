-- ===== src/Virtual/Tests.antt =====
-- virtual-network.ts: a host with two bridges, of which the uplink reaches one.
use homelab_builder.Virtual.Reach.{connected_virtual_machines-ends, IsComplete}
use homelab_builder.Virtual.{switch_ids, uplink_id, visit, reach_from, connected_virtual_machines}
use homelab_builder.Types.{VirtualEdge, VirtualNetwork}
use homelab_builder.Base.{refl, [], ◌∷◌, some, ◌≡◌, pos, String, List, string_eq, nat_eq, int_eq}

abbrev link : String → String → VirtualEdge
link source target = record { id = source; source = source; target = target }

abbrev bridges : VirtualNetwork
bridges = record {
  switches =
      record { id = "b0"; name = "vmbr0"; x = pos 0; y = pos 0 }
      ∷ record { id = "b1"; name = "vmbr1"; x = pos 0; y = pos 0 }
      ∷ [];
  positions = [];
  edges = link "v1" "b0" ∷ link uplink_id "b0" ∷ link "v1" "b1" ∷ link "b1" "v2" ∷ [];
}

-- A VM does not forward, so the second bridge stays apart.
reaches_one : connected_virtual_machines bridges ≡ some (uplink_id ∷ "b0" ∷ "v1" ∷ [])
unfolding connected_virtual_machines reach_from visit
reaches_one = refl

connected_virtual_machines-ends_example :
    (result : List String) × (connected_virtual_machines bridges ≡ some result)
    × IsComplete (switch_ids bridges) bridges.edges (uplink_id ∷ []) result
connected_virtual_machines-ends_example = connected_virtual_machines-ends bridges
