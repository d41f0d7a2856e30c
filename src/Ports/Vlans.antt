-- ===== src/Ports/Vlans.antt =====
-- port-config.ts: which VLANs a cable shows.
use homelab_builder.Power.{is_power_handle}
use homelab_builder.Ports.{
  both_carry, port_or, vlan_set, colored, shared_vlans, PortNode, cable_vlan,
}
use homelab_builder.Base.{
  some, none, refl, ap, arith, [], ◌||◌, ◌&&◌, false, ◌≡◌, ◌∷◌, true, keep, String, contains, Bool,
  ℕ, Option, List, string_eq, nat_eq, int_eq,
}

-- An end without VLANs lets every VLAN of the other end through; without any there is none.
abbrev pub both_let : Option (List ℕ) → Option (List ℕ) → ℕ → Bool
both_let none none id = false
both_let none (some ids) id = contains ids id
both_let (some ids) none id = contains ids id
both_let (some source_ids) (some target_ids) id = contains source_ids id && contains target_ids id

abbrev pub is_empty : List ℕ → Bool
is_empty [] = true
is_empty (id ∷ ids) = false

contains-kept :
    (p : ℕ → Bool) (xs : List ℕ) (a : ℕ) → contains (keep p xs) a ≡ (contains xs a && p a)
contains-kept p [] a = refl
contains-kept p (x ∷ xs) a = ground (arith, contains-kept p xs a, ap {A = ℕ} p)

shared_vlans-contains :
    (s t : Option (List ℕ)) (id : ℕ) → contains (shared_vlans s t) id ≡ both_let s t id
shared_vlans-contains none none id = refl
shared_vlans-contains none (some ids) id = refl
shared_vlans-contains (some ids) none id = refl
shared_vlans-contains (some ids) (some others) id = contains-kept (contains others) ids id

colored_fields :
    (source : Option PortNode) (source_port : String) (target : Option PortNode)
    (target_port : String) (mismatch : Bool) (ids : List ℕ)
    → let r = colored source source_port target target_port mismatch ids in
      (r.vlans ≡ ids) × (r.mismatch ≡ (mismatch && is_empty ids))
colored_fields source source_port target target_port mismatch [] = (refl, ground arith)
colored_fields source source_port target target_port mismatch (id ∷ ids) = (refl, ground arith)

-- A cable between two network ports shows exactly the VLANs that both ends carry, where an end without
-- VLANs carries what the other does; its ends mismatch exactly when both carry VLANs and it shows none.
pub cable_vlan-shows :
    (source : Option PortNode) (source_handle : Option String)
    → (target : Option PortNode) (target_handle : Option String) → (id : ℕ)
    → (is_power_handle source_handle || is_power_handle target_handle) ≡ false
    → let r = cable_vlan source source_handle target target_handle in
      let s = vlan_set source (port_or source_handle "eth0") in
      let t = vlan_set target (port_or target_handle "target-0") in
      (contains r.vlans id ≡ both_let s t id) × (r.mismatch ≡ (both_carry s t && is_empty r.vlans))
unfolding cable_vlan
cable_vlan-shows source source_handle target target_handle id network =
    let source_port = port_or source_handle "eth0" in
    let target_port = port_or target_handle "target-0" in
    let s = vlan_set source source_port in
    let t = vlan_set target target_port in
    let shown =
      colored_fields source source_port target target_port (both_carry s t) (shared_vlans s t) in
    rw (network, shown.0, shown.1) (shared_vlans-contains s t id, refl)
