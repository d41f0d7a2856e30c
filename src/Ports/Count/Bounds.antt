-- ===== src/Ports/Count/Bounds.antt =====
-- port-config.ts: the bounds of a port count, and that neither a cabled port nor stale settings are left.
use homelab_builder.Power.{is_power_handle}
use homelab_builder.Ports.{PortNode, null, max_ports, field, field_in, as_record}
use homelab_builder.Types.{num, obj, end, Json, Fields}
use homelab_builder.Ports.Count.{
  or_empty, with_port_count, ports_granted, edge_highest, eth_index, is_kept_port, cabled_index,
  with_config, set_field, higher, delete_field, highest_cabled_port, after_highest, CableEnds,
  kept_ports,
}
use homelab_builder.Base.{
  ◌∙◌, whole, ℤ, if◌then◌else◌, false, ap, and-true, Option-cases, [], inr, inl, ◌&&◌, refl, none,
  leb, all, Bool-cases, ◌∷◌, ltb, ==_self, ◌||◌, some, min, arith, ◌≤◌, ◌≡◌, true, List, Bool, ℕ,
  String, Option, string_eq, nat_eq, int_eq,
}

-- The port, if an end is in one, exists among so many ports; ports from the limit on never do.
abbrev pub port_exists : ℕ → Option ℕ → Bool
port_exists count none = true
port_exists count (some index) = ltb index count || leb max_ports index

-- Of a network cable, every port that it takes on the node exists.
unfoldable pub cable_fits : String → ℕ → CableEnds → Bool
cable_fits node_id count edge =
    is_power_handle edge.source_handle
    || is_power_handle edge.target_handle
    || port_exists count (cabled_index node_id edge.source edge.source_handle)
      && port_exists count (cabled_index node_id edge.target edge.target_handle)

-- Every port that has settings exists.
abbrev pub all_kept : ℕ → Fields → Bool
all_kept count end = true
all_kept count (field handle settings fields) =
    is_kept_port count (eth_index handle) && all_kept count fields

abbrev pub config_kept : ℕ → Option Fields → Bool
config_kept count none = true
config_kept count (some config) = all_kept count config

unfoldable pub settings_fit : ℕ → Fields → Bool
settings_fit count details = config_kept count (as_record (field_in details "port_config"))

higher-left : (h o : Option ℕ) → after_highest h ≤ after_highest (higher h o)
higher-left none none = omega arith
higher-left none (some n) = omega arith
higher-left (some m) none = omega arith
higher-left (some m) (some n) = omega arith

higher-right : (h o : Option ℕ) → after_highest o ≤ after_highest (higher h o)
higher-right none none = omega arith
higher-right (some m) none = omega arith
higher-right none (some n) = omega arith
higher-right (some m) (some n) = omega arith

port_exists-granted :
    (count least : ℕ) (o : Option ℕ)
    → after_highest o ≤ least
    → min max_ports least ≤ count
    → port_exists count o ≡ true
port_exists-granted count least none h k = refl
port_exists-granted count least (some n) h k = ground arith

ends-fit :
    (count : ℕ) (h s t : Option ℕ)
    → min max_ports (after_highest (higher (higher h s) t)) ≤ count
    → (port_exists count s && port_exists count t) ≡ true
ends-fit count h s t k =
    let all_ends = after_highest (higher (higher h s) t) in
    and-true (port_exists count s) (port_exists count t)
      (port_exists-granted count all_ends s
        (omega (arith, higher-right h s, higher-left (higher h s) t)) k)
      (port_exists-granted count all_ends t (higher-right (higher h s) t) k)

-- Of a choice that goes one way, what holds of it holds of that.
network_edge-bound :
    (power : Bool) (count : ℕ) (h next : Option ℕ)
    → power ≡ false
    → min max_ports (after_highest (if power then h else next)) ≤ count
    → min max_ports (after_highest next) ≤ count
network_edge-bound true count h next e k = absurd (ground arith)
network_edge-bound false count h next e k = k

module _ (node_id : String) where
  edge-grows :
      (h : Option ℕ) (edge : CableEnds)
      → after_highest h ≤ after_highest (edge_highest node_id h edge)
  unfolding edge_highest
  edge-grows h edge =
      let s = cabled_index node_id edge.source edge.source_handle in
      let t = cabled_index node_id edge.target edge.target_handle in
      elim (Bool-cases (is_power_handle edge.source_handle || is_power_handle edge.target_handle)) [
        | inl e ↦ rw (e) (omega arith)
        | inr e ↦ rw (e) (omega (arith, higher-left h s, higher-left (higher h s) t))
      ]

  edge-fits :
      (count : ℕ) (h : Option ℕ) (edge : CableEnds)
      → min max_ports (after_highest (edge_highest node_id h edge)) ≤ count
      → cable_fits node_id count edge ≡ true
  unfolding edge_highest cable_fits
  edge-fits count h edge k =
      let s = cabled_index node_id edge.source edge.source_handle in
      let t = cabled_index node_id edge.target edge.target_handle in
      elim (Bool-cases (is_power_handle edge.source_handle || is_power_handle edge.target_handle)) [
        | inl e ↦ rw (e) refl
        | inr e ↦ rw (e) (
            ends-fit count h s t (
              network_edge-bound
                (is_power_handle edge.source_handle || is_power_handle edge.target_handle) count h
                (higher (higher h s) t) e k))
      ]

  highest-grows :
      (h : Option ℕ) (edges : List CableEnds)
      → after_highest h ≤ after_highest (highest_cabled_port node_id h edges)
  unfolding highest_cabled_port
  highest-grows h [] = omega arith
  highest-grows h (edge ∷ edges) =
      omega (arith, edge-grows h edge, highest-grows (edge_highest node_id h edge) edges)

  cables-fit :
      (count : ℕ) (h : Option ℕ) (edges : List CableEnds)
      → min max_ports (after_highest (highest_cabled_port node_id h edges)) ≤ count
      → all (cable_fits node_id count) edges ≡ true
  unfolding highest_cabled_port
  cables-fit count h [] k = refl
  cables-fit count h (edge ∷ edges) k =
      and-true (cable_fits node_id count edge) (all (cable_fits node_id count) edges)
        (edge-fits count h edge
          (omega (arith, k, highest-grows (edge_highest node_id h edge) edges)))
        (cables-fit count (edge_highest node_id h edge) edges k)

kept_ports-kept : (count : ℕ) (fields : Fields) → all_kept count (kept_ports count fields) ≡ true
unfolding kept_ports
kept_ports-kept count end = refl
kept_ports-kept count (field handle settings fields) = ground (arith, kept_ports-kept count fields)

field_in-set :
    (key : String) (value : Json) (fields : Fields)
    → field_in (set_field key value fields) key ≡ value
field_in-set key value end = ground (arith, ==_self {A = String} key)
field_in-set key value (field k old fields) =
    ground (arith, field_in-set key value fields, ==_self {A = String} key)

field_in-delete : (key : String) (fields : Fields) → field_in (delete_field key fields) key ≡ null
field_in-delete key end = refl
field_in-delete key (field k value fields) = ground (arith, field_in-delete key fields)

settings_fit-of :
    (count : ℕ) (details : Fields) (config : Option Fields)
    → as_record (field_in details "port_config") ≡ config
    → config_kept count config ≡ true
    → settings_fit count details ≡ true
unfolding settings_fit
settings_fit-of count details config e h = ap (config_kept count) e ∙ h

with_config-fits :
    (count : ℕ) (config details : Fields)
    → all_kept count config ≡ true
    → settings_fit count (with_config config details) ≡ true
with_config-fits count end details h =
    settings_fit-of count (delete_field "port_config" details) none
      (ap as_record (field_in-delete "port_config" details)) refl
with_config-fits count (field handle settings config) details h =
    settings_fit-of count (set_field "port_config" (obj (field handle settings config)) details)
      (some (field handle settings config))
      (ap as_record (field_in-set "port_config" (obj (field handle settings config)) details)) h

new_details-fit :
    (count : ℕ) (details : Fields)
    → settings_fit count (elim (as_record (field_in details "port_config")) [
      | none ↦ details
      | some config ↦ with_config (kept_ports count config) details
    ])
      ≡ true
new_details-fit count details = elim (Option-cases (as_record (field_in details "port_config"))) [
  | inl e ↦ rw (e) (settings_fit-of count details none e refl)
  | inr (config, e) ↦
      rw (e)
        (with_config-fits count (kept_ports count config) details (kept_ports-kept count config))
]

granted-bounds :
    (node_id : String) (edges : List CableEnds) (requested : Option ℤ)
    → let count = ports_granted node_id edges requested in
      (1 ≤ count)
      × (count ≤ 96)
      × (min max_ports (after_highest (highest_cabled_port node_id none edges)) ≤ count)
unfolding ports_granted
granted-bounds node_id edges requested = (omega arith, omega arith, omega arith)

-- A device is given from 1 to 96 ports, whatever is requested; every port below 96 that a network cable
-- takes on it exists, and no settings are left of a port that does not.
pub with_port_count-fits :
    (node_id : String) (node : PortNode) (edges : List CableEnds) (requested : Option ℤ)
    → let r = with_port_count node_id node edges requested in
      (1 ≤ r.count)
      × (r.count ≤ 96)
      × (all (cable_fits node_id r.count) edges ≡ true)
      × (settings_fit r.count r.details ≡ true)
unfolding with_port_count
with_port_count-fits node_id node edges requested =
    let count = ports_granted node_id edges requested in
    let bounds = granted-bounds node_id edges requested in
    (
      bounds.0,
      bounds.1,
      cables-fit node_id count none edges bounds.2,
      new_details-fit count
          (set_field "ports" (num (whole count)) (or_empty (as_record node.details))),
    )
