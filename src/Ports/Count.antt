-- ===== src/Ports/Count.antt =====
-- port-config.ts: how many ports a device has, and what that leaves of its settings.
pub mod Bounds
use homelab_builder.Power.{is_power_handle}
use homelab_builder.Ports.{field_in, max_ports, as_record, PortNode}
use homelab_builder.Types.{obj, num, field, end, Json, Fields}
use homelab_builder.Text.{number_from, all_digits, codes, strip}
use homelab_builder.Base.{
  not, [], ◌||◌, whole, negsuc, min, ltb, ◌∷◌, ◌==◌, ◌/◌, ◌+◌, true, none, max, is?, some, pos,
  if◌then◌else◌, List, Bool, ℤ, ℕ, String, Option, string_eq, nat_eq, int_eq,
}

pub record CableEnds : Type 0 where
  pub source : Option String
  pub target : Option String
  pub source_handle : Option String
  pub target_handle : Option String

-- `/^eth(\d+)$/`
abbrev eth_rest : Option (List ℕ) → Option ℕ
eth_rest none = none
eth_rest (some []) = none
eth_rest (some (c ∷ digits)) =
    if all_digits (c ∷ digits) then some (number_from 0 (c ∷ digits)) else none

unfoldable pub eth_index : String → Option ℕ
unfolding strip
eth_index handle = eth_rest (strip (codes "eth") (codes handle))

abbrev handle_index : Option String → Option ℕ
handle_index none = none
handle_index (some handle) = eth_index handle

-- The number of the port that an end of a cable is in, on the node.
abbrev pub cabled_index : String → Option String → Option String → Option ℕ
cabled_index node_id end_id handle = if is? end_id node_id then handle_index handle else none

-- `Math.max(highest, n)`, where none is -1.
abbrev pub higher : Option ℕ → Option ℕ → Option ℕ
higher highest none = highest
higher none (some n) = some n
higher (some m) (some n) = some (max m n)

-- One cable: a power cable takes no port.
unfoldable pub edge_highest : String → Option ℕ → CableEnds → Option ℕ
edge_highest node_id highest edge =
    if is_power_handle edge.source_handle || is_power_handle edge.target_handle
    then highest
    else higher (higher highest (cabled_index node_id edge.source edge.source_handle))
        (cabled_index node_id edge.target edge.target_handle)

-- The highest N of an ethN port on the node that carries a network cable; none is -1.
unfoldable pub highest_cabled_port : String → Option ℕ → List CableEnds → Option ℕ
highest_cabled_port node_id highest [] = highest
highest_cabled_port node_id highest (edge ∷ edges) =
    highest_cabled_port node_id (edge_highest node_id highest edge) edges

-- One more than the highest.
abbrev pub after_highest : Option ℕ → ℕ
after_highest none = 0
after_highest (some n) = n + 1

pub record PortCount : Type 0 where
  pub details : Fields
  pub count : ℕ
  pub clamped : Bool

abbrev pub set_field : String → Json → Fields → Fields
set_field key value end = field key value end
set_field key value (field k old fields) =
    if k == key then field key value fields else field k old (set_field key value fields)

abbrev pub delete_field : String → Fields → Fields
delete_field key end = end
delete_field key (field k value fields) =
    let rest = delete_field key fields in if k == key then rest else field k value rest

-- Whether the settings of a port stay with so many ports.
abbrev pub is_kept_port : ℕ → Option ℕ → Bool
is_kept_port count none = true
is_kept_port count (some index) = ltb index count

unfoldable pub kept_ports : ℕ → Fields → Fields
kept_ports count end = end
kept_ports count (field handle settings fields) =
    let rest = kept_ports count fields in
    if is_kept_port count (eth_index handle) then field handle settings rest else rest

abbrev pub with_config : Fields → Fields → Fields
with_config end details = delete_field "port_config" details
with_config (field handle settings fields) details =
    set_field "port_config" (obj (field handle settings fields)) details

abbrev pub or_empty : Option Fields → Fields
or_empty none = end
or_empty (some fields) = fields

-- `Math.trunc` as a count: what is below 0 is 0, as the count is 1 at least.
abbrev pub whole_part : ℤ → ℕ
whole_part (pos n) = n / 1000
whole_part (negsuc n) = 0

-- A request that is no finite number is none.
abbrev pub wanted_ports : ℕ → Option ℤ → ℕ
wanted_ports least none = least
wanted_ports least (some requested) = whole_part requested

unfoldable pub ports_granted : String → List CableEnds → Option ℤ → ℕ
ports_granted node_id edges requested =
    let least = max 1 (after_highest (highest_cabled_port node_id none edges)) in
    min max_ports (max least (wanted_ports least requested))

-- The details of a node with its port count set to what was requested, as far as that goes.
unfoldable pub with_port_count : String → PortNode → List CableEnds → Option ℤ → PortCount
with_port_count node_id node edges requested =
    let count = ports_granted node_id edges requested in
    let details = set_field "ports" (num (whole count)) (or_empty (as_record node.details)) in
    record {
      details = elim (as_record (field_in details "port_config")) [
        | none ↦ details
        | some config ↦ with_config (kept_ports count config) details
      ];
      count = count;
      clamped = not (is? requested (whole count));
    }
