-- ===== src/Store/Signature.antt =====
-- builder-store.ts: what a build looks like structurally (`graphSignature`), of a payload that was sent
-- and of a build that the server holds.
pub mod Order
use homelab_builder.Text.{codes}
use homelab_builder.Hardware.{HardwareType}
use homelab_builder.Types.{homelab, HardwareComponent, VirtualMachine, BuildKind}
use homelab_builder.Store.Payload.{BuildData, text_or, SavedNode, SavedEdge}
use homelab_builder.Store.Loading.{Build, BuildNode, BuildEdge}
use homelab_builder.Base.{
  ◌%◌, ◌/◌, ◌&&◌, ◌==◌, ◌-◌, ◌||◌, ◌+◌, ltb, [], ℤ, pos, if◌then◌else◌, false, ◌∷◌, true, or_else,
  map, ℕ, sort, some, rounded, concat, Option, Bool, String, List, string_eq, nat_eq, int_eq,
}

-- A node under the names that the signature gives its fields.
pub record NodeSignature : Type 0 where
  pub id : String
  pub type : Option HardwareType
  pub name : String
  pub x : ℤ
  pub y : ℤ
  pub parent : String
  pub vms : List String
  pub components : List String

pub record Signature : Type 0 where
  pub kind : BuildKind
  pub nodes : List NodeSignature
  pub edges : List String

-- A code point in UTF-16.
abbrev pub code_units : List ℕ → List ℕ
code_units [] = []
code_units (c ∷ text) =
    let rest = code_units text in
    if ltb c 65536
    then c ∷ rest
    else (55296 + (c - 65536) / 1024) ∷ (56320 + (c - 65536) % 1024) ∷ rest

abbrev pub units_le : List ℕ → List ℕ → Bool
units_le [] y = true
units_le (a ∷ x) [] = false
units_le (a ∷ x) (b ∷ y) = ltb a b || a == b && units_le x y

-- The order of `sort` without an argument.
abbrev pub text_le : String → String → Bool
text_le a b = units_le (code_units (codes a)) (code_units (codes b))

abbrev pub guest_mark : VirtualMachine → String
guest_mark vm = concat vm.id (concat ":" vm.name)

abbrev pub guest_marks : List VirtualMachine → List String
guest_marks vms = sort text_le (map guest_mark vms)

abbrev pub component_ids : List HardwareComponent → List String
component_ids components = sort text_le (map {B = String} (λ c. c.id) components)

abbrev pub edge_mark : String → String → String → String → String → String
edge_mark source source_handle target target_handle type = concat source (
    concat "|" (
      concat source_handle
        (concat "|" (concat target (concat "|" (concat target_handle (concat "|" type)))))))

unfoldable pub sent_node_signature : SavedNode → NodeSignature
sent_node_signature n = record {
  id = n.id;
  type = n.type;
  name = n.name;
  x = rounded n.x;
  y = rounded n.y;
  parent = text_or n.parent_id "";
  vms = guest_marks n.vms;
  components = component_ids n.internal_components;
}

unfoldable pub stored_node_signature : BuildNode → NodeSignature
stored_node_signature n = record {
  id = n.id;
  type = some n.type;
  name = n.name;
  x = rounded (or_else n.x (pos 0));
  y = rounded (or_else n.y (pos 0));
  parent = text_or n.parent_id "";
  vms = guest_marks (or_else n.virtual_machines []);
  components = component_ids (or_else n.internal_components []);
}

unfoldable pub sent_edge_mark : SavedEdge → String
sent_edge_mark e =
    edge_mark e.source e.source_handle e.target e.target_handle (text_or (some e.type) "ethernet")

unfoldable pub stored_edge_mark : BuildEdge → String
stored_edge_mark e =
    edge_mark e.source_node_id (text_or e.source_handle "") e.target_node_id
      (text_or e.target_handle "") (text_or e.type "ethernet")

-- `locale_before a b` is `a.localeCompare(b) <= 0`, and `stringify` is `JSON.stringify`.
module _ (locale_before : String → String → Bool) (stringify : Signature → String) where
  abbrev pub signature_of : BuildKind → List NodeSignature → List String → String
  signature_of kind nodes edges = stringify (record {
    kind = kind;
    nodes = sort {A = NodeSignature} (λ a b. locale_before a.id b.id) nodes;
    edges = sort text_le edges;
  })

  unfoldable pub sent_signature : BuildData → String
  sent_signature payload =
      signature_of payload.kind (map sent_node_signature payload.nodes)
        (map sent_edge_mark payload.edges)

  unfoldable pub stored_signature : Build → String
  stored_signature build =
      signature_of (or_else build.kind homelab) (map stored_node_signature (or_else build.nodes []))
        (map stored_edge_mark (or_else build.edges []))
