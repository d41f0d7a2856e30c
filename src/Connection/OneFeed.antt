-- ===== src/Connection/OneFeed.antt =====
-- connection-rules.ts: the power cables that a socket or a power input carries.
use homelab_builder.Connection.{null, text}
use homelab_builder.Power.{is_power_handle}
use homelab_builder.Power.Handles.{is_power_handle_of_index}
use homelab_builder.Power.Cables.{normalize-IsOriented}
use homelab_builder.Base.{string_eq, nat_eq, int_eq, both-first, both-second, sym, ap, ◌∙◌, ◌==◌}
use homelab_builder.Connection.Feeds.{edge_of}
use homelab_builder.Power
use homelab_builder.Power.{normalize_power_connection}
use homelab_builder.Hardware.{type_eq}
use homelab_builder.Connection.{
  undefined, of_option, to_option, same_handle, socket_in_use, power_feeds, is_power_edge,
  input_in_use, LinkEnd, Handle,
}
use homelab_builder.Base.{
  ==_iff, inr, inl, ◌+◌, refl, none, Bool-cases, some, arith, [], ◌∷◌, ◌++◌, is?, ◌≤◌, ◌&&◌, ℕ,
  true, keep, false, ◌≡◌, length, if◌then◌else◌, any, String, Option, List, Bool, string_eq, nat_eq,
  int_eq,
}

pub length-keep_snoc {ℓ} :
    {A : Type ℓ} (p : A → Bool) (xs : List A) (y : A)
    → length (keep p (xs ++ y ∷ [])) ≡ length (keep p xs) + (if p y then 1 else 0)
length-keep_snoc p [] y = ground arith
length-keep_snoc p (x ∷ xs) y = ground (arith, length-keep_snoc p xs y)

pub length-keep_none {ℓ} :
    {A : Type ℓ} (p : A → Bool) (xs : List A) → any p xs ≡ false → length (keep p xs) ≡ 0
length-keep_none p [] h = refl
length-keep_none p (x ∷ xs) h = ground (arith, length-keep_none p xs)

pub same_handle→eq : (a b : Handle) → same_handle a b ≡ true → a ≡ b
same_handle→eq undefined undefined h = refl
same_handle→eq null null h = refl
same_handle→eq (text a) (text b) h = ap text ((==_iff a b).0 h)
same_handle→eq undefined null h = cc
same_handle→eq undefined (text b) h = cc
same_handle→eq null undefined h = cc
same_handle→eq null (text b) h = cc
same_handle→eq (text a) undefined h = cc
same_handle→eq (text a) null h = cc

-- How many power cables start at a socket of a device, and how many end at a power input.
unfoldable pub feeds_on : List LinkEnd → String → Handle → ℕ
feeds_on edges node_id handle = length (
    keep (λ e. is_power_edge e && (is? e.source node_id && same_handle e.source_handle handle))
      edges)

unfoldable pub feeds_into : List LinkEnd → String → Handle → ℕ
feeds_into edges node_id handle = length (
    keep (λ e. is_power_edge e && (is? e.target node_id && same_handle e.target_handle handle))
      edges)

abbrev pub IsOneFeed : List LinkEnd → Type 0
IsOneFeed edges =
    (node_id : String) (handle : Handle)
    → (feeds_on edges node_id handle ≤ 1) × (feeds_into edges node_id handle ≤ 1)

and_parts : (a b : Bool) → (a && b) ≡ true → (a ≡ true) × (b ≡ true)
and_parts a b h = (both-first a b h, both-second a b h)

any-keep : (p q : LinkEnd → Bool) (xs : List LinkEnd) → any q (keep p xs) ≡ any (λ x. p x && q x) xs
any-keep p q [] = refl
any-keep p q (x ∷ xs) = ground (arith, any-keep p q xs)

count_snoc :
    (p : LinkEnd → Bool) (edges : List LinkEnd) (new : LinkEnd)
    → (p new ≡ true → any p edges ≡ false)
    → length (keep p edges) ≤ 1
    → length (keep p (edges ++ new ∷ [])) ≤ 1
count_snoc p edges new free h = elim (Bool-cases (p new)) [
  | inl taken ↦
      rw (length-keep_snoc p edges new, taken, length-keep_none p edges (free taken)) (omega arith)
  | inr apart ↦ rw (length-keep_snoc p edges new, apart) (omega (arith, h))
]

-- One more cable, of which the two ends are free if it carries power.
pub IsOneFeed-snoc :
    (edges : List LinkEnd) (new : LinkEnd)
    → ((node_id : String) (handle : Handle)
        → is_power_edge new ≡ true
        → ((is? new.source node_id && same_handle new.source_handle handle) ≡ true
            → any
                (λ e. is? e.source node_id && same_handle e.source_handle handle)
                (power_feeds edges)
              ≡ false)
          × ((is? new.target node_id && same_handle new.target_handle handle) ≡ true
              → any
                  (λ e. is? e.target node_id && same_handle e.target_handle handle)
                  (power_feeds edges)
                ≡ false))
    → IsOneFeed edges
    → IsOneFeed (edges ++ new ∷ [])
unfolding feeds_on feeds_into power_feeds
IsOneFeed-snoc edges new free h node_id handle =
    let out : LinkEnd → Bool = λ e. is? e.source node_id && same_handle e.source_handle handle in
    let into : LinkEnd → Bool = λ e. is? e.target node_id && same_handle e.target_handle handle in
    (
      count_snoc (λ e. is_power_edge e && out e) edges new
          (λ t.
            let both = and_parts (is_power_edge new) (out new) t in
            sym (any-keep is_power_edge out edges) ∙ (free node_id handle both.0).0 both.1)
          (h node_id handle).0,
      count_snoc (λ e. is_power_edge e && into e) edges new
          (λ t.
            let both = and_parts (is_power_edge new) (into new) t in
            sym (any-keep is_power_edge into edges) ∙ (free node_id handle both.0).1 both.1)
          (h node_id handle).1,
    )

pub socket_free :
    (cable : Power.Connection) (edges : List LinkEnd) (node_id : String) (handle : Handle)
    → socket_in_use edges cable ≡ false
    → (is? (some cable.source) node_id && same_handle (of_option cable.source_handle) handle) ≡ true
    → any (λ e. is? e.source node_id && same_handle e.source_handle handle) edges ≡ false
unfolding socket_in_use
socket_free cable edges node_id handle free h =
    let both =
      and_parts (cable.source == node_id) (same_handle (of_option cable.source_handle) handle) h in
    let same : cable.source ≡ node_id = (==_iff cable.source node_id).0 both.0 in
    let same_end = same_handle→eq (of_option cable.source_handle) handle both.1 in
    rw (← same, ← same_end) free

pub input_free :
    (cable : Power.Connection) (edges : List LinkEnd) (node_id : String) (handle : Handle)
    → input_in_use edges cable ≡ false
    → (is? (some cable.target) node_id && same_handle (of_option cable.target_handle) handle) ≡ true
    → any (λ e. is? e.target node_id && same_handle e.target_handle handle) edges ≡ false
unfolding input_in_use
input_free cable edges node_id handle free h =
    let both =
      and_parts (cable.target == node_id) (same_handle (of_option cable.target_handle) handle) h in
    let same : cable.target ≡ node_id = (==_iff cable.target node_id).0 both.0 in
    let same_end = same_handle→eq (of_option cable.target_handle) handle both.1 in
    rw (← same, ← same_end) free

to_of : (handle : Option String) → to_option (of_option handle) ≡ handle
to_of none = refl
to_of (some handle) = refl

pub edge_of-power :
    (c cable : Power.Connection)
    → normalize_power_connection c ≡ some cable
    → is_power_edge (edge_of cable) ≡ true
unfolding is_power_edge
edge_of-power c cable h =
    let socket = (normalize-IsOriented c cable h).0 in
    let power : is_power_handle cable.source_handle ≡ true =
      is_power_handle_of_index cable.source_handle (rw socket refl) in
    rw (to_of cable.source_handle, power) refl
