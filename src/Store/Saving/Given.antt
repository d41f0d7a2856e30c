-- ===== src/Store/Saving/Given.antt =====
-- builder-store.ts: what the answer to a save writes into the canvas, and what it leaves alone.
use homelab_builder.Types.Lookup.{without-without, without-spread}
use homelab_builder.Types.{
  without, no_details, get, Json, HardwareNode, VirtualNetwork, VirtualMachine, HardwareSpec, Dict,
}
use homelab_builder.Store.State.{Node}
use homelab_builder.Store.Saving.{
  derived_detail_keys, with_vm_ip, Calculated, merge_server_details, device_with_ips, card_with_ips,
}
use homelab_builder.Base.{
  ◌∙◌, contains-append, arith, contains, all_of_contains, ◌++◌, inr, inl, ◌∷◌, refl, or_option, [],
  Option-cases, some, or_else, none, map, is_some?, ◌≡◌, if◌then◌else◌, String, Option, List,
  string_eq, nat_eq, int_eq,
}

-- The details that an answer leaves alone: no derived ones, and none that the answer gives.
abbrev pub untouched : HardwareSpec → HardwareSpec → HardwareSpec
untouched given details = record {
  tags = if is_some? given.tags then none else details.tags;
  virtual_network = if is_some? given.virtual_network then none else details.virtual_network;
  other =
      without (derived_detail_keys ++ map {B = String} (λ entry. entry.0) given.other)
        details.other;
}

-- A guest without its address, if the answer gives one.
abbrev pub drawn_guest : Dict String → VirtualMachine → VirtualMachine
drawn_guest ips vm = record vm { ip = if is_some? (get ips vm.id) then none else vm.ip }

abbrev pub drawn_guests : Dict String → Option (List VirtualMachine) → Option (List VirtualMachine)
drawn_guests ips none = none
drawn_guests ips (some vms) = some (map (drawn_guest ips) vms)

-- A card and a device without what an answer gives for it, if it gives anything: its address, those of
-- its guests, and details. On such a card, no details and no guests are empty ones.
unfoldable pub drawn_card : Option Calculated → Node → Node
drawn_card none n = n
drawn_card (some entry) n = record n {
  card = record {
    label = n.card.label;
    device = record (n.card.device) {
      ip = none;
      details = some (untouched entry.details (or_else n.card.device.details no_details));
      vms = some (map (drawn_guest entry.vm_ips) (or_else n.card.device.vms []));
    };
  };
}

unfoldable pub drawn_device : Option Calculated → HardwareNode → HardwareNode
drawn_device none hn = hn
drawn_device (some entry) hn = record hn {
  ip = none;
  details = some (untouched entry.details (or_else hn.details no_details));
  vms = drawn_guests entry.vm_ips hn.vms;
}

untaken {ℓ} :
    {A : Type ℓ} (given kept : Option A)
    → (if is_some? given then none else or_option given kept)
      ≡ (if is_some? given then none else kept)
untaken none kept = refl
untaken (some a) kept = refl

-- Merging an answer's details touches only what is left out here.
ap_details :
    {t u : Option (List String)} {n m : Option VirtualNetwork} {o p : Dict Json}
    → t ≡ u
    → n ≡ m
    → o ≡ p
    → ◌≡◌ {A = HardwareSpec}
        (record { tags = t; virtual_network = n; other = o })
        (record { tags = u; virtual_network = m; other = p })
ap_details e f g = rw (e, f, g) refl

untouched-merge :
    (details : Option HardwareSpec) (given : HardwareSpec)
    → untouched given (merge_server_details details given)
      ≡ untouched given (or_else details no_details)
unfolding merge_server_details
untouched-merge details given =
    let kept = or_else details no_details in
    let names = map {B = String} (λ entry. entry.0) given.other in
    let keys = derived_detail_keys ++ names in
    let written = without-spread keys (without derived_detail_keys kept.other) given.other (
      all_of_contains (contains keys) names
        (λ k m. ground (arith, contains-append derived_detail_keys names k))) in
    let taken =
      without-without keys derived_detail_keys kept.other
        (λ k m. ground (arith, contains-append derived_detail_keys names k)) in
    ap_details (untaken given.tags kept.tags) (untaken given.virtual_network kept.virtual_network)
      (written ∙ taken)

drawn_vms :
    (ips : Dict String) (vms : List VirtualMachine)
    → map (drawn_guest ips) (map (with_vm_ip ips) vms) ≡ map (drawn_guest ips) vms
drawn_vms ips [] = refl
drawn_vms ips (vm ∷ vms) = rw (untaken (get ips vm.id) vm.ip, drawn_vms ips vms) refl

pub drawn_card-ips :
    (c : Option Calculated) (n : Node) → drawn_card c (card_with_ips c n) ≡ drawn_card c n
unfolding drawn_card card_with_ips
drawn_card-ips none n = refl
drawn_card-ips (some entry) n =
    rw
      (
        drawn_vms entry.vm_ips (or_else n.card.device.vms []),
        untouched-merge n.card.device.details entry.details,
      )
      refl

pub drawn_device-ips :
    (c : Option Calculated) (hn : HardwareNode)
    → drawn_device c (device_with_ips c hn) ≡ drawn_device c hn
unfolding drawn_device device_with_ips
drawn_device-ips none hn = refl
drawn_device-ips (some entry) hn = elim (Option-cases hn.vms) [
  | inl e ↦ rw (e) (rw (untouched-merge hn.details entry.details) refl)
  | inr (vms, e) ↦
      rw (e) (rw (drawn_vms entry.vm_ips vms, untouched-merge hn.details entry.details) refl)
]

pub card-id : (c : Option Calculated) (n : Node) → (card_with_ips c n).id ≡ n.id
unfolding card_with_ips
card-id none n = refl
card-id (some entry) n = refl

pub device-id : (c : Option Calculated) (hn : HardwareNode) → (device_with_ips c hn).id ≡ hn.id
unfolding device_with_ips
device-id none hn = refl
device-id (some entry) hn = refl
