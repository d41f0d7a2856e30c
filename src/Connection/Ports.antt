-- ===== src/Connection/Ports.antt =====
-- Network cables: when a link is accepted, and that each port keeps carrying one cable.
use homelab_builder.Connection.Loops.{Joined, makes_loop_iff}
use homelab_builder.Hardware.{type_eq, lan_table, access_point, is_wifi_association, HardwareType}
use homelab_builder.Types.{Dict}
use homelab_builder.Connection.{
  needs_hub, has_uplink, handle_in_use, makes_loop, check_hub, check_table, ok, check_network,
  check_ports, LinkEnd,
}
use homelab_builder.Base.{
  ◌⊎◌, arith, ◌↔◌, ◌==◌, refl, String, ◌&&◌, not, List, true, false, ◌≡◌, Bool, string_eq, nat_eq,
  int_eq,
}

-- Why a network link between two known devices is acceptable.
pub record IsAcceptable (connection : LinkEnd) (types : Dict HardwareType) (edges : List LinkEnd)
    (ignore_loops : Bool) (source : String) (source_type : HardwareType) (target : String)
    (target_type : HardwareType) : Type 0 where
  -- A Wi-Fi client does not need the access point's port.
  pub source_free :
      ((is_wifi_association source_type target_type && source_type == access_point) ≡ true)
      ⊎ (handle_in_use types edges source connection.source_handle ≡ false)
  pub target_free :
      ((is_wifi_association source_type target_type && target_type == access_point) ≡ true)
      ⊎ (handle_in_use types edges target connection.target_handle ≡ false)
  pub source_table : (source_type == lan_table) ≡ true → has_uplink edges source ≡ false
  pub target_table : (target_type == lan_table) ≡ true → has_uplink edges target ≡ false
  pub no_loop : ignore_loops ≡ false → ¬ Joined edges source target
  pub hub : needs_hub source_type target_type ≡ false

guard_bit : (a b : Bool) → (a ≡ true → b ≡ false) → (a && b) ≡ false
guard_bit true b h = h refl
guard_bit false b h = refl

no_loop_bit : (i l : Bool) → (i ≡ false → ¬ (l ≡ true)) → (not i && l) ≡ false
no_loop_bit true l h = refl
no_loop_bit false true h = absurd (h refl refl)
no_loop_bit false false h = refl

check_ports-ok_iff :
    (connection : LinkEnd) (types : Dict HardwareType) (edges : List LinkEnd) (source : String)
    (source_type : HardwareType) (target : String) (target_type : HardwareType)
    → (check_ports connection types edges source source_type target target_type ≡ ok) ↔ (
        (((is_wifi_association source_type target_type && source_type == access_point) ≡ true)
          ⊎ (handle_in_use types edges source connection.source_handle ≡ false))
        × (((is_wifi_association source_type target_type && target_type == access_point) ≡ true)
            ⊎ (handle_in_use types edges target connection.target_handle ≡ false)))
unfolding check_ports
check_ports-ok_iff connection types edges source source_type target target_type = ground arith

module _ (connection : LinkEnd) (types : Dict HardwareType) (edges : List LinkEnd)
    (ignore_loops : Bool) (source : String) (source_type : HardwareType) (target : String)
    (target_type : HardwareType) where
  acceptable_of_ok :
      check_network connection types edges ignore_loops source source_type target target_type ≡ ok
      → IsAcceptable connection types edges ignore_loops source source_type target target_type
  unfolding check_network check_table check_hub
  acceptable_of_ok h =
      let ports = check_ports-ok_iff connection types edges source source_type target target_type in
      record {
        source_free = ground (arith, ports);
        target_free = ground (arith, ports);
        source_table = λ t. ground (arith);
        target_table = λ t. ground (arith);
        no_loop = λ i r. ground (arith, (makes_loop_iff edges source target).1.1 r);
        hub = ground arith;
      }

  ok_of_acceptable :
      IsAcceptable connection types edges ignore_loops source source_type target target_type
      → check_network connection types edges ignore_loops source source_type target target_type ≡ ok
  unfolding check_network check_table check_hub
  ok_of_acceptable a =
      let ports = check_ports-ok_iff connection types edges source source_type target target_type in
      let passed : check_ports connection types edges source source_type target target_type ≡ ok =
        ports.1 (a.source_free, a.target_free) in
      let clear : (not ignore_loops && makes_loop edges source target) ≡ false =
        no_loop_bit ignore_loops (makes_loop edges source target)
          (λ i l. a.no_loop i ((makes_loop_iff edges source target).1.0 l)) in
      let s_free : (source_type == lan_table && has_uplink edges source) ≡ false =
        guard_bit _ _ a.source_table in
      let t_free : (target_type == lan_table && has_uplink edges target) ≡ false =
        guard_bit _ _ a.target_table in
      rw (passed, s_free, t_free, clear, a.hub)

  -- Two known devices of different ends that no power handle is part of are linked exactly when the link
  -- is acceptable.
  pub check_network-ok_iff :
      (check_network connection types edges ignore_loops source source_type target target_type ≡ ok)
      ↔ IsAcceptable connection types edges ignore_loops source source_type target target_type
  check_network-ok_iff = (acceptable_of_ok, ok_of_acceptable)
