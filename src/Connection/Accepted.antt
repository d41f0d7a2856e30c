-- ===== src/Connection/Accepted.antt =====
-- connection-rules.ts: what it takes for a link to be accepted, written out.
use homelab_builder.Connection.{check_network}
use homelab_builder.Base.{if◌then◌else◌}
use homelab_builder.Power
use homelab_builder.Power.{normalize_power_connection}
use homelab_builder.Search.Correct.{Reach}
use homelab_builder.Connection.Feeds.{feeds}
use homelab_builder.Connection.{socket_in_use, input_in_use, power_feeds}
use homelab_builder.Connection.Ports.{check_network-ok_iff, IsAcceptable}
use homelab_builder.Connection.Feeds.{check_power-ok_iff}
use homelab_builder.Hardware.{HardwareType}
use homelab_builder.Types.{get, HardwareNode, Dict}
use homelab_builder.Connection.{
  check_power_connection, as_cable, types_of, is_power_edge, ok, end_types, present, ends,
  check_connection, LinkEnd,
}
use homelab_builder.Base.{
  Bool-cases, ◌⊎◌, true, inr, ◌↔◌, none, inl, ==_iff, arith, Option-cases, some, false, Bool, ◌≢◌,
  ◌≡◌, ◌==◌, List, String, Option, string_eq, nat_eq, int_eq,
}

present-some :
    (end : Option String) (id : String)
    → present end ≡ some id
    → (end ≡ some id) × ((id == "") ≡ false)
present-some none id h = cc
present-some (some s) id h = ground arith

pub ends-some :
    (connection : LinkEnd) (source target : String)
    → ends connection ≡ some (source, target)
    → (connection.source ≡ some source)
      × (connection.target ≡ some target)
      × ((source == "") ≡ false)
      × ((target == "") ≡ false)
      × ((source == target) ≡ false)
ends-some connection source target h = elim (Option-cases (present connection.source)) [
  | inl no_source ↦ absurd (ground arith)
  | inr (s, at_s) ↦ elim (Option-cases (present connection.target)) [
    | inl no_target ↦ absurd (ground arith)
    | inr (t, at_t) ↦
        let from_source = present-some connection.source s at_s in
        let from_target = present-some connection.target t at_t in ground arith
  ]
]

pub end_types-some :
    (types : Dict HardwareType) (source target : String) (st target_type : HardwareType)
    → end_types types source target ≡ some (st, target_type)
    → (get types source ≡ some st) × (get types target ≡ some target_type)
end_types-some types source target st target_type h = ground arith

-- A power cable that may be drawn between two devices.
abbrev pub IsPowerLink : LinkEnd → String → String → List LinkEnd → Type 0
IsPowerLink connection source target edges =
    (cable : Power.Connection) × (normalize_power_connection (as_cable connection source target)
      ≡ some cable)
    × (socket_in_use (power_feeds edges) cable ≡ false)
    × (input_in_use (power_feeds edges) cable ≡ false)
    × (¬ Reach (feeds edges) cable.target cable.source)

-- The two ends are named, differ, and are known devices; and the link is a power cable that may be drawn,
-- or a network cable that is acceptable.
abbrev pub IsLink : LinkEnd → Dict HardwareType → List LinkEnd → Bool → Type 0
IsLink connection types edges ignore_loops =
    (source target : String) × (source_type target_type : HardwareType) × (connection.source
      ≡ some source)
    × (connection.target ≡ some target)
    × (((source == "") ≡ false) × ((target == "") ≡ false) × (source ≢ target))
    × ((get types source ≡ some source_type) × (get types target ≡ some target_type))
    × (((is_power_edge connection ≡ true) × IsPowerLink connection source target edges)
        ⊎ ((is_power_edge connection ≡ false)
            × IsAcceptable connection types edges ignore_loops source source_type target
                target_type))

pub check_connection-ok :
    (connection : LinkEnd) (nodes : List HardwareNode) (edges : List LinkEnd) (ignore_loops : Bool)
    → check_connection connection nodes edges ignore_loops ≡ ok
    → (source target : String) × (source_type target_type : HardwareType) × (ends connection
        ≡ some (source, target))
      × (end_types (types_of nodes) source target ≡ some (source_type, target_type))
      × (((is_power_edge connection ≡ true)
            × (check_power_connection (as_cable connection source target) edges ≡ ok))
          ⊎ ((is_power_edge connection ≡ false)
              × IsAcceptable connection
                  (types_of nodes)
                  edges
                  ignore_loops
                  source
                  source_type
                  target
                  target_type))
unfolding check_connection
check_connection-ok connection nodes edges ignore_loops h = elim (Option-cases (ends connection)) [
  | inl no_ends ↦ absurd (ground arith)
  | inr ((s, t), at) ↦ elim (Option-cases (end_types (types_of nodes) s t)) [
    | inl unknown ↦ absurd (ground arith)
    | inr ((st, target_type), known) ↦ (
      s,
      t,
      st,
      target_type,
      at,
      known,
      elim (Bool-cases (is_power_edge connection)) [
        | inl power ↦ inl (power, ground arith)
        | inr network ↦ inr (
          network,
          (check_network-ok_iff connection (types_of nodes) edges ignore_loops s st t target_type).0
              (ground arith),
        )
      ],
    )
  ]
]

differ : (a b : String) → (a == b) ≡ false → a ≢ b
differ a b h e = ground (arith, ==_iff a b)

differ_test : (a b : String) → a ≢ b → (a == b) ≡ false
differ_test a b h = ground (arith, ==_iff a b)

ends_of_parts :
    (connection : LinkEnd) (source target : String)
    → connection.source ≡ some source
    → connection.target ≡ some target
    → (source == "") ≡ false
    → (target == "") ≡ false
    → (source == target) ≡ false
    → ends connection ≡ some (source, target)
ends_of_parts connection source target h k s t d = ground arith

check_connection-known :
    (connection : LinkEnd) (nodes : List HardwareNode) (edges : List LinkEnd) (ignore_loops : Bool)
    (s t : String) (st tt : HardwareType)
    → ends connection ≡ some (s, t)
    → get (types_of nodes) s ≡ some st
    → get (types_of nodes) t ≡ some tt
    → check_connection connection nodes edges ignore_loops ≡ (
        if is_power_edge connection
        then check_power_connection (as_cable connection s t) edges
        else check_network connection (types_of nodes) edges ignore_loops s st t tt)
unfolding check_connection
check_connection-known connection nodes edges ignore_loops s t st tt at known_s known_t =
    ground arith

-- A link is accepted exactly when its two ends are named, differ and are known devices, and it is
-- either a power cable with an orientation whose socket and input are free and whose fed device does
-- not feed the socket's device, or a network cable that is acceptable.
pub check_connection-ok_iff :
    (connection : LinkEnd) (nodes : List HardwareNode) (edges : List LinkEnd) (ignore_loops : Bool)
    → (check_connection connection nodes edges ignore_loops ≡ ok)
      ↔ IsLink connection (types_of nodes) edges ignore_loops
check_connection-ok_iff connection nodes edges ignore_loops = (to, from)
  where
    to :
        check_connection connection nodes edges ignore_loops ≡ ok
        → IsLink connection (types_of nodes) edges ignore_loops
    to h =
        let (s, t, st, tt, at, known, kind) =
          check_connection-ok connection nodes edges ignore_loops h in
        let e = ends-some connection s t at in
        (
          s,
          t,
          st,
          tt,
          e.0,
          e.1,
          (e.2, e.3, differ s t e.4),
          end_types-some (types_of nodes) s t st tt known,
          elim kind [
            | inl power ↦
                inl (power.0, (check_power-ok_iff (as_cable connection s t) edges).0 power.1)
            | inr network ↦ inr network
          ],
        )

    from :
        IsLink connection (types_of nodes) edges ignore_loops
        → check_connection connection nodes edges ignore_loops ≡ ok
    from (s, t, st, tt, at_s, at_t, (full_s, full_t, apart), (known_s, known_t), kind) =
        let at = ends_of_parts connection s t at_s at_t full_s full_t (differ_test s t apart) in
        let known =
          check_connection-known connection nodes edges ignore_loops s t st tt at known_s known_t in
        elim kind [
          | inl (power, link) ↦
              rw (known, power) ((check_power-ok_iff (as_cable connection s t) edges).1 link)
          | inr (network, acceptable) ↦
              rw (known, network)
                ((check_network-ok_iff connection (types_of nodes) edges ignore_loops s st t tt).1
                  acceptable)
        ]
