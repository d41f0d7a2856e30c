-- ===== src/Power/Cables.antt =====
-- A power cable that is accepted runs from a socket to a power input.
use homelab_builder.Base.{◌≡◌, ◌⊎◌, true, some, arith, nat_eq, string_eq, int_eq}
use homelab_builder.Power.{
  Connection, normalize_power_connection, reversed, is_socket, is_power_input,
}
use homelab_builder.Power.Handles.{index_disjoint}

-- The cable that comes out runs from a socket to a power input, between the same two ends.
pub normalize-IsOriented :
    (c cable : Connection)
    → normalize_power_connection c ≡ some cable
    → (is_socket cable.source_handle ≡ true)
      × (is_power_input cable.target_handle ≡ true)
      × ((cable ≡ c) ⊎ (cable ≡ reversed c))
unfolding normalize_power_connection
normalize-IsOriented c cable h = ground arith

-- It does not matter at which end the user started.
pub normalize-reversed :
    (c : Connection) → normalize_power_connection (reversed c) ≡ normalize_power_connection c
unfolding normalize_power_connection
normalize-reversed c =
    ground (arith, index_disjoint c.source_handle, index_disjoint c.target_handle)

-- A cable that is oriented already is left alone.
normalize_idempotent :
    (c cable : Connection)
    → normalize_power_connection c ≡ some cable
    → normalize_power_connection cable ≡ some cable
unfolding normalize_power_connection
normalize_idempotent c cable h = ground (arith, normalize-IsOriented c cable h)
