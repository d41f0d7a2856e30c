-- ===== src/Hardware/Tests.antt =====
-- Rows of the table, and the Wi-Fi rule, on concrete devices.
use homelab_builder.Base.{true, false, ◌≡◌, refl}
use homelab_builder.Hardware.{
  switch, server, access_point, console, lan_table, pc, can_node_connect_to_any,
  is_wifi_association,
}

hubs : (can_node_connect_to_any switch ≡ true) × (can_node_connect_to_any server ≡ false)
unfolding can_node_connect_to_any
hubs = (refl, refl)

wifi :
    (is_wifi_association access_point console ≡ true)
    × (is_wifi_association pc access_point ≡ true)
    × (is_wifi_association lan_table access_point ≡ false)
unfolding is_wifi_association
wifi = (refl, refl, refl)
