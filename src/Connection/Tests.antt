-- ===== src/Connection/Tests.antt =====
-- The link rules on a small network: a router, a switch, a computer and a UPS.
use homelab_builder.Search.{push_new, explore}
use homelab_builder.Search.Correct.{Reach}
use homelab_builder.Connection.Ports.{check_network-ok_iff, IsAcceptable}
use homelab_builder.Connection.Loops.{makes_loop_iff, Joined}
use homelab_builder.Connection.Accepted.{check_connection-ok_iff, IsLink}
use homelab_builder.Text.{number_from, strip}
use homelab_builder.Types.{HardwareNode}
use homelab_builder.Hardware.{ups, pc, switch, router, HardwareType}
use homelab_builder.Power.{to_double, power_handle_index, normalize_power_connection}
use homelab_builder.Connection.OneCable.{drawn_link}
use homelab_builder.Connection.Feeds.{
  check_power-ok_iff, feeds_back_iff, check_power-NoPowerLoop, edge_of, feeds, NoPowerLoop,
}
use homelab_builder.Connection.{
  ends_of, input_in_use, socket_in_use, makes_loop, feeds_back, ok, text, power_feeds, types_of,
  loop_search, feeds_from, feed_search, check_power_connection, check_network, check_connection,
  as_cable, LinkEnd,
}
use homelab_builder.Base.{
  refl, ◌↔◌, true, pos, ◌≡◌, none, false, arith, ◌∷◌, some, [], is_some?, String, List, string_eq,
  nat_eq, int_eq,
}
use homelab_builder.Power

abbrev device : String → HardwareType → HardwareNode
device id type = record {
  id = id;
  type = type;
  name = id;
  ip = none;
  mac_address = none;
  subnet_mask = none;
  gateway = none;
  power_draw = none;
  x = pos 0;
  y = pos 0;
  details = none;
  vms = none;
  internal_components = none;
  parent_id = none;
}

abbrev network : List HardwareNode
network = device "r" router ∷ device "s" switch ∷ device "c" pc ∷ device "u" ups ∷ []

abbrev cable : String → String → String → String → LinkEnd
cable a from b to = record {
  source = some a;
  target = some b;
  source_handle = text from;
  target_handle = text to;
}

abbrev uplink : LinkEnd
uplink = cable "r" "eth0" "s" "target-0"

abbrev desk : LinkEnd
desk = cable "s" "eth1" "c" "target-0"

abbrev plug : LinkEnd
plug = cable "u" "pwr-out-0" "c" "pwr-in-0"

abbrev wired : List LinkEnd
wired = drawn_link uplink ∷ drawn_link plug ∷ []

check_connection-ok_iff_example :
    (check_connection plug network (uplink ∷ []) false ≡ ok)
    ↔ IsLink plug (types_of network) (uplink ∷ []) false
check_connection-ok_iff_example = check_connection-ok_iff plug network (uplink ∷ []) false

makes_loop_iff_example :
    (is_some? (loop_search (uplink ∷ desk ∷ []) "r" "c") ≡ true)
    × ((makes_loop (uplink ∷ desk ∷ []) "r" "c" ≡ true) ↔ Joined (uplink ∷ desk ∷ []) "r" "c")
makes_loop_iff_example = makes_loop_iff (uplink ∷ desk ∷ []) "r" "c"

feeds_back_iff_example :
    (is_some? (feed_search (power_feeds (plug ∷ [])) "u" "c") ≡ true)
    × ((feeds_back (power_feeds (plug ∷ [])) "u" "c" ≡ true) ↔ Reach (feeds (plug ∷ [])) "u" "c")
feeds_back_iff_example = feeds_back_iff (plug ∷ []) "u" "c"

abbrev plug_cable : Power.Connection
plug_cable = as_cable plug "u" "c"

normalized : normalize_power_connection plug_cable ≡ some plug_cable
unfolding normalize_power_connection power_handle_index strip number_from to_double
normalized = refl

powered : check_power_connection plug_cable [] ≡ ok
unfolding check_power_connection normalize_power_connection power_handle_index strip number_from
    to_double power_feeds socket_in_use input_in_use feeds_back feed_search ends_of explore push_new
    feeds_from
powered = refl

no_feeds : NoPowerLoop []
unfolding feeds feeds_from power_feeds
no_feeds a b l = ground arith

check_power-NoPowerLoop_example : NoPowerLoop (edge_of plug_cable ∷ [])
check_power-NoPowerLoop_example =
    check_power-NoPowerLoop plug_cable plug_cable [] normalized powered no_feeds

check_power-ok_iff_example : (check_power_connection plug_cable [] ≡ ok) ↔ (
    (cable : Power.Connection) × (normalize_power_connection plug_cable ≡ some cable)
    × (socket_in_use (power_feeds []) cable ≡ false)
    × (input_in_use (power_feeds []) cable ≡ false)
    × (¬ Reach (feeds []) cable.target cable.source))
check_power-ok_iff_example = check_power-ok_iff plug_cable []

check_network-ok_iff_example :
    (check_network desk (types_of network) (uplink ∷ []) false "s" switch "c" pc ≡ ok)
    ↔ IsAcceptable desk (types_of network) (uplink ∷ []) false "s" switch "c" pc
check_network-ok_iff_example =
    check_network-ok_iff desk (types_of network) (uplink ∷ []) false "s" switch "c" pc
