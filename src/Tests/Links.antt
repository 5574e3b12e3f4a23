-- ===== src/Tests/Links.antt =====
-- The link monitor of com/src/lwip_init.c at concrete polls.
use rtu_com.Common.{List, [], ◌∷◌, true, false, ◌≡◌, refl}
use rtu_com.Link.{Poll, Monitor, monitor}
use rtu_com.Link.Follows.{Link, effect, follow_all, monitor-effect}

abbrev plug : Poll
plug = record {
  changed = true;
  connected = true;
  speed100 = true;
  full_duplex = false;
  ip_addr = 335653056;
}

abbrev idle : Poll
idle = record plug { changed = false }

abbrev unplug : Poll
unplug = record plug { connected = false }

abbrev polls : List Poll
polls = idle ∷ plug ∷ idle ∷ unplug ∷ plug ∷ []

abbrev fresh : Monitor
fresh = record { prt_ip = false; calls = [] }

abbrev printed : Monitor
printed = record { prt_ip = true; calls = [] }

abbrev dark : Link
dark = record { led = false; mac_speed100 = false; mac_full_duplex = true; netif_up = false }

monitor_led : (effect (monitor polls fresh).calls dark).led ≡ true
unfolding monitor
monitor_led = refl

monitor-effect_example :
    effect (monitor polls fresh).calls dark ≡ follow_all polls (effect fresh.calls dark)
monitor-effect_example = monitor-effect polls fresh dark
