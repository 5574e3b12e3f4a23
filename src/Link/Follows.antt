-- ===== src/Link/Follows.antt =====
-- The state of the hardware and of the stack that the link monitor keeps up to date.
use rtu_com.Common.{List, [], ◌∷◌, Bool, true, false, ◌≡◌, ◌∙◌, refl, ap, arith}
use rtu_com.Link.{
  LinkCall, Poll, Monitor, set_pin_out, set_speed, set_duplex, link_up_callback, link_down_callback,
  debug_status, task_delay, debug_address, connect, disconnect, handle_change, print_address, pass,
  monitor,
}

-- The connection LED, the MAC's settings and the interface of lwIP.
pub record Link : Type 0 where
  pub led : Bool
  pub mac_speed100 : Bool
  pub mac_full_duplex : Bool
  pub netif_up : Bool

abbrev act : LinkCall → Link → Link
act (set_pin_out b) l = record l { led = b }
act (set_speed b) l = record l { mac_speed100 = b }
act (set_duplex b) l = record l { mac_full_duplex = b }
act link_up_callback l = record l { netif_up = true }
act link_down_callback l = record l { netif_up = false }
act (debug_status b) l = l
act (task_delay n) l = l
act debug_address l = l

-- What the calls make of a state.
abbrev pub effect : List LinkCall → Link → Link
effect [] l = l
effect (c ∷ cs) l = act c (effect cs l)

-- What a cable event means: with the cable in, everything is as the PHY reports it; with the cable
-- out, the LED and the interface are off and the MAC keeps its settings.
abbrev pub follow : Poll → Link → Link
follow p l = elim p.changed [
  | false ↦ l
  | true ↦ elim p.connected [
    | true ↦ record {
      led = true;
      mac_speed100 = p.speed100;
      mac_full_duplex = p.full_duplex;
      netif_up = true;
    }
    | false ↦ record l { led = false; netif_up = false }
  ]
]

abbrev pub follow_all : List Poll → Link → Link
follow_all [] l = l
follow_all (p ∷ ps) l = follow_all ps (follow p l)

pass-effect :
    (p : Poll) (m : Monitor) (l : Link) → effect (pass p m).calls l ≡ follow p (effect m.calls l)
unfolding pass handle_change print_address connect disconnect
pass-effect p m l = ground arith

-- After any sequence of polls the LED, the speed and duplex of the MAC and the interface of lwIP are
-- what the cable events make of them: each call has its effect, in the order of the calls.
pub monitor-effect :
    (ps : List Poll) (m : Monitor) (l : Link)
    → effect (monitor ps m).calls l ≡ follow_all ps (effect m.calls l)
unfolding monitor
monitor-effect [] m l = refl
monitor-effect (p ∷ ps) m l =
    monitor-effect ps (pass p m) l ∙ ap (follow_all ps) (pass-effect p m l)
