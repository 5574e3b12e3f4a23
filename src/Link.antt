-- ===== src/Link.antt =====
-- com/src/lwip_init.c: the loop of `vStackIpSetup` that watches the PHY and handles cable events. The
-- PHY driver is a parameter: a `Poll` is one answer of `lpcPHYStsPoll` by the four bits of lpc_phy.h
-- that the loop tests, with the address of the interface at that moment. The macro NETIF_INIT_SNMP
-- does nothing, since LWIP_SNMP is 0.
pub mod Follows
pub mod Prints
pub mod Setup
pub mod Priorities
use rtu_com.Common.{ℕ, ◌+◌, ◌/◌, List, [], ◌∷◌, Bool, true, false, not, ◌&&◌, ◌==◌, if◌then◌else◌}

-- What the loop calls.
pub data LinkCall : Type 0 where
  set_pin_out : Bool → LinkCall  -- pin 5, 12: high or low
  set_speed : Bool → LinkCall
  set_duplex : Bool → LinkCall
  link_up_callback : LinkCall
  link_down_callback : LinkCall
  debug_status : Bool → LinkCall
  task_delay : ℕ → LinkCall
  debug_address : LinkCall

pub record Poll : Type 0 where
  pub changed : Bool  -- PHY_LINK_CHANGED
  pub connected : Bool  -- PHY_LINK_CONNECTED
  pub speed100 : Bool  -- PHY_LINK_SPEED100
  pub full_duplex : Bool  -- PHY_LINK_FULLDUPLX
  pub ip_addr : ℕ

-- The static `prt_ip` as a truth value, and the calls so far, the last one first.
pub record Monitor : Type 0 where
  pub prt_ip : Bool
  pub calls : List LinkCall

abbrev pub tick_rate_hz : ℕ
tick_rate_hz = 1000

abbrev pub log : LinkCall → Monitor → Monitor
log c m = record m { calls = c ∷ m.calls }

unfoldable pub connect : Poll → Monitor → Monitor
connect p m =
    let m₁ = record (log (set_pin_out true) m) { prt_ip = false } in
    let m₂ = log (set_speed (if p.speed100 then true else false)) m₁ in
    let m₃ = log (set_duplex (if p.full_duplex then true else false)) m₂ in log link_up_callback m₃

unfoldable pub disconnect : Monitor → Monitor
disconnect m = log link_down_callback (log (set_pin_out false) m)

unfoldable pub handle_change : Poll → Monitor → Monitor
unfolding connect disconnect
handle_change p m =
    if p.changed
    then (let m₁ = if p.connected then connect p m else disconnect m in
        log (task_delay (tick_rate_hz / 4)) (log (debug_status p.connected) m₁))
    else m

unfoldable pub print_address : Poll → Monitor → Monitor
print_address p m =
    if not m.prt_ip && not (p.ip_addr == 0)
    then record (log debug_address m) { prt_ip = true }
    else m

-- One pass of the loop.
unfoldable pub pass : Poll → Monitor → Monitor
unfolding handle_change print_address
pass p m = print_address p (handle_change p m)

-- The passes for the polls, the first one first.
unfoldable pub monitor : List Poll → Monitor → Monitor
unfolding pass
monitor [] m = m
monitor (p ∷ ps) m = monitor ps (pass p m)
