-- ===== src/Link/Prints.antt =====
-- How often the link monitor prints and waits.
use rtu_com.Common.{
  ℕ, ◌+◌, ◌*◌, ◌≤◌, List, [], ◌∷◌, Bool, true, ◌&&◌, ◌≡◌, if◌then◌else◌, arith, ◌≢◌, All,
}
use rtu_com.Link.{
  LinkCall, Poll, Monitor, task_delay, debug_address, connect, disconnect, handle_change,
  print_address, pass, monitor,
}

abbrev prints_of : LinkCall → ℕ
prints_of debug_address = 1
prints_of _ = 0

-- How often the addresses were printed.
abbrev pub prints : List LinkCall → ℕ
prints [] = 0
prints (c ∷ cs) = prints_of c + prints cs

abbrev ticks_of : LinkCall → ℕ
ticks_of (task_delay n) = n
ticks_of _ = 0

-- How long the thread slept, in ticks.
abbrev pub ticks : List LinkCall → ℕ
ticks [] = 0
ticks (c ∷ cs) = ticks_of c + ticks cs

abbrev pub is_connect : Poll → Bool
is_connect p = p.changed && p.connected

-- The polls that report a cable put in, and those that report any change.
abbrev pub connects : List Poll → ℕ
connects [] = 0
connects (p ∷ ps) = (if is_connect p then 1 else 0) + connects ps

abbrev pub changes : List Poll → ℕ
changes [] = 0
changes (p ∷ ps) = (if p.changed then 1 else 0) + changes ps

-- The prints that are still owed: one, unless the addresses have been printed.
abbrev pub owed : Bool → ℕ
owed prt_ip = if prt_ip then 0 else 1

pass-prints :
    (p : Poll) (m : Monitor)
    → prints (pass p m).calls + owed (pass p m).prt_ip
      ≤ prints m.calls + owed m.prt_ip + (if is_connect p then 1 else 0)
unfolding pass handle_change print_address connect disconnect
pass-prints p m = ground arith

-- The addresses are printed at most once for each time the cable is put in, and once more where they
-- had not been printed at the start.
pub monitor-prints :
    (ps : List Poll) (m : Monitor)
    → prints (monitor ps m).calls + owed (monitor ps m).prt_ip
      ≤ prints m.calls + owed m.prt_ip + connects ps
unfolding monitor
monitor-prints [] m = omega arith
monitor-prints (p ∷ ps) m = omega (arith, monitor-prints ps (pass p m), pass-prints p m)

pass-ticks :
    (p : Poll) (m : Monitor)
    → ticks (pass p m).calls ≡ ticks m.calls + 250 * (if p.changed then 1 else 0)
unfolding pass handle_change print_address connect disconnect
pass-ticks p m = ground arith

-- The thread sleeps 250 ticks, a quarter of a second, for each change of the link, and never
-- otherwise.
pub monitor-ticks :
    (ps : List Poll) (m : Monitor) → ticks (monitor ps m).calls ≡ ticks m.calls + 250 * changes ps
unfolding monitor
monitor-ticks [] m = omega arith
monitor-ticks (p ∷ ps) m = omega (arith, monitor-ticks ps (pass p m), pass-ticks p m)

pass_exact :
    (p : Poll) (m : Monitor)
    → p.ip_addr ≢ 0
    → m.prt_ip ≡ true
    → ((pass p m).prt_ip ≡ true)
      × (prints (pass p m).calls ≡ prints m.calls + (if is_connect p then 1 else 0))
unfolding pass handle_change print_address connect disconnect
pass_exact p m h e = ground arith

-- With an address on the interface at every poll, and where it had been printed before, it is printed
-- exactly once for each time the cable is put in.
pub monitor-prints_exact :
    (ps : List Poll) (m : Monitor)
    → All (λ p. p.ip_addr ≢ 0) ps
    → m.prt_ip ≡ true
    → prints (monitor ps m).calls ≡ prints m.calls + connects ps
unfolding monitor
monitor-prints_exact [] m h e = omega arith
monitor-prints_exact (p ∷ ps) m (addressed, h) e =
    let (printed, once) = pass_exact p m addressed e in
    omega (arith, monitor-prints_exact ps (pass p m) h printed, once)
