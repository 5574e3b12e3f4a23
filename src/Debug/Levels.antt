-- ===== src/Debug/Levels.antt =====
-- Which debug output is printed.
use rtu_com.Common.{Bool, true, ◌≡◌, ◌≤◌, arith}
use rtu_com.Device.{Level}
use rtu_com.Debug.{DebugState, level_code, debug_set_level, l_debug}

-- A higher `debugLevel` prints no more: what is printed at a level of the variable is printed at each
-- lower one.
pub debug_set_level-l_debug :
    (enabled : Bool) (d : DebugState) (lower higher level : Level)
    → level_code lower ≤ level_code higher
    → l_debug enabled (debug_set_level higher d) level ≡ true
    → l_debug enabled (debug_set_level lower d) level ≡ true
unfolding l_debug
debug_set_level-l_debug enabled d lower higher level h printed = ground arith
