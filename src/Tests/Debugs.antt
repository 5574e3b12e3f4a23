-- ===== src/Tests/Debugs.antt =====
-- The debug module of com/src/debug.c at concrete calls.
use rtu_com.Common.{List, [], ◌∷◌, true, ◌≡◌, refl, none, some}
use rtu_com.Device.{Level}
use rtu_com.Debug.{initial, debug_to_file, debug_close, debug_set_level, l_debug}
use rtu_com.Debug.Files.{DebugCall, set_level, to_file, run_calls, IsTracked, run_calls-IsTracked}

abbrev calls : List DebugCall
calls = to_file (some 4) ∷ set_level Level.error ∷ to_file none ∷ to_file (some 5) ∷ []

calls_files : (run_calls calls initial).open_files ≡ 5 ∷ []
unfolding debug_to_file debug_close
calls_files = refl

run_calls-IsTracked_example : IsTracked (run_calls calls initial)
run_calls-IsTracked_example = run_calls-IsTracked calls initial refl

warn_printed : l_debug true (debug_set_level Level.warn initial) Level.warn ≡ true
unfolding l_debug
warn_printed = refl
