-- ===== src/Debug/Files.antt =====
-- The debug file through any sequence of calls.
use rtu_com.Common.{ℕ, List, [], ◌∷◌, ◌≡◌, ap, ◌∙◌, Option, none, some, arith}
use rtu_com.Device.{Level}
use rtu_com.Debug.{
  Stream, stderr, file, DebugState, debug_set_level, debug_close, debug_to_file, remove,
}

-- The calls that change the variables; one that opens a file comes with the answer of `fopen`.
pub data DebugCall : Type 0 where
  set_level : Level → DebugCall
  to_file : Option ℕ → DebugCall
  close : DebugCall

abbrev pub run_call : DebugCall → DebugState → DebugState
run_call (set_level lvl) d = debug_set_level lvl d
run_call (to_file answer) d = debug_to_file answer d
run_call close d = debug_close d

abbrev pub run_calls : List DebugCall → DebugState → DebugState
run_calls [] d = d
run_calls (c ∷ cs) d = run_calls cs (run_call c d)

abbrev files_of : Option Stream → List ℕ
files_of none = []
files_of (some stderr) = []
files_of (some (file f)) = f ∷ []

-- The open files are the one that `debugFile` points to, and none where it points to no file.
abbrev pub IsTracked : DebugState → Type 0
IsTracked d = d.open_files ≡ files_of d.debug_file

remove_same : (f : ℕ) → remove f (f ∷ []) ≡ []
remove_same f = ground arith

-- No file is open after `debugClose`, and `debugFile` points to none.
debug_close-files :
    (level : Level) (stream : Option Stream) (files : List ℕ)
    → files ≡ files_of stream
    → let d =
        debug_close (record { debug_level = level; debug_file = stream; open_files = files }) in
      (d.open_files ≡ []) × IsTracked d
unfolding debug_close
debug_close-files level none files h = (h, h)
debug_close-files level (some stderr) files h = (h, h)
debug_close-files level (some (file f)) files h =
    let closed = ap (remove f) h ∙ remove_same f in (closed, closed)

run_call-IsTracked : (c : DebugCall) (d : DebugState) → IsTracked d → IsTracked (run_call c d)
unfolding debug_to_file
run_call-IsTracked (set_level lvl) d h = h
run_call-IsTracked close d h = (debug_close-files d.debug_level d.debug_file d.open_files h).1
run_call-IsTracked (to_file none) d h =
    (debug_close-files d.debug_level d.debug_file d.open_files h).1
run_call-IsTracked (to_file (some f)) d h =
    ap (λ fs. f ∷ fs) (debug_close-files d.debug_level d.debug_file d.open_files h).0

-- Through any sequence of the calls of the debug module, whatever `fopen` answers, the open files are
-- the one that `debugFile` points to and none where it points to no file: no stream is leaked, and
-- none is used after it was closed.
pub run_calls-IsTracked :
    (cs : List DebugCall) (d : DebugState) → IsTracked d → IsTracked (run_calls cs d)
run_calls-IsTracked [] d h = h
run_calls-IsTracked (c ∷ cs) d h = run_calls-IsTracked cs (run_call c d) (run_call-IsTracked c d h)
