-- ===== src/Debug.antt =====
-- com/src/debug.c: the level and the file of the debug output, with the test of `lDebug` in
-- com/inc/debug.h. The streams that `fopen` returns are numbered; which streams are open is kept
-- beside the variables of the file.
pub mod Files
pub mod Levels
use rtu_com.Common.{
  ℕ, List, [], ◌∷◌, Bool, true, false, not, ◌&&◌, ◌==◌, leb, if◌then◌else◌, Option, none, some,
}
use rtu_com.Device.{Level}

-- A `FILE *` that is not NULL.
pub data Stream : Type 0 where
  stderr : Stream
  file : ℕ → Stream

pub record DebugState : Type 0 where
  pub debug_level : Level
  pub debug_file : Option Stream
  pub open_files : List ℕ

-- `enum debugLevels debugLevel = Info; FILE *debugFile = NULL;`
abbrev pub initial : DebugState
initial = record { debug_level = Level.info; debug_file = none; open_files = [] }

abbrev pub remove : ℕ → List ℕ → List ℕ
remove f [] = []
remove f (g ∷ gs) = if f == g then remove f gs else g ∷ remove f gs

abbrev pub debug_set_level : Level → DebugState → DebugState
debug_set_level lvl d = record d { debug_level = lvl }

unfoldable pub debug_close : DebugState → DebugState
debug_close d = elim d.debug_file [
  | none ↦ d
  | some s ↦ elim s [
    | stderr ↦ d
    | file f ↦ record d { debug_file = some stderr; open_files = remove f d.open_files }
  ]
]

-- With what `fopen` returns: a stream that is open from then on, or NULL.
unfoldable pub debug_to_file : Option ℕ → DebugState → DebugState
unfolding debug_close
debug_to_file answer d = elim answer [
  | none ↦ debug_close d
  | some f ↦
      let d₁ = debug_close d in
      record d₁ { debug_file = some (file f); open_files = f ∷ d₁.open_files }
]

-- The values of `enum debugLevels`.
abbrev pub level_code : Level → ℕ
level_code Level.debug = 0
level_code Level.info = 1
level_code Level.warn = 2
level_code Level.error = 3

-- Whether `lDebug(level, ...)` prints; the first argument is DEBUG_ENABLED.
unfoldable pub l_debug : Bool → DebugState → Level → Bool
l_debug enabled d level = enabled && leb (level_code d.debug_level) (level_code level)
