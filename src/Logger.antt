-- ===== src/Logger.antt =====
-- pkg/logger/log.go: the level that is set, and the level of each message.
use mchat.Base.{
  ◌≡◌, refl, Bool, true, false, Option, none, some, inl, inr, Option-cases, if◌then◌else◌, [], ◌∷◌,
  Bytes, codes, equal,
}
use mchat.Dict.{Dict, lookup}
use mchat.Text.{to_lower}

-- the levels of zerolog that the program names
pub data Level : Type 0 where
  debug_level info_level warn_level error_level fatal_level panic_level disabled trace_level : Level

abbrev pub log_level_map : Dict Level
log_level_map =
    (codes "debug", debug_level)
    ∷ (codes "info", info_level)
    ∷ (codes "warning", warn_level)
    ∷ (codes "error", error_level)
    ∷ (codes "fatal", fatal_level)
    ∷ (codes "panic", panic_level)
    ∷ (codes "disabled", disabled)
    ∷ (codes "trace", trace_level)
    ∷ []

-- The global level, and whether an error is returned.
unfoldable pub set_log_level : Level → Bytes → Level × Bool
unfolding lookup
set_log_level global level = elim (lookup log_level_map level) [
  | none ↦ (global, true)
  | some l ↦ (l, false)
]

-- The global level after `setupLogger`, and the level of the logger.
unfoldable pub setup_logger : Level → Bytes → Level × Bytes
unfolding set_log_level to_lower
setup_logger global level =
    let level = to_lower level in
    let (set, undefined_level) = set_log_level global level in
    if undefined_level then (set, level) else ((set_log_level set (codes "debug")).0, level)

-- the methods of the logger
pub data Method : Type 0 where
  info debug warn error fatal trace panic : Method

-- The event of zerolog that a level leads to, if one does.
unfoldable pub log : Level → Option Level
log disabled = none
log level = some level

unfoldable pub call : Method → Option Level
unfolding log
call info = log info_level
call debug = log debug_level
call warn = log warn_level
call error = log error_level
call fatal = log panic_level
call trace = log trace_level
call panic = log panic_level

-- Whatever level is asked for, the global level is the one before or the debug level.
pub setup_logger_ignores :
    (global : Level) (level : Bytes)
    → (setup_logger global level).0
      ≡ elim (lookup log_level_map (to_lower level)) [ none ↦ global | some l ↦ debug_level ]
unfolding setup_logger set_log_level lookup equal
setup_logger_ignores global level = elim (Option-cases (lookup log_level_map (to_lower level))) [
  | inl missing ↦ rw (setup_logger, set_log_level, missing) refl
  | inr (l, there) ↦ rw (setup_logger, set_log_level, there) (unfold lookup in refl)
]
