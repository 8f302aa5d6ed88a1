-- ===== src/Logger.antt =====
-- internal/logger/logger.go. What a slog handler writes for a record is not modelled.
use pulse_notify.Prelude.{ℕ, if◌then◌else◌, Text, text_eq, codes, to_lower}

-- The levels of log/slog.
pub data Level : Type 0 where
  level_debug level_info level_warn level_error : Level

-- slog.NewTextHandler and slog.NewJSONHandler on os.Stdout
pub data Format : Type 0 where
  text_handler json_handler : Format

pub record Logger : Type 0 where
  pub format : Format
  pub level : Level

-- parseLevel; `fold` is unicode.ToLower above ASCII.
unfoldable pub parse_level : (ℕ → ℕ) → Text → Level
unfolding to_lower text_eq
parse_level fold level =
    let lowered = to_lower fold level in
    if text_eq lowered (codes "debug")
    then level_debug
    else if text_eq lowered (codes "warn")
    then level_warn
    else if text_eq lowered (codes "error")
    then level_error
    else level_info

-- New
unfoldable pub new : (ℕ → ℕ) → Text → Text → Logger
unfolding parse_level
new fold app_env level = record {
  format = if text_eq app_env (codes "development") then text_handler else json_handler;
  level = parse_level fold level;
}
