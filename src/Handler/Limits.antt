-- ===== src/Handler/Limits.antt =====
-- parseLimit of internal/handler/notification.go.
use pulse_notify.Prelude.{ℤ, pos, Option, none, some, [], if◌then◌else◌, Text, text_eq}
use pulse_notify.Parsing.{atoi}

abbrev or_zero : Option ℤ → ℤ
or_zero none = pos 0
or_zero (some v) = v

-- parseLimit
unfoldable pub parse_limit : Text → ℤ
unfolding atoi
parse_limit raw = if text_eq raw [] then pos 0 else or_zero (atoi raw)
