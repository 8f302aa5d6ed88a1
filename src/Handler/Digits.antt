-- ===== src/Handler/Digits.antt =====
-- parseLimit (internal/handler/notification.go) reads every int in the way that fmt writes it.
use pulse_notify.Prelude.{
  ◌+◌, ℤ, pos, negsuc, ◌≡◌, text_eq_iff, [], arith, text_eq, decimal, signed_decimal, IsInt64,
}
use pulse_notify.Parsing.Digits.{decimal-nonempty, digits-decimal, atoi_unsigned, atoi_negative}
use pulse_notify.Handler.Limits.{parse_limit}

-- parseLimit of the decimal text of an int, with its sign, is the int.
pub parse_limit-signed_decimal : (z : ℤ) → IsInt64 z → parse_limit (signed_decimal z) ≡ z
unfolding parse_limit signed_decimal text_eq
parse_limit-signed_decimal (pos n) h = ground (
  arith,
  decimal-nonempty n,
  text_eq_iff (decimal n) [],
  atoi_unsigned (decimal n) n (digits-decimal n),
)
parse_limit-signed_decimal (negsuc n) h =
    ground (arith, atoi_negative (decimal (n + 1)) (n + 1) (digits-decimal (n + 1)))
