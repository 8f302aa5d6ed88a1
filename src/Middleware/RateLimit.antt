-- ===== src/Middleware/RateLimit.antt =====
-- internal/middleware/ratelimit.go
use pulse_notify.Prelude.{
  arith, inl, inr, ltb, Bool-cases, ◌≡◌, ◌⊎◌, refl, ◌<◌, ◌^◌, true, false, ◌-◌, ℕ, ◌+◌, ◌/◌, ℤ, pos,
  negsuc, leb_ℤ, ltb_ℤ, ◌-ℤ◌, wrap64, Option, none, some, if◌then◌else◌, ◌++◌, Text, codes,
  signed_decimal,
}
use pulse_notify.Errors.{ok, err, Result-cases}
use pulse_notify.Model.{Duration}
use pulse_notify.External.{Redis}
use pulse_notify.State.{State}
use pulse_notify.Cache.{incr_with_window}
use pulse_notify.Http.{GinContext, Response, HandlerFunc, error_body, respond, header}

abbrev pub rate_key : Text → Text
rate_key ip = codes "ratelimit:" ++ ip

-- int(window.Seconds()), for a window that float64 holds exactly: whole seconds, towards zero.
abbrev pub seconds : Duration → ℤ
seconds (pos n) = pos (n / 1000000000)
seconds (negsuc n) =
    if leb_ℤ (pos 1000000000) (pos (n + 1)) then negsuc ((n + 1) / 1000000000 - 1) else pos 0

-- remaining, floored at 0
abbrev pub remaining : ℤ → ℤ → ℤ
remaining limit count =
    let rest = wrap64 (limit -ℤ count) in if ltb_ℤ rest (pos 0) then pos 0 else rest

-- The part after IncrWithWindow.
unfoldable pub judge : ℤ → Duration → ℤ → GinContext → GinContext
judge limit window count ctx =
    let ctx1 =
      header (codes "X-RateLimit-Remaining") (signed_decimal (remaining limit count))
        (header (codes "X-RateLimit-Limit") (signed_decimal limit) ctx) in
    if ltb_ℤ limit count
    then respond 429 (error_body (codes "rate limit exceeded, slow down"))
        (header (codes "Retry-After") (signed_decimal (seconds window)) ctx1)
    else ctx1

-- RateLimit(c, log, limit, window)
unfoldable pub rate_limit : {W : Type 0} → Option (Redis W) → ℤ → Duration → HandlerFunc W
rate_limit none limit window ctx s = (ctx, s)
rate_limit (some c) limit window ctx s = elim (leb_ℤ limit (pos 0)) [
  | true ↦ (ctx, s)
  | false ↦
      let (r, s1) = incr_with_window c (rate_key ctx.client_ip) window s in
      elim r [ err e ↦ (ctx, s1) | ok count ↦ (judge limit window count ctx, s1) ]
]

abbrev pub too_many : Response
too_many = record { status = 429; body = error_body (codes "rate limit exceeded, slow down") }

-- An enabled limiter that gets a count from 0 to the largest int64 answers 429 exactly when the
-- count is above the limit, and otherwise writes no response. The X-RateLimit-Remaining that it
-- announces is the limit less the count, or 0.
pub rate_limit-decides :
    {W : Type 0} (c : Redis W) (limit count : ℕ) (window : Duration) (ctx : GinContext)
    (s : State W)
    → 0 < limit
    → limit < 2 ^ 63
    → count < 2 ^ 63
    → ctx.response ≡ none
    → (incr_with_window c (rate_key ctx.client_ip) window s).0 ≡ ok (pos count)
    → ((rate_limit (some c) (pos limit) window ctx s).0.response
        ≡ (if ltb limit count then some too_many else none))
      × (remaining (pos limit) (pos count) ≡ pos (limit - count))
unfolding rate_limit judge wrap64 ◌-ℤ◌
rate_limit-decides c limit count window ctx s positive small counted fresh got =
    let on : leb_ℤ (pos limit) (pos 0) ≡ false = ground arith in
    (rw (on, rate_limit, got) (ground arith), ground arith)

-- The limiter writes no response but its refusal.
pub rate_limit-response :
    {W : Type 0} (cache : Option (Redis W)) (limit : ℤ) (window : Duration) (ctx : GinContext)
    (s : State W)
    → ctx.response ≡ none
    → ((rate_limit cache limit window ctx s).0.response ≡ none)
      ⊎ ((rate_limit cache limit window ctx s).0.response ≡ some too_many)
unfolding rate_limit judge
rate_limit-response none limit window ctx s fresh = inl fresh
rate_limit-response (some c) limit window ctx s fresh = elim (Bool-cases (leb_ℤ limit (pos 0))) [
  | inl off ↦ rw (off, rate_limit) (inl fresh)
  | inr on ↦ elim (Result-cases (incr_with_window c (rate_key ctx.client_ip) window s).0) [
    | inr (e, failed) ↦ rw (on, rate_limit, failed) (inl fresh)
    | inl (n, counted) ↦ elim (Bool-cases (ltb_ℤ limit n)) [
      | inl over ↦ rw (on, rate_limit, counted, judge, over) (inr refl)
      | inr within ↦ rw (on, rate_limit, counted, judge, within) (inl fresh)
    ]
  ]
]
