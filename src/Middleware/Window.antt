-- ===== src/Middleware/Window.antt =====
-- The limiter (internal/middleware/ratelimit.go) over IncrWithWindow (internal/cache/redis.go), with
-- a Redis whose INCR and EXPIRE do as documented.
use native.Mathlib.Nat.{add-zero}
use pulse_notify.Prelude.{
  ℕ, suc, ◌+◌, ◌*◌, ◌<◌, ◌^◌, pos, ltb, ◌≡◌, refl, subst, ℤ, leb_ℤ, false, Option, none, some, List,
  [], ◌∷◌, arith, All, length, Text, if◌then◌else◌,
}
use pulse_notify.Errors.{Result, ok}
use pulse_notify.Model.{Instant}
use pulse_notify.External.{Redis, incr, expire}
use pulse_notify.State.{State}
use pulse_notify.Cache.{incr_with_window}
use pulse_notify.Http.{GinContext}
use pulse_notify.Middleware.RateLimit.{rate_key, rate_limit, rate_limit-decides, too_many}

-- A counter that is still alive.
abbrev pub live : Instant → Option (ℕ × Instant) → ℕ
live now none = 0
live now (some (n, deadline)) = if ltb now deadline then n else 0

-- A number of seconds as a duration.
abbrev pub of_seconds : ℕ → ℕ
of_seconds n = n * 1000000000

-- The documented effect of a transaction of INCR and EXPIRE, with the passing of time. `counter`
-- is the value at a key and the instant at which it expires. EXPIRE takes a positive number of
-- whole seconds; go-redis rounds other durations, of which nothing is said here.
pub record Counts {W : Type 0} (c : Redis W) : Type 0 where
  pub now : W → Instant
  pub counter : W → Text → Option (ℕ × Instant)
  pub later : ℕ → W → W
  pub now-later : (t : ℕ) (w : W) → now (later t w) ≡ now w + t
  pub counter-later : (t : ℕ) (w : W) (key : Text) → counter (later t w) key ≡ counter w key
  pub incr_reply :
      (key : Text) (d : ℕ) (w : W)
      → (c.tx_pipeline (incr key ∷ expire key (pos (of_seconds d)) ∷ []) w).0
        ≡ ok (pos (suc (live (now w) (counter w key))) ∷ pos 1 ∷ [])
  pub incr_effect :
      (key : Text) (d : ℕ) (w : W)
      → 0 < d
      → counter (c.tx_pipeline (incr key ∷ expire key (pos (of_seconds d)) ∷ []) w).1 key
        ≡ some (suc (live (now w) (counter w key)), now w + of_seconds d)
  pub incr_now :
      (key : Text) (d : ℕ) (w : W)
      → now (c.tx_pipeline (incr key ∷ expire key (pos (of_seconds d)) ∷ []) w).1 ≡ now w

module _ {W : Type 0} (c : Redis W) (laws : Counts c) (limit secs : ℕ) (ctx : GinContext) where
  -- A window of whole seconds.
  abbrev pub window : ℕ
  window = of_seconds secs

  abbrev pub advance : ℕ → State W → State W
  advance gap s = record s { world = laws.later gap s.world }

  -- One request of the client, through the limiter.
  abbrev pub visit : State W → GinContext × State W
  visit s = rate_limit (some c) (pos limit) (pos window) ctx s

  -- Requests after the given gaps.
  unfoldable pub visits : List ℕ → State W → State W
  visits [] s = s
  visits (gap ∷ gaps) s = visits gaps (visit (advance gap s)).1

  abbrev key : Text
  key = rate_key ctx.client_ip

  -- `n` requests have been counted, and the counter outlives every gap shorter than a window.
  abbrev IsCounted : ℕ → State W → Type 0
  IsCounted n s =
      (gap : ℕ) → gap < window → live (laws.now s.world + gap) (laws.counter s.world key) ≡ n

  seen :
      (n gap : ℕ) (s : State W)
      → IsCounted n s
      → gap < window
      → live (laws.now (advance gap s).world) (laws.counter (advance gap s).world key) ≡ n
  seen n gap s counted short =
      rw (laws.now-later gap s.world, laws.counter-later gap s.world key) (counted gap short)

  abbrev increment : W → Result (List ℤ) × W
  increment = c.tx_pipeline (incr key ∷ expire key (pos window) ∷ [])

  incr_with_window-value :
      (s : State W)
      → (incr_with_window c key (pos window) s).0
        ≡ ok (pos (suc (live (laws.now s.world) (laws.counter s.world key))))
  unfolding incr_with_window
  incr_with_window-value s = rw (laws.incr_reply key secs s.world, incr_with_window) refl

  incr_with_window-world :
      (s : State W) → (incr_with_window c key (pos window) s).1.world ≡ (increment s.world).1
  unfolding incr_with_window
  incr_with_window-world s = refl

  visit-count :
      (n gap : ℕ) (s : State W)
      → IsCounted n s
      → gap < window
      → (incr_with_window c key (pos window) (advance gap s)).0 ≡ ok (pos (n + 1))
  visit-count n gap s counted short =
      rw (incr_with_window-value (advance gap s), seen n gap s counted short) (ground arith)

  visit-world : (s : State W) → 0 < limit → (visit s).1.world ≡ (increment s.world).1
  unfolding rate_limit
  visit-world s positive =
      let on : leb_ℤ (pos limit) (pos 0) ≡ false = ground arith in
      rw (on, rate_limit, incr_with_window-value s) (incr_with_window-world s)

  visit-IsCounted :
      (n gap : ℕ) (s : State W)
      → 0 < limit
      → 0 < secs
      → IsCounted n s
      → gap < window
      → IsCounted (suc n) (visit (advance gap s)).1
  visit-IsCounted n gap s positive some_time counted short next small =
      let w = (advance gap s).world in
      rw
        (
          visit-world (advance gap s) positive,
          laws.incr_effect key secs w some_time,
          laws.incr_now key secs w,
          seen n gap s counted short,
        )
        (ground arith)

  visits-IsCounted :
      (n : ℕ) (gaps : List ℕ) (s : State W)
      → 0 < limit
      → 0 < secs
      → IsCounted n s
      → All (λ gap. gap < window) gaps
      → IsCounted (n + length gaps) (visits gaps s)
  unfolding visits
  visits-IsCounted n [] s positive some_time counted short = rw (add-zero n) counted
  visits-IsCounted n (gap ∷ gaps) s positive some_time counted (first, rest) =
      subst (λ k. IsCounted k (visits gaps (visit (advance gap s)).1)) (omega arith)
        (visits-IsCounted (suc n) gaps (visit (advance gap s)).1 positive some_time
          (visit-IsCounted n gap s positive some_time counted first) rest)

  -- For a limit and a window of whole seconds, both positive: a client whose counter is not there makes a number of requests, none a window or more after the
  -- one before. Its next request within a window of the last is refused exactly when there were
  -- `limit` requests before, however long ago the first of them was: each request renews the
  -- expiry, so the window slides.
  pub visit_slides :
      (gaps : List ℕ) (gap : ℕ) (s : State W)
      → 0 < limit
      → 0 < secs
      → limit < 2 ^ 63
      → length gaps + 1 < 2 ^ 63
      → laws.counter s.world key ≡ none
      → All (λ g. g < window) gaps
      → gap < window
      → ctx.response ≡ none
      → (visit (advance gap (visits gaps s))).0.response
        ≡ (if ltb limit (length gaps + 1) then some too_many else none)
  visit_slides gaps gap s positive some_time small few fresh short next open_ctx =
      let start : IsCounted 0 s = (λ g q. rw fresh refl) in
      let counted : IsCounted (length gaps) (visits gaps s) =
        subst (λ k. IsCounted k (visits gaps s)) (omega arith)
          (visits-IsCounted 0 gaps s positive some_time start short) in
      (rate_limit-decides c limit (length gaps + 1) (pos window) ctx (advance gap (visits gaps s))
        positive small few open_ctx (visit-count (length gaps) gap (visits gaps s) counted next)).0
