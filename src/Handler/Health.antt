-- ===== src/Handler/Health.antt =====
-- internal/handler/health.go. The deadlines of the two pings are not counted.
use pulse_notify.Prelude.{
  ℕ, ◌+◌, ◌*◌, ◌/◌, ◌-◌, pos, Bool, true, false, ◌&&◌, ◌≡◌, refl, Option, none, some, if◌then◌else◌,
  Text, codes,
}
use pulse_notify.Errors.{Error}
use pulse_notify.Model.{Instant}
use pulse_notify.External.{Postgres, Redis, Clock}
use pulse_notify.State.{State}
use pulse_notify.Http.{GinContext, HandlerFunc, HealthReport, health_body, respond}

-- The handler's fields, and the clock; a pool or a client that is nil is `none`.
pub record HealthHandler (W : Type 0) : Type 0 where
  pub started_at : Instant
  pub db : Option (Postgres W)
  pub cache : Option (Redis W)
  pub clock : Clock W

-- What became of one of the two services.
pub data Reach : Type 0 where
  up unreachable not_configured : Reach

abbrev pub reach_text : Reach → Text
reach_text up = codes "up"
reach_text unreachable = codes "down"
reach_text not_configured = codes "not_configured"

abbrev pub reach_of : Option Error → Reach
reach_of none = up
reach_of (some e) = unreachable

abbrev pub is_fine : Reach → Bool
is_fine unreachable = false
is_fine _ = true

-- One of the two blocks of Check: the ping of a service, if it is configured.
abbrev pub probe : {W P : Type 0} → Option P → (P → W → Option Error × W) → W → Reach × W
probe none ping w = (not_configured, w)
probe (some p) ping w = let (e, w1) = ping p w in (reach_of e, w1)

-- d.Round(time.Second), for a duration that is not negative: half a second rounds up.
abbrev pub round_to_seconds : ℕ → ℕ
round_to_seconds d = (d + 500000000) / 1000000000 * 1000000000

module _ {W : Type 0} (h : HealthHandler W) where
  abbrev pub db_probe : W → Reach × W
  db_probe w = probe h.db (λ (p : Postgres W). p.ping) w

  abbrev pub redis_probe : W → Reach × W
  redis_probe w = probe h.cache (λ (p : Redis W). p.ping) w

  -- (h *HealthHandler) Check; the uptime is rounded to seconds.
  unfoldable pub check : HandlerFunc W
  check c s =
      let (db_reach, w1) = db_probe s.world in
      let (redis_reach, w2) = redis_probe w1 in
      let (t1, w3) = h.clock w2 in
      let (t2, w4) = h.clock w3 in
      let fine = is_fine db_reach && is_fine redis_reach in
      let report : HealthReport = record {
        status = if fine then codes "ok" else codes "degraded";
        service = codes "pulse-notify-api";
        database = reach_text db_reach;
        redis = reach_text redis_reach;
        uptime = pos (round_to_seconds (t1 - h.started_at));
        timestamp = t2;
      } in
      (respond (if fine then 200 else 503) (health_body report) c, record s { world = w4 })

  -- Check answers 200 if each configured one of the two services answers its ping, and otherwise
  -- 503; the report names what each did, in this order: the database, then Redis.
  pub check-status :
      (c : GinContext) (s : State W)
      → (report : HealthReport) × ((check c s).0.response
          ≡ some (record {
            status =
                if is_fine (db_probe s.world).0 && is_fine (redis_probe (db_probe s.world).1).0
                then 200
                else 503;
            body = health_body report;
          }))
        × (report.database ≡ reach_text (db_probe s.world).0)
        × (report.redis ≡ reach_text (redis_probe (db_probe s.world).1).0)
        × ((check c s).1.db ≡ s.db)
  unfolding check
  check-status c s = (_, refl, refl, refl, refl)
