-- ===== src/Cache/Connection.antt =====
-- Connect and Close of internal/cache/redis.go.
use pulse_notify.Prelude.{refl, inl, inr, Option, none, some, Option-cases, Text, codes}
use pulse_notify.Errors.{Error, wrapped, ok, err, Result-cases}
use pulse_notify.Process.{redis_client, opened, closed, Process, Host, Action, note, IsOpening}

module _ {W : Type 0} (host : Host W) where
  -- (c *Client) Close
  abbrev pub close : Text → Process W → Option Error × Process W
  close options p =
      let (e, w) = host.close_redis p.world in
      (e, note (closed (redis_client options)) (record p { world = w }))

  -- redis.NewClient, and the part of Connect after it: the ping, and Close without its error.
  abbrev ping_or_close : Text → Action W Text
  ping_or_close options p =
      let (e, w) = host.ping_redis p.world in
      let p1 = note (opened (redis_client options)) (record p { world = w }) in
      elim e [
        | none ↦ (ok options, p1)
        | some x ↦ (err (wrapped (codes "ping redis") x), (close options p1).1)
      ]

  -- Connect
  unfoldable pub connect : Text → Action W Text
  connect url p = elim (host.parse_url url) [
    | err e ↦ (err (wrapped (codes "parse redis url") e), p)
    | ok options ↦ ping_or_close options p
  ]

  -- Connect opens a client, or fails and leaves none open.
  pub connect-IsOpening :
      (url : Text) (p : Process W) → IsOpening redis_client p.effects (connect url p)
  unfolding connect
  connect-IsOpening url p = elim (Result-cases (host.parse_url url)) [
    | inr (e, bad) ↦ rw (bad, connect) (inr (_, refl, inl refl))
    | inl (options, parsed) ↦ elim (Option-cases (host.ping_redis p.world).0) [
      | inr (e, bad) ↦ rw (parsed, connect, ping_or_close, bad) (inr (_, refl, inr (_, refl)))
      | inl answered ↦ rw (parsed, connect, ping_or_close, answered) (inl (_, refl, refl))
    ]
  ]
