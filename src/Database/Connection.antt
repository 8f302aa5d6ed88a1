-- ===== src/Database/Connection.antt =====
-- Connect of internal/database/postgres.go. The deadlines of the contexts are not counted.
use pulse_notify.Prelude.{pos, refl, inl, inr, none, some, Option-cases, Text, codes}
use pulse_notify.Errors.{wrapped, ok, err, Result-cases}
use pulse_notify.Process.{
  PoolConfig, database_pool, opened, closed, Process, Host, Action, note, IsOpening,
}

-- What Connect sets besides the URL's settings: one hour is the longest life of a connection.
abbrev pub pool_config : Text → PoolConfig
pool_config connection = record {
  connection = connection;
  max_conns = pos 10;
  min_conns = pos 2;
  max_conn_lifetime = pos 3600000000000;
}

-- (*Pool).Close
abbrev pub close_pool : {W : Type 0} → PoolConfig → Process W → Process W
close_pool c p = note (closed (database_pool c)) p

module _ {W : Type 0} (host : Host W) where
  -- The part of Connect after NewWithConfig: the ping.
  abbrev ping_or_close : PoolConfig → Action W PoolConfig
  ping_or_close c p =
      let (e, w) = host.ping_pool p.world in
      let p1 = record p { world = w } in
      elim e [
        | none ↦ (ok c, p1)
        | some x ↦ (err (wrapped (codes "ping database") x), close_pool c p1)
      ]

  abbrev open_pool : PoolConfig → Action W PoolConfig
  open_pool c p =
      let (e, w) = host.new_with_config c p.world in
      let p1 = record p { world = w } in
      elim e [
        | none ↦ ping_or_close c (note (opened (database_pool c)) p1)
        | some x ↦ (err (wrapped (codes "connect database") x), p1)
      ]

  -- Connect
  unfoldable pub connect : Text → Action W PoolConfig
  connect url p = elim (host.parse_config url) [
    | err e ↦ (err (wrapped (codes "parse database url") e), p)
    | ok connection ↦ open_pool (pool_config connection) p
  ]

  -- Connect opens a pool, or fails and leaves none open.
  pub connect-IsOpening :
      (url : Text) (p : Process W) → IsOpening database_pool p.effects (connect url p)
  unfolding connect
  connect-IsOpening url p = elim (Result-cases (host.parse_config url)) [
    | inr (e, bad) ↦ rw (bad, connect) (inr (_, refl, inl refl))
    | inl (connection, parsed) ↦
        let c = pool_config connection in
        elim (Option-cases (host.new_with_config c p.world).0) [
          | inr (e, bad) ↦ rw (parsed, connect, open_pool, bad) (inr (_, refl, inl refl))
          | inl good ↦
              let w = (host.new_with_config c p.world).1 in
              elim (Option-cases (host.ping_pool w).0) [
                | inr (e, bad) ↦
                    rw (parsed, connect, open_pool, good, ping_or_close, bad)
                      (inr (_, refl, inr (_, refl)))
                | inl answered ↦
                    rw (parsed, connect, open_pool, good, ping_or_close, answered)
                      (inl (_, refl, refl))
              ]
        ]
  ]
