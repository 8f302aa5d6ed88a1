-- ===== src/Server.antt =====
-- internal/server/server.go. The goroutine that listens and the signals reach Run as the events of
-- its select, in the order in which it receives them.
use pulse_notify.Prelude.{pos, Option, none, some, List, [], ◌∷◌, if◌then◌else◌, Text, codes}
use pulse_notify.Errors.{Error, server_closed, errors_is, wrapped}
use pulse_notify.Model.{Duration}
use pulse_notify.Config.{Config, addr}
use pulse_notify.Database.Connection.{close_pool}
use pulse_notify.Process.{PoolConfig, served, shut_down, Process, Host, note}

-- The fields of Server and of its http.Server; a pool that is nil is `none`. The engine is the
-- routes of Router.
pub record Server : Type 0 where
  pub address : Text
  pub db : Option PoolConfig
  pub read_timeout : Duration
  pub write_timeout : Duration
  pub idle_timeout : Duration

-- New
abbrev pub new : Config → Option PoolConfig → Server
new cfg db = record {
  address = addr cfg;
  db = db;
  read_timeout = pos 10000000000;
  write_timeout = pos 30000000000;
  idle_timeout = pos 60000000000;
}

pub data ServerEvent : Type 0 where
  -- ListenAndServe returned
  serve_returned : Option Error → ServerEvent
  -- SIGINT or SIGTERM
  signalled : ServerEvent

-- The select: none while nothing has woken it, then an error of the listener, or none for a signal.
unfoldable pub wait : List ServerEvent → Option (Option Error)
wait [] = none
wait (signalled ∷ es) = some none
wait (serve_returned none ∷ es) = wait es
wait (serve_returned (some e) ∷ es) =
    let rest = wait es in
    if errors_is e server_closed then rest else some (some (wrapped (codes "listen") e))

module _ {W : Type 0} (host : Host W) where
  abbrev close_if_some : Option PoolConfig → Process W → Process W
  close_if_some none p = p
  close_if_some (some c) p = close_pool c p

  -- The part of Run after a signal.
  unfoldable pub stop : Server → Process W → Option Error × Process W
  stop s p =
      let (e, w) = host.shutdown p.world in
      let p1 = note shut_down (record p { world = w }) in
      elim e [
        | some x ↦ (some (wrapped (codes "shutdown") x), p1)
        | none ↦ (none, close_if_some s.db p1)
      ]

  -- (s *Server) Run: none while it waits, and then what it returns.
  unfoldable pub run : Server → List ServerEvent → Process W → Option (Option Error) × Process W
  unfolding wait stop
  run s events p =
      let p1 = note (served s.address) p in
      elim (wait events) [
        | none ↦ (none, p1)
        | some (some e) ↦ (some (some e), p1)
        | some none ↦ let (e, p2) = stop s p1 in (some e, p2)
      ]
