-- ===== src/Command/Settles.antt =====
-- The worker command (cmd/worker/main.go) with the pool that it builds: what it leaves when it ends.
use pulse_notify.Prelude.{ℕ, pos_part, ◌≡◌, sym, ap, ◌∙◌, inl, inr, some, none, List, []}
use pulse_notify.Errors.{ok}
use pulse_notify.Model.{NotificationEvent}
use pulse_notify.External.{Postgres, UuidPackage, Codec}
use pulse_notify.State.{State}
use pulse_notify.Config.{Env, Config, load}
use pulse_notify.Process.{Process, Host, exited}
use pulse_notify.Worker.Notifier.{Context, Random}
use pulse_notify.Worker.Pool.{Consumer}
use pulse_notify.Worker.Dispatch.{Run, returned}
use pulse_notify.Worker.System.{System, Turn, turns, system_start, view}
use pulse_notify.Worker.Settled.{IsSettled, pool_settles}
use pulse_notify.Command.Worker.{worker_main}
use pulse_notify.Command.Drain.{workers, ok-injective, worker_main-WorkEnds}
use pulse_notify.Command.Wiring.{worker_pool}

-- When the command ends with code 0, after any order of turns of the dispatcher and the workers of
-- the pool that it builds from its configuration: CommitMessages was called with each message that
-- was fetched, as often as it was fetched, but for at most one that nobody took, and with no other;
-- each event among them had an UPDATE of its own, for the notification that it names; and the rows
-- of each notification show the newest UPDATE of it that the server carried out.
pub worker_main_settles :
    {W V F : Type 0} (host : Host W) (consumer : Consumer V) (repo : Postgres V) (ctx : Context V)
    (random : Random V F) (uuid : UuidPackage) (codec : Codec NotificationEvent) (quarter : F)
    (fraction : ℕ → ℕ → ℕ → ℕ) (dotenv : Env → Env) (before : Env) (cfg : Config)
    (reached : ℕ → Run) (s : State V) (ts : List (Turn V)) (y : System V) (q : Process W)
    → q.effects ≡ []
    → load fraction dotenv before ≡ ok cfg
    → let p = worker_pool consumer repo ctx random uuid codec quarter cfg in
      turns p ts (system_start (pos_part p.concurrency) s) ≡ some y
      → reached (workers host cfg) ≡ view y
      → (worker_main host fraction dotenv before reached q).0 ≡ exited 0
      → IsSettled (worker_pool consumer repo ctx random uuid codec quarter cfg) s y
worker_main_settles host consumer repo ctx random uuid codec quarter fraction dotenv before cfg
      reached s ts y q start loaded steps there done =
    let p = worker_pool consumer repo ctx random uuid codec quarter cfg in
    let stopped : returned (view y) ≡ some none =
      elim (worker_main-WorkEnds host fraction dotenv before reached q start) [
        | inl (e, bad, panics, _) ↦ cc
        | inr (cfg1, loaded1, inl (e, refused, failed, _)) ↦ cc
        | inr (cfg1, loaded1, inr (pool, connected, inl (e, unmigrated, failed, _))) ↦ cc
        | inr (cfg1, loaded1, inr (pool, connected, inr (migrated, inl (waiting, _, _)))) ↦ cc
        | inr (cfg1, loaded1, inr (pool, connected, inr (migrated, inr (ended, result_there, _)))) ↦
            let same : cfg1 ≡ cfg = ok-injective (sym loaded1 ∙ loaded) in
            ap returned (sym there)
            ∙ ap (λ c. returned (reached (workers host c))) (sym same)
            ∙ result_there
      ] in
    pool_settles p (pos_part p.concurrency) s ts y steps stopped
