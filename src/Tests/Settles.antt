-- ===== src/Tests/Settles.antt =====
-- The worker command with its pool at a concrete input.
use pulse_notify.Prelude.{◌≡◌, refl, some, wrap64, ◌+ℤ◌, ◌*ℤ◌, pos_part}
use pulse_notify.Errors.{errors_is}
use pulse_notify.Config.Defaults.{only}
use pulse_notify.Process.{exited}
use pulse_notify.Worker.Notifier
use pulse_notify.Worker.Pool.{Pool, persist, new_pool}
use pulse_notify.Worker.Steps.{move}
use pulse_notify.Worker.System.{System, turns, system_start, view}
use pulse_notify.Worker.Settled.{IsSettled}
use pulse_notify.Command.Worker.{worker_main}
use pulse_notify.Command.Wiring.{worker_pool}
use pulse_notify.Command.Settles.{worker_main_settles}
use pulse_notify.Tests.World.{Outside, ctx, pg, start, uuid}
use pulse_notify.Tests.Config.{no_fraction, no_file, url, secret, settings, loads}
use pulse_notify.Tests.Commands.{host, fresh}
use pulse_notify.Tests.System.{twice, schedule}
use pulse_notify.Tests.Wiring.{random}

abbrev built : Pool Outside
built = worker_pool twice.consumer pg ctx random uuid twice.codec 1 settings

end :
    (y : System Outside) × (turns built schedule (system_start (pos_part built.concurrency) start)
      ≡ some y)
unfolding turns move persist wrap64 ◌+ℤ◌ ◌*ℤ◌ errors_is new_pool Notifier.send
end = (_, refl)

ends : (worker_main host no_fraction no_file (only url secret) (λ n. view end.0) fresh).0 ≡ exited 0
unfolding worker_main end
ends = rw (worker_main, loads) refl

worker_main_settles_example : IsSettled built start end.0
worker_main_settles_example =
    worker_main_settles host twice.consumer pg ctx random uuid twice.codec 1 no_fraction no_file
      (only url secret) settings (λ n. view end.0) start schedule end.0 fresh refl loads end.1 refl
      ends
