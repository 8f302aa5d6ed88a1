-- ===== src/Repository/Writes.antt =====
-- The writes of internal/repository, and what they keep of the tables.
use pulse_notify.Prelude.{ℤ, Text}
use pulse_notify.Model.{Uuid}
use pulse_notify.External.{Postgres}
use pulse_notify.State.{State}
use pulse_notify.Database.Outcome.{run_statement-keeps}
use pulse_notify.Repository.Users
use pulse_notify.Repository.Users.{new_user, insert_user}
use pulse_notify.Repository.Notifications
use pulse_notify.Repository.Notifications.{
  new_notification, insert_notification, update_rows, set_sent, set_failed, update_sent,
  update_failed,
}
use pulse_notify.Repository.Integrity.{
  IsValid, insert_user-IsValid, insert_notification-IsValid, update_sent-IsValid,
  update_failed-IsValid,
}

-- The writes of the two repositories.
pub data Write : Type 0 where
  create_user : Text → Text → Text → Text → Write
  create_notification : Uuid → Text → Text → Text → Text → Write
  mark_sent : Uuid → ℤ → Write
  mark_failed : Uuid → ℤ → Text → Write

module _ {W : Type 0} (pg : Postgres W) where
  -- The state after a write, whatever its result.
  unfoldable pub perform : Write → State W → State W
  perform (create_user email hash name role) s = (Users.create pg email hash name role s).1
  perform (create_notification user_id channel recipient subject body) s =
      (Notifications.create pg user_id channel recipient subject body s).1
  perform (mark_sent id attempts) s = (Notifications.mark_sent pg id attempts s).1
  perform (mark_failed id attempts last_error) s =
      (Notifications.mark_failed pg id attempts last_error s).1

  -- A write keeps the integrity of the tables, also where the server refuses the statement, a
  -- constraint fails, or the answer is lost.
  pub perform-IsValid : (w : Write) (s : State W) → IsValid s.db → IsValid (perform w s).db
  unfolding perform Users.create Notifications.create Notifications.mark_sent
      Notifications.mark_failed
  perform-IsValid (create_user email hash name role) s v =
      run_statement-keeps IsValid pg (insert_user email hash name role)
        (insert_user-IsValid email hash name role) s v
  perform-IsValid (create_notification user_id channel recipient subject body) s v =
      run_statement-keeps IsValid pg (insert_notification user_id channel recipient subject body)
        (insert_notification-IsValid user_id channel recipient subject body) s v
  perform-IsValid (mark_sent id attempts) s v =
      run_statement-keeps IsValid pg (update_sent id attempts) (update_sent-IsValid id attempts) s v
  perform-IsValid (mark_failed id attempts last_error) s v =
      run_statement-keeps IsValid pg (update_failed id attempts last_error)
        (update_failed-IsValid id attempts last_error) s v
