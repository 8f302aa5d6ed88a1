-- ===== src/Tests/Repository.antt =====
-- The repositories' theorems at concrete inputs.
use pulse_notify.Prelude.{pos, ◌==◌, ◌≡◌, refl, [], ◌∷◌, arith, select}
use pulse_notify.Errors.{ok}
use pulse_notify.Model.{Notification}
use pulse_notify.Repository.Notifications.{list_by_user, list_all}
use pulse_notify.Repository.Integrity.{IsValid}
use pulse_notify.Repository.Listing.{AreNewest, list_by_user-AreNewest}
use pulse_notify.Tests.World.{db, pg, row, start}

pub db-IsValid : IsValid db
db-IsValid = record {
  distinct_users = (tt, tt);
  distinct_ids = (((λ e. ground arith), tt), (tt, tt));
  owned = (refl, (refl, tt));
  user_widths = (refl, tt);
  widths = (refl, (refl, tt));
  consistent = ((refl, refl, refl), ((refl, refl, refl), tt));
}

newest_of_ann : (list_by_user pg 1 (pos 1) start).0 ≡ ok (row 8 5 ∷ [])
unfolding list_by_user
newest_of_ann = refl

newest_of_all : (list_all pg (pos 1) start).0 ≡ ok (row 8 5 ∷ [])
unfolding list_all
newest_of_all = refl

list_by_user-AreNewest_example :
    AreNewest 1 (select (λ (n : Notification). n.user_id == 1) db.notifications) (row 8 5 ∷ [])
    × ((list_by_user pg 1 (pos 1) start).1.db ≡ db)
list_by_user-AreNewest_example = list_by_user-AreNewest pg 1 start (row 8 5 ∷ []) 1 newest_of_ann
