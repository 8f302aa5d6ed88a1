-- ===== src/Service/Tables/Lists.antt =====
-- Which tables the operations of internal/service/notification.go touch.
use pulse_notify.Prelude.{
  ℤ, refl, sym, subst, ◌∙◌, inl, inr, Bool-cases, Option, none, some, List, arith, Text, any,
  text_eq,
}
use pulse_notify.Errors.{ok}
use pulse_notify.Model.{Uuid, Notification, NotificationResponse, notification_to_response}
use pulse_notify.State.{Db, State, pure}
use pulse_notify.State.Inversion.{>>=-keeps}
use pulse_notify.Repository.Notifications
use pulse_notify.Cache.{get_json, set_json}
use pulse_notify.Service.Notifications.{
  NotificationService, canonical, allowed_channels, announce, enqueue_checked, enqueue, cached,
  store, load_list, list_for_user, list_all, normalize_limit, list_key, to_responses,
}
use pulse_notify.Service.Notifications as Service
use pulse_notify.Service.Enqueue.{announce-db}
use pulse_notify.Service.Tables.{Has, find_notification-Has}

module _ {W : Type 0} (svc : NotificationService W) where
  pub get-Has : (id : Uuid) (s : State W) → Has s.db (Service.get svc id s).1
  unfolding Service.get
  get-Has id s =
      >>=-keeps (Has s.db) (Notifications.find_by_id svc.repo id)
        (λ (n : Notification). pure (notification_to_response svc.uuid.to_text n)) s
        (find_notification-Has svc.repo s id) (λ n s1 p. p)

  cached-Has : (key : Text) (s : State W) → Has s.db (cached svc key s).1
  unfolding get_json
  cached-Has key s = ground arith

  store-Has :
      (key : Text) (items : List NotificationResponse) (s : State W)
      → Has s.db (store svc key items s)
  unfolding set_json
  store-Has key items s = ground arith

  load_list-Has :
      (key : Text) (id : Uuid) (limit : ℤ) (s : State W) → Has s.db (load_list svc key id limit s).1
  unfolding load_list Notifications.list_by_user Notifications.query_list
  load_list-Has key id limit s =
      let shown = to_responses svc.uuid in
      >>=-keeps (Has s.db) (Notifications.list_by_user svc.repo id limit)
        (λ (ns : List Notification). λ (s : State W). (ok (shown ns), store svc key (shown ns) s)) s
        refl (λ ns s1 p. store-Has key (shown ns) s1 ∙ p)

  or_load_list-Has :
      (hit : Option (List NotificationResponse)) (key : Text) (id : Uuid) (limit : ℤ) (s : State W)
      → Has s.db (Service.or_load svc hit (load_list svc key id limit) s).1
  or_load_list-Has (some items) key id limit s = refl
  or_load_list-Has none key id limit s = load_list-Has key id limit s

  pub list_for_user-Has :
      (id : Uuid) (limit : ℤ) (s : State W) → Has s.db (list_for_user svc id limit s).1
  unfolding list_for_user
  list_for_user-Has id raw s =
      let limit = normalize_limit raw in
      let key = list_key svc.uuid id limit in
      >>=-keeps (Has s.db) (cached svc key)
        (λ (hit : Option (List NotificationResponse)).
          Service.or_load svc hit (load_list svc key id limit))
        s (cached-Has key s) (λ hit s1 p. or_load_list-Has hit key id limit s1 ∙ p)

  pub list_all-Has : (limit : ℤ) (s : State W) → Has s.db (list_all svc limit s).1
  unfolding list_all Notifications.list_all Notifications.query_list
  list_all-Has limit s =
      >>=-keeps (Has s.db) (Notifications.list_all svc.repo (normalize_limit limit))
        (λ (ns : List Notification). pure (to_responses svc.uuid ns)) s refl (λ ns s1 p. p)

  -- Enqueue's writes to the tables are those of one Create.
  pub enqueue-keeps :
      (P : Db → Type 0)
      → ((id : Uuid) (channel recipient subject body : Text) (s : State W)
          → P s.db
          → P (Notifications.create svc.repo id channel recipient subject body s).1.db)
      → (id : Uuid) (channel recipient subject body : Text) (s : State W) → P s.db
      → P (enqueue svc id channel recipient subject body s).1.db
  unfolding enqueue enqueue_checked
  enqueue-keeps P created id channel recipient subject body s p =
      let ch = canonical svc.fold channel in
      elim (Bool-cases (any (text_eq ch) allowed_channels)) [
        | inr unsupported ↦ rw (unsupported, enqueue) p
        | inl supported ↦
            rw (supported, enqueue)
              (>>=-keeps (λ (t : State W). P t.db)
                (Notifications.create svc.repo id ch recipient subject body) (announce svc id) s
                (created id ch recipient subject body s p)
                (λ n s1 p1. subst P (sym (announce-db svc id n s1)) p1))
      ]
