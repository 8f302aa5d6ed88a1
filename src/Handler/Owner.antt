-- ===== src/Handler/Owner.antt =====
-- What Get of internal/handler/notification.go shows to whom.
use pulse_notify.Prelude.{
  ◌⊎◌, ◌≢◌, none, ◌==◌, ◌≡◌, sym, ap, ◌∙◌, inl, inr, Bool-cases, some, List, [], ◌∷◌, find?, arith,
  text_eq, text_eq_iff,
}
use pulse_notify.Errors.{errors_is, Result, ok, Result-cases}
use pulse_notify.Model.{Uuid, Notification, notification_to_response}
use pulse_notify.External.{delivered, Postgres, UuidPackage}
use pulse_notify.State.{State}
use pulse_notify.Repository.Notifications
use pulse_notify.Http.{GinContext, Response, notification_body}
use pulse_notify.Service
use pulse_notify.Service.Notifications.{NotificationService}
use pulse_notify.Handler.Notifications.{get, not_found}

to_text-injective : (u : UuidPackage) (a b : Uuid) → u.to_text a ≡ u.to_text b → a ≡ b
to_text-injective u a b e =
    let same : Result.ok a ≡ ok b = sym (u.parse-to_text a) ∙ ap u.parse e ∙ u.parse-to_text b in cc

find_row :
    (id : Uuid) (ns : List Notification) (n : Notification)
    → find? (λ (m : Notification). m.id == id) ns ≡ some n
    → n.id ≡ id
find_row id [] n h = cc
find_row id (m ∷ ns) n h = elim (Bool-cases (m.id == id)) [
  | inl same ↦ ground arith
  | inr other ↦ find_row id ns n (ground arith)
]

find_by_id-row :
    {W : Type 0} (pg : Postgres W) (id : Uuid) (n : Notification) (s : State W)
    → (Notifications.find_by_id pg id s).0 ≡ ok n
    → find? (λ (m : Notification). m.id == id) s.db.notifications ≡ some n
unfolding Notifications.find_by_id
find_by_id-row pg id n s h = ground (arith, find_row id s.db.notifications n)

module _ {W : Type 0} (svc : NotificationService W) (c : GinContext) (s : State W) (user_id : Uuid)
    (caller : c.user_id ≡ some user_id) where
  -- Get answers a caller with 200 only if the notification with the id of the path is stored and
  -- is the caller's, and shows that row.
  pub get-owner :
      (r : Response)
      → (get svc c s).0.response ≡ some r
      → r.status ≡ 200
      → (id : Uuid) × (n : Notification) × (svc.uuid.parse c.param_id ≡ ok id)
        × (find? (λ (m : Notification). m.id == id) s.db.notifications ≡ some n)
        × (n.id ≡ id)
        × (n.user_id ≡ user_id)
        × (r.body ≡ notification_body (notification_to_response svc.uuid.to_text n))
  unfolding get Service.Notifications.get notification_to_response
  get-owner r answered good = elim (Result-cases (svc.uuid.parse c.param_id)) [
    | inr (e, bad) ↦ absurd (ground arith)
    | inl (id, parsed) ↦ elim (Result-cases (Notifications.find_by_id svc.repo id s).0) [
      | inr (e, missing) ↦ absurd (ground arith)
      | inl (n, found) ↦
          elim (Bool-cases (text_eq (svc.uuid.to_text n.user_id) (svc.uuid.to_text user_id))) [
            | inr other ↦ absurd (ground arith)
            | inl own ↦
                let row = find_by_id-row svc.repo id n s found in
                (
                  id,
                  n,
                  parsed,
                  row,
                  find_row id s.db.notifications n row,
                  to_text-injective svc.uuid n.user_id user_id ((text_eq_iff _ _).0 own),
                  ground arith,
                )
          ]
    ]
  ]

  -- A notification that is not stored and one of somebody else get the same answer, 404, if the
  -- server answers: Get does not tell a caller which ids are in use.
  pub get_hides :
      (id : Uuid)
      → svc.uuid.parse c.param_id ≡ ok id
      → (svc.repo.statement s.world).0.delivery ≡ delivered
      → (find? (λ (m : Notification). m.id == id) s.db.notifications ≡ none)
        ⊎ ((n : Notification) × (find? (λ (m : Notification). m.id == id) s.db.notifications
              ≡ some n)
            × (n.user_id ≢ user_id))
      → (get svc c s).0 ≡ not_found c
  unfolding get Service.Notifications.get Notifications.find_by_id errors_is
      notification_to_response
  get_hides id parsed answered (inl missing) = ground arith
  get_hides id parsed answered (inr (n, found, foreign)) = ground (
    arith,
    to_text-injective svc.uuid n.user_id user_id,
    text_eq_iff (svc.uuid.to_text n.user_id) (svc.uuid.to_text user_id),
  )
