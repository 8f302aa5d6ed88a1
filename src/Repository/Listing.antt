-- ===== src/Repository/Listing.antt =====
-- What the two list queries of internal/repository/notification.go answer.
use mathlib.Core.List.{Perm}
use mathlib.Core.List.Perm
use pulse_notify.Prelude.{
  ℕ, pos, ◌≤◌, ◌==◌, ◌≡◌, inl, inr, Bool-cases, leb, refl, List, [], ◌∷◌, arith, select, take, All,
  All-imp,
}
use pulse_notify.Errors.{ok}
use pulse_notify.Model.{Uuid, Notification}
use pulse_notify.External.{Delivery, delivered, refused, unacknowledged, Postgres}
use pulse_notify.State.{State}
use pulse_notify.Repository.Notifications.{
  insert_newest, newest_first, limited, query_outcome, list_by_user, list_all,
}

abbrev pub IsNewestFirst : List Notification → Type 0
IsNewestFirst [] = Unit
IsNewestFirst (n ∷ ns) =
    All (λ (m : Notification). m.created_at ≤ n.created_at) ns × IsNewestFirst ns

-- `rows` are the first `limit` entries of some arrangement of `candidates`, newest first.
pub record AreNewest (limit : ℕ) (candidates rows : List Notification) : Type 0 where
  pub arranged : List Notification
  pub same_rows : Perm arranged candidates
  pub ordered : IsNewestFirst arranged
  pub cut : rows ≡ take limit arranged

le_all :
    (k m n : Notification)
    → k.created_at ≤ m.created_at
    → m.created_at ≤ n.created_at
    → k.created_at ≤ n.created_at
le_all k m n p q = omega arith

insert_newest-perm :
    (n : Notification) (ms : List Notification) → Perm (insert_newest n ms) (n ∷ ms)
unfolding insert_newest
insert_newest-perm n [] = Perm.refl (n ∷ [])
insert_newest-perm n (m ∷ ms) = elim (Bool-cases (leb m.created_at n.created_at)) [
  | inl e ↦ rw e (Perm.refl (n ∷ m ∷ ms))
  | inr e ↦ rw e (Perm.trans (Perm.cons m (insert_newest-perm n ms)) (Perm.swap n m ms))
]

insert_newest-All {κ} :
    (P : Notification → Type κ) (n : Notification) (ms : List Notification)
    → P n
    → All P ms
    → All P (insert_newest n ms)
unfolding insert_newest
insert_newest-All P n [] p h = (p, tt)
insert_newest-All P n (m ∷ ms) p (q, h) = ground (arith, insert_newest-All P n ms p h)

insert_newest-IsNewestFirst :
    (n : Notification) (ms : List Notification)
    → IsNewestFirst ms
    → IsNewestFirst (insert_newest n ms)
unfolding insert_newest
insert_newest-IsNewestFirst n [] h = (tt, tt)
insert_newest-IsNewestFirst n (m ∷ ms) (older, h) =
    elim (Bool-cases (leb m.created_at n.created_at)) [
      | inl e ↦
          let le : m.created_at ≤ n.created_at = ground arith in
          rw e (
            (
              le,
              All-imp (λ (k : Notification) (p : k.created_at ≤ m.created_at). le_all k m n p le) ms
                  older,
            ),
            (older, h),
          )
      | inr e ↦
          let le : n.created_at ≤ m.created_at = ground arith in
          rw e (
            insert_newest-All (λ k. k.created_at ≤ m.created_at) n ms le older,
            insert_newest-IsNewestFirst n ms h,
          )
    ]

newest_first-perm : (ns : List Notification) → Perm (newest_first ns) ns
unfolding newest_first
newest_first-perm [] = Perm.refl []
newest_first-perm (n ∷ ns) =
    Perm.trans (insert_newest-perm n (newest_first ns)) (Perm.cons n (newest_first-perm ns))

newest_first-IsNewestFirst : (ns : List Notification) → IsNewestFirst (newest_first ns)
unfolding newest_first
newest_first-IsNewestFirst [] = tt
newest_first-IsNewestFirst (n ∷ ns) =
    insert_newest-IsNewestFirst n (newest_first ns) (newest_first-IsNewestFirst ns)

query-AreNewest :
    (d : Delivery) (limit : ℕ) (candidates rows : List Notification)
    → query_outcome d (limited (pos limit) (newest_first candidates)) ≡ ok rows
    → AreNewest limit candidates rows
query-AreNewest delivered limit candidates rows e = record {
  arranged = newest_first candidates;
  same_rows = newest_first-perm candidates;
  ordered = newest_first-IsNewestFirst candidates;
  cut = ground arith;
}
query-AreNewest (refused x) limit candidates rows e = cc
query-AreNewest (unacknowledged x) limit candidates rows e = cc

module _ {W : Type 0} (pg : Postgres W) (limit : ℕ) (s : State W) (rows : List Notification) where
  -- A list that ListByUser returns holds the newest rows of this user, and of no other user, at
  -- most `limit` of them, newest first; the tables stay as they were.
  pub list_by_user-AreNewest :
      (user_id : Uuid)
      → (list_by_user pg user_id (pos limit) s).0 ≡ ok rows
      → AreNewest limit
          (select (λ (n : Notification). n.user_id == user_id) s.db.notifications)
          rows
        × ((list_by_user pg user_id (pos limit) s).1.db ≡ s.db)
  unfolding list_by_user
  list_by_user-AreNewest user_id e =
      (query-AreNewest (pg.statement s.world).0.delivery limit _ rows e, refl)

  -- The same of ListAll and the rows of all users.
  pub list_all-AreNewest :
      (list_all pg (pos limit) s).0 ≡ ok rows
      → AreNewest limit s.db.notifications rows × ((list_all pg (pos limit) s).1.db ≡ s.db)
  unfolding list_all
  list_all-AreNewest e = (query-AreNewest (pg.statement s.world).0.delivery limit _ rows e, refl)
