-- ===== src/Service/Lists.antt =====
-- The cached lists of ListForUser, and what Enqueue does to them (internal/service/notification.go).
use pulse_notify.Prelude.{
  holds_below, holds_below_lem, ℕ, ℤ, pos, ◌≤◌, ◌==◌, ◌≡◌, ◌≢◌, refl, sym, ap, ◌∙◌, ◌⊎◌, inl, inr,
  Bool, true, false, not, ◌&&◌, ◌||◌, Option, none, some, List, [], ◌∷◌, arith, Text, append-cancel,
  text_eq, text_eq_iff, codes, signed_decimal, decimal,
}
use pulse_notify.Errors.{ok}
use pulse_notify.Model.{Uuid, NotificationResponse}
use pulse_notify.External.{Redis}
use pulse_notify.State.{State}
use pulse_notify.Cache.{get_json, delete}
use pulse_notify.Service.Notifications.{
  NotificationService, normalize_limit, list_key, invalidate_user_cache, list_for_user,
}

-- One of the limits whose lists are deleted.
abbrev pub is_known : ℕ → Bool
is_known n = n == 20 || n == 50 || n == 100

abbrev differs : ℕ → Bool
differs n =
    is_known n
    || (not (text_eq (signed_decimal (pos n)) (signed_decimal (pos 20)))
        && not (text_eq (signed_decimal (pos n)) (signed_decimal (pos 50)))
        && not (text_eq (signed_decimal (pos n)) (signed_decimal (pos 100))))

differs_table : holds_below differs 101 ≡ true
unfolding holds_below signed_decimal decimal text_eq
differs_table = refl

differ_20_50 : text_eq (signed_decimal (pos 20)) (signed_decimal (pos 50)) ≡ false
unfolding text_eq signed_decimal decimal
differ_20_50 = refl

differ_20_100 : text_eq (signed_decimal (pos 20)) (signed_decimal (pos 100)) ≡ false
unfolding text_eq signed_decimal decimal
differ_20_100 = refl

differ_50_100 : text_eq (signed_decimal (pos 50)) (signed_decimal (pos 100)) ≡ false
unfolding text_eq signed_decimal decimal
differ_50_100 = refl

is_known-cases : (n : ℕ) → is_known n ≡ true → (n ≡ 20) ⊎ ((n ≡ 50) ⊎ (n ≡ 100))
is_known-cases n h = ground arith

-- The documented effect of GET and DEL on the values of a Redis in which no key expires meanwhile.
pub record ListCache {W : Type 0} (c : Redis W) : Type 0 where
  pub view : W → Text → Option Text
  pub get_value : (k v : Text) (w : W) → (c.get k w).0 ≡ ok v → view w k ≡ some v
  pub del_value :
      (k : Text) (w : W) → (c.del (k ∷ []) w).0 ≡ none → view (c.del (k ∷ []) w).1 k ≡ none
  pub del_other : (k j : Text) (w : W) → j ≢ k → view (c.del (k ∷ []) w).1 j ≡ view w j

module _ {W : Type 0} (svc : NotificationService W) (c : Redis W) (laws : ListCache c)
    (cached : svc.cache ≡ some c) (user_id : Uuid) where
  list_key-ne :
      (a b : ℤ)
      → text_eq (signed_decimal a) (signed_decimal b) ≡ false
      → list_key svc.uuid user_id a ≢ list_key svc.uuid user_id b
  list_key-ne a b other e =
      let same : signed_decimal a ≡ signed_decimal b = append-cancel (codes ":") _ _ (
        append-cancel (svc.uuid.to_text user_id) _ _ (append-cancel (codes "notif:list:") _ _ e)) in
      ground (arith, text_eq_iff (signed_decimal a) (signed_decimal b))

  -- The invalidation leaves the list of every limit from 0 to 100 but 20, 50 and 100.
  pub invalidate-keeps :
      (n : ℕ) (s : State W)
      → n ≤ 100
      → is_known n ≡ false
      → laws.view (invalidate_user_cache svc user_id s).world (list_key svc.uuid user_id (pos n))
        ≡ laws.view s.world (list_key svc.uuid user_id (pos n))
  unfolding invalidate_user_cache delete
  invalidate-keeps n s small unknown =
      let different : differs n ≡ true =
        holds_below_lem differs 101 n (omega arith) differs_table in
      let k = list_key svc.uuid user_id (pos n) in
      let key = λ (l : ℤ). list_key svc.uuid user_id l in
      let w20 = (c.del (key (pos 20) ∷ []) s.world).1 in
      let w50 = (c.del (key (pos 50) ∷ []) w20).1 in
      rw (cached, invalidate_user_cache)
        (laws.del_other (key (pos 100)) k w50 (list_key-ne (pos n) (pos 100) (ground arith))
          ∙ laws.del_other (key (pos 50)) k w20 (list_key-ne (pos n) (pos 50) (ground arith))
          ∙ laws.del_other (key (pos 20)) k s.world (list_key-ne (pos n) (pos 20) (ground arith)))

  -- The invalidation deletes the lists of the limits 20, 50 and 100, if Redis reports no error.
  pub invalidate-drops :
      (n : ℕ) (s : State W)
      → is_known n ≡ true
      → ((k : Text) (w : W) → (c.del (k ∷ []) w).0 ≡ none)
      → laws.view (invalidate_user_cache svc user_id s).world (list_key svc.uuid user_id (pos n))
        ≡ none
  unfolding invalidate_user_cache delete
  invalidate-drops n s known fine =
      let key = λ (l : ℤ). list_key svc.uuid user_id l in
      let w20 = (c.del (key (pos 20) ∷ []) s.world).1 in
      let w50 = (c.del (key (pos 50) ∷ []) w20).1 in
      let w100 = (c.del (key (pos 100) ∷ []) w50).1 in
      let gone20 : laws.view w100 (key (pos 20)) ≡ none =
        laws.del_other (key (pos 100)) (key (pos 20)) w50
          (list_key-ne (pos 20) (pos 100) differ_20_100)
        ∙ laws.del_other (key (pos 50)) (key (pos 20)) w20
            (list_key-ne (pos 20) (pos 50) differ_20_50)
        ∙ laws.del_value (key (pos 20)) s.world (fine (key (pos 20)) s.world) in
      let gone50 : laws.view w100 (key (pos 50)) ≡ none =
        laws.del_other (key (pos 100)) (key (pos 50)) w50
          (list_key-ne (pos 50) (pos 100) differ_50_100)
        ∙ laws.del_value (key (pos 50)) w20 (fine (key (pos 50)) w20) in
      let gone100 : laws.view w100 (key (pos 100)) ≡ none =
        laws.del_value (key (pos 100)) w50 (fine (key (pos 100)) w50) in
      rw (cached, invalidate_user_cache)
        (elim (is_known-cases n known) [
          | inl e ↦ rw e gone20
          | inr (inl e) ↦ rw e gone50
          | inr (inr e) ↦ rw e gone100
        ])

  -- A list that Redis holds is answered without a look at the tables.
  list_for_user-hit :
      (n : ℕ) (s : State W) (text : Text) (items : List NotificationResponse)
      → 1 ≤ n
      → n ≤ 100
      → (c.get (list_key svc.uuid user_id (pos n)) s.world).0 ≡ ok text
      → svc.list_codec.unmarshal text ≡ ok items
      → (list_for_user svc user_id (pos n) s).0 ≡ ok items
  unfolding list_for_user get_json normalize_limit
  list_for_user-hit n s text items low high got decoded =
      let same : normalize_limit (pos n) ≡ pos n = ground arith in
      rw (same, list_for_user, cached) (ground arith)

  -- For a limit from 1 to 100 other than 20, 50 and 100, the list that was cached before an
  -- invalidation is what ListForUser answers after it, whatever the tables hold by then.
  pub list_for_user-stale :
      (n : ℕ) (s : State W) (old seen : Text) (items : List NotificationResponse)
      → 1 ≤ n
      → n ≤ 100
      → is_known n ≡ false
      → laws.view s.world (list_key svc.uuid user_id (pos n)) ≡ some old
      → svc.list_codec.unmarshal old ≡ ok items
      → (c.get (list_key svc.uuid user_id (pos n)) (invalidate_user_cache svc user_id s).world).0
        ≡ ok seen
      → (list_for_user svc user_id (pos n) (invalidate_user_cache svc user_id s)).0 ≡ ok items
  list_for_user-stale n s old seen items low high unknown stored decoded answered =
      let s1 = invalidate_user_cache svc user_id s in
      let k = list_key svc.uuid user_id (pos n) in
      let e : some seen ≡ some old =
        sym (laws.get_value k seen s1.world answered)
        ∙ invalidate-keeps n s high unknown
        ∙ stored in
      let same : seen ≡ old = cc in
      list_for_user-hit n s1 seen items low high answered
        (ap svc.list_codec.unmarshal same ∙ decoded)
