-- ===== src/Tests/Tokens.antt =====
-- The theorems on runs of calls, cached profiles and access tokens at concrete inputs.
use pulse_notify.Prelude.{
  ◌≡◌, refl, sym, ap, ◌⊎◌, inl, inr, Bool, true, Bool-cases, ◌&&◌, ◌==◌, if◌then◌else◌, Option,
  none, some, List, [], ◌∷◌, arith, Text, codes, text_eq, text_eq_iff,
}
use pulse_notify.Errors.{Result, ok, err}
use pulse_notify.Model.{UserResponse, user_to_response}
use pulse_notify.State.{State}
use pulse_notify.Repository.Users
use pulse_notify.Cache.{delete, set_json, get_json}
use pulse_notify.Service.Accounts.{AuthService, refresh_key, logout, get_profile}
use pulse_notify.Service.Ledger.{
  SessionEvent, SessionStep, refreshes, logs_out, SessionRun, rests, steps, AreAllowed,
  record_events, ledger, run-records,
}
use pulse_notify.Service.Ledger
use pulse_notify.Service.Profile.{ProfileLaws, IsCurrent, IsCoherent, get_profile-IsCurrent}
use pulse_notify.Tests.World.{Outside, ann, down, put, redis, start, uuid}
use pulse_notify.Tests.Sessions.{redis_laws, refreshed, result, rotated, service, signed_in}

-- The token "old" is exchanged, and the new one is ended.
abbrev after_logout : State Outside
after_logout = (logout (service redis) (43 ∷ []) (refreshed redis)).1

leaves : logout (service redis) (43 ∷ []) (refreshed redis) ≡ (ok tt, after_logout)
unfolding logout delete
leaves = refl

abbrev history : List SessionEvent
history = Ledger.rotated (codes "old") (43 ∷ []) 1 none ∷ Ledger.ended (43 ∷ []) ∷ []

two_calls : SessionRun (service redis) redis signed_in history after_logout
unfolding user_to_response
two_calls =
    steps (refreshes (codes "old") (result 41) 1 rotated refl)
      (steps (logs_out (43 ∷ []) leaves) rests)

run-records_example :
    AreAllowed (service redis) history (λ token. signed_in.world.table (refresh_key token))
    × ((λ (token : Text). after_logout.world.table (refresh_key token))
        ≡ record_events
            (service redis)
            history
            (λ token. signed_in.world.table (refresh_key token)))
unfolding redis_laws
run-records_example =
    run-records (service redis) redis redis_laws refl (λ k j w. refl) history (refl, (tt, tt))
      two_calls

-- A codec for one profile.
abbrev shown : UserResponse
shown = user_to_response uuid.to_text ann

abbrev is_shown : UserResponse → Bool
is_shown r =
    text_eq r.id shown.id
    && text_eq r.email shown.email
    && text_eq r.name shown.name
    && text_eq r.role shown.role
    && r.created_at == shown.created_at

put-cases :
    (k v j : Text) (table : Text → Option Text)
    → (put k v table j ≡ table j) ⊎ ((j ≡ k) × (put k v table j ≡ some v))
put-cases k v j table = elim (Bool-cases (text_eq j k)) [
  | inl same ↦ inr ((text_eq_iff j k).0 same, rw same refl)
  | inr differs ↦ inl (rw differs refl)
]

all_five :
    (a b c d e : Bool)
    → (a && b && c && d && e) ≡ true
    → (a ≡ true) × (b ≡ true) × (c ≡ true) × (d ≡ true) × (e ≡ true)
all_five true true true true true h = (refl, refl, refl, refl, refl)
all_five a b c d e h = (ground arith, ground arith, ground arith, ground arith, ground arith)

same_fields :
    (r q : UserResponse)
    → r.id ≡ q.id
    → r.email ≡ q.email
    → r.name ≡ q.name
    → r.role ≡ q.role
    → r.created_at ≡ q.created_at
    → r ≡ q
same_fields r q id email name role created_at = λ i. record {
  id = id i;
  email = email i;
  name = name i;
  role = role i;
  created_at = created_at i;
}

is_shown_lem : (r : UserResponse) → is_shown r ≡ true → r ≡ shown
is_shown_lem r h =
    let (id, email, name, role, created_at) =
      all_five (text_eq r.id shown.id) (text_eq r.email shown.email) (text_eq r.name shown.name)
        (text_eq r.role shown.role) (r.created_at == shown.created_at) h in
    same_fields r shown ((text_eq_iff r.id shown.id).0 id)
      ((text_eq_iff r.email shown.email).0 email) ((text_eq_iff r.name shown.name).0 name)
      ((text_eq_iff r.role shown.role).0 role) (ground arith)

abbrev marshal_shown : UserResponse → Result Text
marshal_shown r = if is_shown r then ok (codes "ann") else err down

abbrev unmarshal_shown : Text → Result UserResponse
unmarshal_shown s = if text_eq s (codes "ann") then ok shown else err down

read_back_shown : (r : UserResponse) (t : Text) → marshal_shown r ≡ ok t → unmarshal_shown t ≡ ok r
unfolding text_eq
read_back_shown r t h = elim (Bool-cases (is_shown r)) [
  | inr differs ↦ absurd (ground arith)
  | inl same ↦
      let coded : codes "ann" ≡ t = ground arith in rw (← coded) (ap ok (sym (is_shown_lem r same)))
]

abbrev profiles : AuthService Outside
profiles = record (service redis) {
  profile_codec = record { marshal = marshal_shown; unmarshal = unmarshal_shown };
}

unfoldable shown_laws : ProfileLaws profiles redis
shown_laws = record {
  view = λ w. w.table;
  get_value = λ k v w h. ground arith;
  get_view = λ k j w. refl;
  set_view = λ k v j d w. put-cases k v j w.table;
  statement_view = λ w j. refl;
  read_back = read_back_shown;
}

-- Nothing is cached yet.
no_profiles : IsCoherent profiles redis shown_laws start
unfolding shown_laws
no_profiles id v r there read = cc

abbrev answered : State Outside
answered = (get_profile profiles 1 start).1

answers : get_profile profiles 1 start ≡ (ok shown, answered)
unfolding get_profile get_json Users.find_by_id set_json text_eq
answers = refl

get_profile-IsCurrent_example :
    IsCurrent profiles redis shown_laws 1 shown start.db
    × IsCoherent profiles redis shown_laws answered
    × (answered.db ≡ start.db)
get_profile-IsCurrent_example =
    get_profile-IsCurrent profiles redis shown_laws 1 start answered shown refl no_profiles answers
