-- ===== src/Tests/Router.antt =====
-- The theorems on the routes at a concrete input.
use pulse_notify.Prelude.{◌≡◌, pos, refl, some, true, [], ◌∷◌, text_eq}
use pulse_notify.Errors.{err, ok}
use pulse_notify.Router.{
  Deps, admin_group, get_admin_notifications, get_me, get_notification, serve,
}
use pulse_notify.Router.Guards.{Guarded, serve-Guarded}
use pulse_notify.Router.Owner.{Owns, serve-owner}
use pulse_notify.Model.{notification_to_response}
use pulse_notify.Http.{GinContext, Response, notification_body}
use pulse_notify.Auth.{parse, key_for}
use pulse_notify.Cache.{incr_with_window}
use pulse_notify.Middleware.RateLimit.{rate_limit, judge}
use pulse_notify.Middleware.Access.{jwt_auth, split_space, is_bearer}
use pulse_notify.Handler.Notifications as HandlerNotifications
use pulse_notify.Repository.Notifications
use pulse_notify.Service as Service
use pulse_notify.Router.Answers.{serve-answers}
use pulse_notify.Router.Replies.{answers, statuses}
use pulse_notify.Tests.World.{Outside, down, redis, row, start, uuid}
use pulse_notify.Tests.Middleware.{jwt, request, tokens}
use pulse_notify.Tests.Handler.{health}
use pulse_notify.Tests.Service as TestService
use pulse_notify.Tests.Sessions

abbrev pub deps : Deps Outside
deps = record {
  cache = some redis;
  rate_limit_requests = pos 100;
  rate_limit_window = pos 60000000000;
  jwt = jwt;
  token_manager = tokens;
  uuid_package = uuid;
  health = health;
  auth = Sessions.service redis;
  notification = TestService.service;
  bind_signup = λ body. err down;
  bind_login = λ body. err down;
  bind_refresh = λ body. ok (record { refresh_token = body });
  bind_notification = λ body. err down;
}

serve-Guarded_example :
    Guarded deps get_admin_notifications request start refl admin_group
      (serve deps get_admin_notifications request start)
serve-Guarded_example = serve-Guarded deps get_admin_notifications request start refl (λ e. cc)

serve-answers_example :
    answers (statuses get_me) (serve deps get_me request start).0.response ≡ true
serve-answers_example = serve-answers deps get_me request start refl

abbrev with_token : GinContext
with_token = record request { param_id = 7 ∷ [] }

abbrev shown : Response
shown = record {
  status = 200;
  body = notification_body (notification_to_response uuid.to_text (row 7 3));
}

own_row : (serve deps get_notification with_token start).0.response ≡ some shown
unfolding serve rate_limit incr_with_window judge HandlerNotifications.get Service.Notifications.get
    Notifications.find_by_id notification_to_response text_eq jwt_auth split_space is_bearer parse
    key_for
own_row = refl

serve-owner_example : Owns deps with_token start refl shown
serve-owner_example = serve-owner deps with_token start refl shown own_row refl
