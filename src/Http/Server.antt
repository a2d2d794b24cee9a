-- ===== src/Http/Server.antt =====
-- The way of a request through the framework: the global RateLimitGuard, the guards of the route
-- (JwtAuthGuard, RolesGuard), the ValidationPipe, the handler, and AllExceptionsFilter for what is
-- thrown. The routes of a controller are a record, which each controller fills in.
use estate_server.Base.{
  Action, Bool, Key, List, Option, Result, Time, [], err, false, if◌then◌else◌, none, ok,
  rate_limit_exceeded, some, ℕ, ◌∷◌,
}
use estate_server.Auth.State.{Role}
use estate_server.Errors.{
  Exception, http, missing, app, ErrorResponse, to_error_response, exception_of,
}
use estate_server.RateLimit.Window.{
  Method, Options, LimitConfig, Request, Counters, pass, retry_after, can_activate,
}
use estate_server.Http.Bearer.{
  Jwt, CurrentUser, Admission, admitted, denied, jwt_auth_guard, roles_guard, extract_user_id,
}

-- What all routes are run with: the token service, the limits, and the text of an exception's
-- message.
pub record Gate : Type 0 where
  pub jwt : Jwt
  pub limits : LimitConfig
  pub message_of : Exception → Key

-- The decorators of a controller's handlers, and the handlers: `is_guarded` is
-- @UseGuards(JwtAuthGuard), `roles_of` @Roles, `limit_of` @RateLimit, `success_of` the status of an
-- answer; `run` is `none` where the body is not valid.
pub record Routes (Call Answer S : Type 0) : Type 0 where
  pub method_of : Call → Method
  pub limit_of : Call → Option Options
  pub is_guarded : Call → Bool
  pub roles_of : Call → List Role
  pub success_of : Call → ℕ
  pub path_of : Call → Key
  pub run : Time → Time → CurrentUser → Call → Option (Action S Answer)

pub record HttpRequest (Call : Type 0) : Type 0 where
  pub ip : Option Key
  pub bearer : Option Key
  pub call : Call

pub record ServerState (S : Type 0) : Type 0 where
  pub counters : Counters
  pub tables : S

pub data Response (Answer : Type 0) : Type 0 where
  answered : ℕ → Answer → Response Answer
  refused : ErrorResponse → Response Answer

unfoldable pub status : {Answer : Type 0} → Response Answer → ℕ
status (answered n answer) = n
status (refused e) = e.status_code

-- `request.user` of a route without the guard, which its handler does not read.
abbrev pub nobody : CurrentUser
nobody = record { sub = none; email = none; role = none; fam = none }

-- What the ValidationPipe throws.
abbrev pub bad_request : Exception
bad_request = http 400 missing

-- The user is let in by the guard of the roles, or not.
abbrev pub enter : CurrentUser → Option Exception → Admission
enter user none = admitted user
enter user (some e) = denied e

abbrev pub with_roles : List Role → Admission → Admission
with_roles required (denied e) = denied e
with_roles required (admitted user) = enter user (roles_guard required (some user))

module _ {Call Answer S : Type 0} (gate : Gate) (routes : Routes Call Answer S) where
  -- The exception filter, at the end of the request.
  unfoldable pub refuse : Time → Call → Exception → Response Answer
  unfolding to_error_response
  refuse later call e =
      refused (to_error_response e (gate.message_of e) (routes.path_of call) later)

  abbrev pub admission : Time → HttpRequest Call → Admission
  admission now req =
      if routes.is_guarded req.call
      then with_roles (routes.roles_of req.call) (jwt_auth_guard gate.jwt now req.bearer)
      else admitted nobody

  abbrev pub limit_request : Time → HttpRequest Call → Request
  limit_request now req = record {
    skip = false;
    override = routes.limit_of req.call;
    method = routes.method_of req.call;
    ip = req.ip;
    user_id = extract_user_id gate.jwt now req.bearer;
  }

  abbrev pub respond : Time → Call → Result Answer → Response Answer
  respond later call (ok answer) = answered (routes.success_of call) answer
  respond later call (err e) = refuse later call (exception_of e)

  -- A request that passed the rate limit.
  unfoldable pub run_guarded : Time → Time → HttpRequest Call → S → Response Answer × S
  unfolding refuse jwt_auth_guard roles_guard exception_of
  run_guarded now later req s = elim (admission now req) [
    | denied e ↦ (refuse later req.call e, s)
    | admitted user ↦ elim (routes.run now later user req.call) [
      | none ↦ (refuse later req.call bad_request, s)
      | some action ↦ let (r, s') = action s in (respond later req.call r, s')
    ]
  ]

  -- A request. `now` is the clock of the guards and of the first line of a use case, `later` that
  -- of the rest.
  unfoldable pub serve :
      Time → Time → HttpRequest Call → ServerState S → Response Answer × ServerState S
  unfolding can_activate run_guarded extract_user_id
  serve now later req s =
      let (verdict, counters) =
        can_activate gate.limits now now (limit_request now req) s.counters in
      elim verdict [
        | retry_after n ↦
            (refuse later req.call (app rate_limit_exceeded), record s { counters = counters })
        | pass ↦
            let (response, tables) = run_guarded now later req s.tables in
            (response, record { counters = counters; tables = tables })
      ]

  -- The state after a sequence of requests, each with its clocks.
  unfoldable pub serve_all : List (Time × Time × HttpRequest Call) → ServerState S → ServerState S
  unfolding serve
  serve_all [] s = s
  serve_all ((now, later, req) ∷ reqs) s = serve_all reqs (serve now later req s).1
