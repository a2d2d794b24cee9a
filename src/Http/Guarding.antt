-- ===== src/Http/Guarding.antt =====
-- What the guard of the routes keeps out: src/auth/interface/jwt-auth.guard.ts and the decorators of
-- auth.controller.ts.
use estate_server.Base.{
  rate_limit_exceeded, Bool, Key, Option-cases, Time, arith, false, inl, inr, none, refl, some,
  true, ℕ, ◌≡◌, ◌⊎◌,
}
use estate_server.Auth.State.{AuthState}
use estate_server.Errors.{ErrorResponse, app, status_of, to_error_response}
use estate_server.RateLimit.Window.{Verdict, pass, retry_after, can_activate}
use estate_server.Http.Bearer.{denied, unauthorized, jwt_auth_guard}
use estate_server.Http.Server.{
  refused, Gate, Routes, HttpRequest, ServerState, status, refuse, run_guarded, serve,
  limit_request,
}
use estate_server.Http.AuthApi.{
  Site, AuthCall, signup, login_handler, kakao_login_handler, complete_kakao_handler,
  refresh_handler, logout_handler, is_guarded, routes,
}

Verdict-cases : (v : Verdict) → (v ≡ pass) ⊎ ((n : ℕ) × (v ≡ retry_after n))
Verdict-cases pass = inl refl
Verdict-cases (retry_after n) = inr (n, refl)

module _ {Call Answer S : Type 0} (gate : Gate) (routes : Routes Call Answer S) (now later : Time)
    (req : HttpRequest Call) where
  -- A request is refused by the rate limit, or is run behind it with new counters.
  pub serve_cases :
      (s : ServerState S)
      → ((status (serve gate routes now later req s).0 ≡ 429)
          × ((serve gate routes now later req s).1.tables ≡ s.tables))
        ⊎ (((serve gate routes now later req s).0
              ≡ (run_guarded gate routes now later req s.tables).0)
            × ((serve gate routes now later req s).1.tables
                ≡ (run_guarded gate routes now later req s.tables).1))
  unfolding serve refuse status status_of to_error_response
  serve_cases s =
      elim (Verdict-cases
        (can_activate gate.limits now now (limit_request gate routes now req) s.counters).0) [
          | inl e ↦ inr (rw (serve, e) (refl, refl))
          | inr (n, e) ↦ inl (rw (serve, e) (refl, refl))
        ]

  -- The same, with the refusal itself.
  pub serve_split :
      (s : ServerState S)
      → ((e : ErrorResponse) × ((serve gate routes now later req s).0 ≡ refused e)
          × (e.status_code ≡ 429)
          × ((serve gate routes now later req s).1.tables ≡ s.tables))
        ⊎ (((serve gate routes now later req s).0
              ≡ (run_guarded gate routes now later req s.tables).0)
            × ((serve gate routes now later req s).1.tables
                ≡ (run_guarded gate routes now later req s.tables).1))
  unfolding serve refuse status_of to_error_response
  serve_split s =
      elim (Verdict-cases
        (can_activate gate.limits now now (limit_request gate routes now req) s.counters).0) [
          | inl e ↦ inr (rw (serve, e) (refl, refl))
          | inr (n, e) ↦ inl (
            to_error_response (app rate_limit_exceeded) (gate.message_of (app rate_limit_exceeded))
                (routes.path_of req.call) later,
            rw (serve, e) refl,
            refl,
            rw (serve, e) refl,
          )
        ]

  guard_denies :
      ((token : Key) → req.bearer ≡ some token → gate.jwt.verify now token ≡ none)
      → jwt_auth_guard gate.jwt now req.bearer ≡ denied unauthorized
  unfolding jwt_auth_guard
  guard_denies h = elim (Option-cases req.bearer) [
    | inl bare ↦ rw bare refl
    | inr (token, e) ↦ rw (jwt_auth_guard, e, h token e) refl
  ]

  -- A guarded route answers 401 or 429 without a token that verifies, and changes no table.
  pub guarded_refused :
      (s : ServerState S)
      → routes.is_guarded req.call ≡ true
      → ((token : Key) → req.bearer ≡ some token → gate.jwt.verify now token ≡ none)
      → ((status (serve gate routes now later req s).0 ≡ 401)
          ⊎ (status (serve gate routes now later req s).0 ≡ 429))
        × ((serve gate routes now later req s).1.tables ≡ s.tables)
  unfolding run_guarded refuse status to_error_response
  guarded_refused s guarded h =
      let deny = guard_denies h in
      elim (serve_cases s) [
        | inl (limited, same) ↦ (inr limited, same)
        | inr (run, same) ↦ rw (run, same, run_guarded, guarded, deny) (inl refl, refl)
      ]

-- The handlers with a parameter @CurrentUser().
abbrev pub reads_user : AuthCall → Bool
reads_user (signup email name password role) = false
reads_user (login_handler email password) = false
reads_user (kakao_login_handler code redirect_uri) = false
reads_user (complete_kakao_handler token role) = false
reads_user (refresh_handler token) = false
reads_user (logout_handler token) = false
reads_user _ = true

reads_user-is_guarded : (call : AuthCall) → reads_user call ≡ true → is_guarded call ≡ true
unfolding is_guarded
reads_user-is_guarded call h = ground arith

module _ (site : Site) (now later : Time) (req : HttpRequest AuthCall) where
  -- If the handler of a call reads the current user, and the request has no bearer token that
  -- the token service verifies at the clock of the guards, then the answer has the status
  -- 401, or 429 of the rate limit, and the tables of auth are as they were.
  pub unauthenticated_refused :
      (s : ServerState AuthState)
      → reads_user req.call ≡ true
      → ((token : Key) → req.bearer ≡ some token → site.gate.jwt.verify now token ≡ none)
      → let (response, s') = serve site.gate (routes site) now later req s in
        ((status response ≡ 401) ⊎ (status response ≡ 429)) × (s'.tables ≡ s.tables)
  unauthenticated_refused s reads h =
      guarded_refused site.gate (routes site) now later req s (reads_user-is_guarded req.call reads)
        h
