-- ===== src/Http/Reachable.antt =====
-- Sequences of requests to src/auth/interface/auth.controller.ts, and the token table behind it.
use estate_server.Base.{
  Action, Bool-cases, Key, List, Option, Option-cases, Time, [], arith, find_first, get_or, inl,
  inr, no_key, none, refl, some, update_many, ◌==◌, ◌∷◌, ◌≡◌, ◌⊎◌,
}
use estate_server.Auth.State.{AuthState}
use estate_server.Auth.User.{rename}
use estate_server.Auth.Tokens.{set_revoked}
use estate_server.Errors.{Exception}
use estate_server.Auth.Users.{update, id_is}
use estate_server.Auth.Session.{AuthEnv}
use estate_server.Auth.Session.Refresh.{refresh-IsValid}
use estate_server.Auth.Access.{get_profile}
use estate_server.Auth.Access.Invariant.{
  HasOwners, KeepsTokens, keeps-IsValid, revoke_rows-IsValid, sign_up-IsValid, login-IsValid,
  kakao_login-IsValid, complete_kakao_signup-IsValid, logout-IsValid, logout_all-IsValid,
  revoke_session-IsValid, change_password-IsValid, update_profile-IsValid,
}
use estate_server.Http.Bearer.{CurrentUser, Admission, admitted, denied}
use estate_server.Http.Queries.{
  get_profile_by, update_profile_by, change_password_by, logout_all_by, revoke_session_by,
  revoke_everyone, not_revoked, find_any,
}
use estate_server.Http.Server.{HttpRequest, ServerState, serve, serve_all, run_guarded, admission}
use estate_server.Http.AuthApi.{
  Site, Command, Answer, do_sign_up, do_login, do_kakao_login, do_complete, do_me, do_profile,
  do_logout_all, do_sessions, do_edit_profile, do_edit_password, do_refresh, do_logout,
  do_revoke_session, handle, then_answer, validate_body, env_at, kakao_at, routes, AuthCall,
}
use estate_server.Http.Guarding.{serve_cases}

then_answer-state :
    {A : Type 0} (f : A → Answer) (m : Action AuthState A) (s : AuthState)
    → (then_answer f m s).1 ≡ (m s).1
then_answer-state f m s = ground arith

-- The use cases for a user without a `sub`.
profile-HasOwners :
    (sub : Option Key) (s : AuthState) → HasOwners s → HasOwners (get_profile_by sub s).1
unfolding get_profile_by get_profile
profile-HasOwners none s h = let same : (get_profile_by none s).1 ≡ s = ground arith in rw same h
profile-HasOwners (some id) s h =
    let same : (get_profile_by (some id) s).1 ≡ s = ground arith in rw same h

edit_anyone-keeps :
    (trim : Key → Key) (name : Key) (s : AuthState)
    → KeepsTokens s (update_profile_by trim none name s).1
unfolding update_profile_by update rename
edit_anyone-keeps trim name s = record {
  tokens = ground arith;
  ids = ground arith;
  families = ground arith;
}

edit_profile-HasOwners :
    (trim : Key → Key) (sub : Option Key) (name : Key) (s : AuthState)
    → HasOwners s
    → HasOwners (update_profile_by trim sub name s).1
unfolding update_profile_by
edit_profile-HasOwners trim none name s (o, v) =
    (o, keeps-IsValid o s _ (edit_anyone-keeps trim name s) v)
edit_profile-HasOwners trim (some id) name s h = update_profile-IsValid trim id name s h

abbrev all_revoked : Time → AuthState → AuthState
all_revoked now s = record s { tokens = update_many not_revoked (set_revoked now) s.tokens }

edit_anyones_password :
    (env : AuthEnv) (now : Time) (current new : Key) (s : AuthState)
    → ((change_password_by env now none current new s).1 ≡ s)
      ⊎ KeepsTokens (all_revoked now s) (change_password_by env now none current new s).1
unfolding change_password_by update revoke_everyone
edit_anyones_password env now current new s = elim (Option-cases (find_any s)) [
  | inl unknown ↦ inl (ground arith)
  | inr (u, found) ↦ elim (Option-cases u.password_hash) [
    | inl oauth ↦ inl (ground arith)
    | inr (h, set) ↦ elim (Bool-cases (h == no_key)) [
      | inl empty ↦ inl (ground arith)
      | inr full ↦ elim (Bool-cases (env.compare current h)) [
        | inr wrong ↦ inl (ground arith)
        | inl right ↦ elim (Option-cases (find_first (id_is (get_or u.id no_key)) s.users)) [
          | inl gone ↦ inl (ground arith)
          | inr (row, there) ↦
              inr (record { tokens = ground arith; ids = ground arith; families = ground arith })
        ]
      ]
    ]
  ]
]

edit_password-HasOwners :
    (env : AuthEnv) (now : Time) (sub : Option Key) (current new : Key) (s : AuthState)
    → HasOwners s
    → HasOwners (change_password_by env now sub current new s).1
unfolding change_password_by
edit_password-HasOwners env now none current new s (o, v) =
    elim (edit_anyones_password env now current new s) [
      | inl same ↦ rw same (o, v)
      | inr kept ↦ (
        o,
        keeps-IsValid o (all_revoked now s) _ kept (revoke_rows-IsValid o not_revoked now s v),
      )
    ]
edit_password-HasOwners env now (some id) current new s h =
    change_password-IsValid env now id current new s h

logout_all-HasOwners :
    (now : Time) (sub : Option Key) (s : AuthState)
    → HasOwners s
    → HasOwners (logout_all_by now sub s).1
unfolding logout_all_by revoke_everyone
logout_all-HasOwners now none s (o, v) = (o, revoke_rows-IsValid o not_revoked now s v)
logout_all-HasOwners now (some id) s h = logout_all-IsValid now id s h

revoke_session-HasOwners :
    (now : Time) (sub : Option Key) (family_id : Key) (s : AuthState)
    → HasOwners s
    → HasOwners (revoke_session_by now sub family_id s).1
unfolding revoke_session_by
revoke_session-HasOwners now none family_id s h = h
revoke_session-HasOwners now (some id) family_id s h = revoke_session-IsValid now id family_id s h

Admission-cases :
    (a : Admission)
    → ((user : CurrentUser) × (a ≡ admitted user)) ⊎ ((e : Exception) × (a ≡ denied e))
Admission-cases (admitted user) = inl (user, refl)
Admission-cases (denied e) = inr (e, refl)

module _ (site : Site) where
  handle-HasOwners :
      (now later : Time) (user : CurrentUser) (command : Command) (s : AuthState)
      → HasOwners s
      → HasOwners (handle site now later user command s).1
  unfolding handle
  handle-HasOwners now later user (do_sign_up email name password role) s h =
      rw (then_answer-state _ _ s) (sign_up-IsValid (env_at site now) email name password role s h)
  handle-HasOwners now later user (do_login email password) s h =
      rw (then_answer-state _ _ s) (login-IsValid (env_at site later) later email password s h)
  handle-HasOwners now later user (do_kakao_login code redirect) s h =
      rw (then_answer-state _ _ s)
        (kakao_login-IsValid (env_at site later) later (kakao_at site later) code redirect s h)
  handle-HasOwners now later user (do_complete token role) s h =
      rw (then_answer-state _ _ s)
        (complete_kakao_signup-IsValid (env_at site later) later (kakao_at site now) token role s h)
  handle-HasOwners now later user do_me s h = h
  handle-HasOwners now later user do_profile s h =
      rw (then_answer-state _ _ s) (profile-HasOwners user.sub s h)
  handle-HasOwners now later user (do_edit_profile name) s h =
      rw (then_answer-state _ _ s) (edit_profile-HasOwners site.text.trim user.sub name s h)
  handle-HasOwners now later user (do_edit_password current new) s h =
      rw (then_answer-state _ _ s)
        (edit_password-HasOwners (env_at site now) now user.sub current new s h)
  handle-HasOwners now later user (do_refresh token) s (o, v) =
      rw (then_answer-state _ _ s) (o, refresh-IsValid (env_at site later) now later o token s v)
  handle-HasOwners now later user (do_logout token) s h =
      rw (then_answer-state _ _ s) (logout-IsValid (env_at site now) now token s h)
  handle-HasOwners now later user do_logout_all s h =
      rw (then_answer-state _ _ s) (logout_all-HasOwners now user.sub s h)
  handle-HasOwners now later user do_sessions s h = h
  handle-HasOwners now later user (do_revoke_session family_id) s h =
      rw (then_answer-state _ _ s) (revoke_session-HasOwners now user.sub family_id s h)

  guarded-HasOwners :
      (now later : Time) (req : HttpRequest AuthCall) (s : AuthState)
      → HasOwners s
      → HasOwners (run_guarded site.gate (routes site) now later req s).1
  unfolding run_guarded
  guarded-HasOwners now later req s h =
      elim (Admission-cases (admission site.gate (routes site) now req)) [
        | inr (e, out) ↦ rw (run_guarded, out) h
        | inl (user, entered) ↦ elim (Option-cases (validate_body site.text req.call)) [
          | inl invalid ↦ rw (run_guarded, entered, invalid) h
          | inr (command, body) ↦
              rw (run_guarded, entered, body) (handle-HasOwners now later user command s h)
        ]
      ]

  serve-HasOwners :
      (now later : Time) (req : HttpRequest AuthCall) (s : ServerState AuthState)
      → HasOwners s.tables
      → HasOwners (serve site.gate (routes site) now later req s).1.tables
  serve-HasOwners now later req s h = elim (serve_cases site.gate (routes site) now later req s) [
    | inl (limited, same) ↦ rw same h
    | inr (run, same) ↦ rw same (guarded-HasOwners now later req s.tables h)
  ]

  -- From a token table that is valid for some naming of the owners of the sessions, every
  -- sequence of requests, each with its clocks, with any bodies and bearer tokens, and
  -- however each ends, leads to a table that is valid for some naming.
  pub serve_all-IsValid :
      (reqs : List (Time × Time × HttpRequest AuthCall)) (s : ServerState AuthState)
      → HasOwners s.tables
      → HasOwners (serve_all site.gate (routes site) reqs s).tables
  unfolding serve_all
  serve_all-IsValid [] s h = h
  serve_all-IsValid ((now, later, req) ∷ reqs) s h =
      serve_all-IsValid reqs (serve site.gate (routes site) now later req s).1
        (serve-HasOwners now later req s h)
