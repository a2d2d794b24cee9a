-- ===== src/Http/SignedIn.antt =====
-- From POST /auth/login to GET /auth/profile: src/auth/interface/auth.controller.ts with the token of
-- src/auth/infrastructure/jwt-token.service.ts.
use estate_server.Base.{
  All-map, Bool-cases, Key, Option, Option-cases, Result-cases, Time, ap, arith, count_where, err,
  find_first, find_first_sound, find_first_unique, get_or, inl, inr, invalid_credentials, no_key,
  none, ok, refl, some, unique_row, unique_violation, ℕ, ◌+◌, ◌==◌, ◌∙◌, ◌≡◌, ◌≤◌,
}
use estate_server.Auth.State.{UserRow, AuthState}
use estate_server.Auth.User.{User}
use estate_server.Auth.Users.{has_email, has_id, id_is, find_by_email, find_by_id, reconstitute}
use estate_server.Auth.Session.{TokenPayload, TokenPair, session_user, issue}
use estate_server.Auth.Session.Issuing.{
  issue_new, issue_in_family, issue_taken, issued_pair, next_hash,
}
use estate_server.Auth.Tokens.{has_hash}
use estate_server.Auth.Access.{login, get_profile}
use estate_server.Auth.Access.Login.{login_cases}
use estate_server.RateLimit.Window.{can_activate}
use estate_server.Http.Bearer.{access, issue_access, jwt_auth_guard, validate}
use estate_server.Http.Queries.{get_profile_by}
use estate_server.Http.Server.{
  HttpRequest, ServerState, answered, status, serve, run_guarded, refuse,
}
use estate_server.Http.AuthApi.{
  Site, tokens, of_user, user_view, handle, login_handler, profile, validate_body, is_guarded,
  success_of, method_of, limit_of, env_at, routes, AuthCall,
}
use estate_server.Http.Guarding.{serve_cases}

-- The columns id of the table User are unique: its primary key.
abbrev pub HasUniqueIds : AuthState → Type 0
HasUniqueIds s = (id : Key) → count_where (id_is id) s.users ≤ 1

find_by_id-email :
    (email : Key) (s : AuthState) {u : User}
    → HasUniqueIds s
    → find_by_email email s ≡ some u
    → find_by_id (get_or u.id no_key) s ≡ some u
unfolding find_by_email find_by_id reconstitute
find_by_id-email email s {u} ids e = elim (Option-cases (find_first (has_email email) s.users)) [
  | inl none_found ↦ ground arith
  | inr (row, found) ↦
      let h = find_first_sound (has_email email) s.users found in
      let one =
        unique_row (λ (r : UserRow). r.id) (has_email email) s.users row found (ids row.id) in
      let again : find_first (has_id row.id) s.users ≡ some row =
        find_first_unique (has_email email) (has_id row.id) s.users found (ground arith)
          (All-map _ _ s.users (λ r k q. k (ground arith)) one) in
      let same : u ≡ reconstitute row = ground arith in rw same (rw again refl)
]

not_limited : {n : ℕ} → n ≡ 201 → n ≡ 429 → ⊥
not_limited e h = omega arith

-- The payload of the access token that a login issues.
abbrev pub payload_of : User → AuthState → TokenPayload
payload_of u s = record {
  sub = get_or u.id no_key;
  email = u.email;
  role = u.role;
  fam = s.next_uuid;
}

-- POST /auth/login
abbrev pub login_request : Option Key → Option Key → Key → Key → HttpRequest AuthCall
login_request ip bearer email password = record {
  ip = ip;
  bearer = bearer;
  call = login_handler (some email) (some password);
}

find_by_id-users :
    (id : Key) (s s' : AuthState) → s'.users ≡ s.users → find_by_id id s' ≡ find_by_id id s
unfolding find_by_id
find_by_id-users id s s' e = rw e refl

module _ (site : Site) (now later : Time) where
  issued_token :
      (u : User) (pair : TokenPair) (s : AuthState)
      → (issue (env_at site later) later (session_user u) none s).0 ≡ ok pair
      → (pair.access_token ≡ issue_access site.gate.jwt later (payload_of u s))
        × ((issue (env_at site later) later (session_user u) none s).1.users ≡ s.users)
  issued_token u pair s e =
      let env = env_at site later in
      let t : AuthState = record s { next_uuid = s.next_uuid + 1 } in
      elim (Option-cases (find_first (has_hash (next_hash env s)) s.tokens)) [
        | inl free ↦
            let eq =
              issue_new env later (session_user u) s
              ∙ issue_in_family env later (session_user u) s.next_uuid t free in
            let same : ok (issued_pair env (session_user u) s.next_uuid t) ≡ ok pair = rw eq at e in
            (ground arith, rw eq refl)
        | inr (row, taken) ↦
            let eq =
              issue_new env later (session_user u) s
              ∙ issue_taken env later (session_user u) s.next_uuid t taken in
            let clash : err unique_violation ≡ ok pair = rw eq at e in cc
      ]

  login_tokens :
      (email password : Key) (u : User) (pair : TokenPair) (s : AuthState)
      → find_by_email email s ≡ some u
      → (login (env_at site later) later email password s).0 ≡ ok pair
      → (pair.access_token ≡ issue_access site.gate.jwt later (payload_of u s))
        × ((login (env_at site later) later email password s).1.users ≡ s.users)
  login_tokens email password u pair s found e =
      elim (login_cases (env_at site later) later email password s) [
        | inr wrong ↦ let clash : err invalid_credentials ≡ ok pair = rw wrong at e in cc
        | inl (v, hash, found', set, right, same) ↦
            let is_u : v ≡ u = cc in
            let issued : (issue (env_at site later) later (session_user v) none s).0 ≡ ok pair =
              rw same at e in
            rw same (rw (← is_u) (issued_token v pair s issued))
      ]

  module _ (ip bearer : Option Key) (email password : Key) where
    login_run :
        (u : User) (pair : TokenPair) (n : ℕ) (s : AuthState)
        → find_by_email (site.text.trim email) s ≡ some u
        → (run_guarded site.gate
            (routes site)
            now
            later
            (login_request ip bearer email password)
            s).0
          ≡ answered n (tokens pair)
        → (pair.access_token ≡ issue_access site.gate.jwt later (payload_of u s))
          × ((run_guarded site.gate
                (routes site)
                now
                later
                (login_request ip bearer email password)
                s).1.users
              ≡ s.users)
    unfolding run_guarded is_guarded validate_body handle refuse
    login_run u pair n s found e =
        let r = login (env_at site later) later (site.text.trim email) password s in
        elim (Bool-cases (site.text.is_email (site.text.trim email))) [
          | inr no_email ↦ ground arith
          | inl valid ↦ elim (Bool-cases (password == no_key)) [
            | inl empty ↦ ground arith
            | inr full ↦ elim (Result-cases r.0) [
              | inr (c, failed) ↦ ground arith
              | inl (q, done) ↦
                  let same : q ≡ pair = ground arith in
                  let h = login_tokens (site.text.trim email) password u q s found done in
                  ground (arith, h)
            ]
          ]
        ]

-- GET /auth/profile with a bearer token.
abbrev pub profile_request : Option Key → Key → HttpRequest AuthCall
profile_request ip token = record { ip = ip; bearer = some token; call = profile }

module _ (site : Site) (now later : Time) (ip : Option Key) (token : Key) where
  -- A read is not limited, and is answered from the claims of the token.
  profile_answered :
      (p : TokenPayload) (u : User) (s : ServerState AuthState)
      → site.gate.jwt.verify now token ≡ some (access p)
      → find_by_id p.sub s.tables ≡ some u
      → (serve site.gate (routes site) now later (profile_request ip token) s).0
        ≡ answered 200 (of_user (user_view u))
  unfolding serve run_guarded jwt_auth_guard is_guarded validate_body handle can_activate validate
      success_of method_of limit_of get_profile_by get_profile
  profile_answered p u s good found = ground arith

module _ (site : Site) (now later : Time) (ip bearer : Option Key) (email password : Key) where
  -- If the ids of the users are unique, a live user has the trimmed address, POST /auth/login
  -- is answered with a pair of tokens, and the token service verifies, at a later request,
  -- the access token that was signed for this user and the new session, then GET
  -- /auth/profile with the access token of the pair is answered with 200 and the profile of
  -- that user, whatever its address and the counters of the rate limit.
  pub login_profile :
      (now' later' : Time) (ip' : Option Key) (u : User) (pair : TokenPair)
      (s : ServerState AuthState)
      → HasUniqueIds s.tables
      → find_by_email (site.text.trim email) s.tables ≡ some u
      → (serve site.gate (routes site) now later (login_request ip bearer email password) s).0
        ≡ answered 201 (tokens pair)
      → site.gate.jwt.verify now' (issue_access site.gate.jwt later (payload_of u s.tables))
        ≡ some (access (payload_of u s.tables))
      → (serve site.gate
          (routes site)
          now'
          later'
          (profile_request ip' pair.access_token)
          (serve site.gate (routes site) now later (login_request ip bearer email password) s).1).0
        ≡ answered 200 (of_user (user_view u))
  unfolding status
  login_profile now' later' ip' u pair s ids found e good =
      let req = login_request ip bearer email password in
      elim (serve_cases site.gate (routes site) now later req s) [
        | inl (limited, same) ↦ absurd (not_limited (ap status e) limited)
        | inr (run, same) ↦
            let ran : (run_guarded site.gate (routes site) now later req s.tables).0
                ≡ answered 201 (tokens pair) =
              rw run at e in
            let (signed, users) =
              login_run site now later ip bearer email password u pair 201 s.tables found ran in
            let known : find_by_id (get_or u.id no_key)
                  (serve site.gate (routes site) now later req s).1.tables
                ≡ some u =
              find_by_id-users (get_or u.id no_key) s.tables _ (rw same users)
              ∙ find_by_id-email (site.text.trim email) s.tables ids found in
            profile_answered site now' later' ip' pair.access_token (payload_of u s.tables) u _
              (rw signed good) known
      ]
