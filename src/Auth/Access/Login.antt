-- ===== src/Auth/Access/Login.antt =====
-- Signing up and signing in with a password: sign-up and login of src/auth/application.
use estate_server.Base.{
  Bool-cases, Key, Option, Option-cases, Time, [], arith, err, find_first, find_first-append,
  find_first-weaker, get_or, inl, inr, invalid_credentials, no_key, none, ok, refl, some, true,
  ◌++◌, ◌+◌, ◌==◌, ◌∷◌, ◌≡◌, ◌≢◌, ◌⊎◌,
}
use mathlib.Core.Option
use estate_server.Auth.State.{Role, UserRow, tenant, AuthState}
use estate_server.Auth.User
use estate_server.Auth.User.{User}
use estate_server.Auth.Users
use estate_server.Auth.Users.{find_by_email, reconstitute, has_email, email_is, new_user}
use estate_server.Auth.Session.{AuthEnv, session_user, issue}
use estate_server.Auth.Access.{login, sign_up, is_allowed}

module _ (env : AuthEnv) (now : Time) (email password : Key) (s : AuthState) where
  login-ok :
      {u : User} {h : Key}
      → find_by_email email s ≡ some u
      → u.password_hash ≡ some h
      → h ≢ no_key
      → env.compare password h ≡ true
      → login env now email password s ≡ issue env now (session_user u) none s
  unfolding login
  login-ok {u} {h} e k full right = ground arith

  -- A login either issues a new session to the live user of the address, whose stored hash is
  -- that of the password by the hasher's comparison, or answers with the same error for an
  -- unknown address, a user without a password and a wrong password, and changes nothing.
  pub login_cases :
      ((u : User) × (h : Key) × (find_by_email email s ≡ some u)
        × (u.password_hash ≡ some h)
        × (env.compare password h ≡ true)
        × (login env now email password s ≡ issue env now (session_user u) none s))
      ⊎ (login env now email password s ≡ (err invalid_credentials, s))
  unfolding login
  login_cases = elim (Option-cases (find_by_email email s)) [
    | inl unknown ↦ inr (ground arith)
    | inr (u, found) ↦ elim (Option-cases u.password_hash) [
      | inl oauth ↦ inr (ground arith)
      | inr (h, set) ↦ elim (Bool-cases (h == no_key)) [
        | inl empty ↦ inr (ground arith)
        | inr full ↦ elim (Bool-cases (env.compare password h)) [
          | inr wrong ↦ inr (ground arith)
          | inl right ↦ inl (u, h, found, set, right, login-ok found set (ground arith) right)
        ]
      ]
    ]
  ]

module _ (env : AuthEnv) (email name password : Key) (role : Option Role) (s : AuthState) where
  abbrev new_row : UserRow
  new_row = record {
    id = s.next_id;
    email = email;
    name = name;
    password_hash = some (env.hash_password password);
    role = get_or role tenant;
    deleted_at = none;
  }

  abbrev pub signed_up : AuthState
  signed_up = record s { users = s.users ++ new_row ∷ []; next_id = s.next_id + 1 }

  module _ (free : find_first (email_is email) s.users ≡ none) (named : name ≢ no_key)
      (addressed : email ≢ no_key) (self : is_allowed (get_or role tenant) ≡ true) where
    no_live_user : find_by_email email s ≡ none
    unfolding find_by_email
    no_live_user =
        rw (
          find_first-weaker (has_email email) (email_is email) s.users (λ row h. ground arith) free)

    sign_up-ok : sign_up env email name password role s ≡ (ok (reconstitute new_row), signed_up)
    unfolding sign_up User.create Users.save new_user
    sign_up-ok = let none_live = no_live_user in ground arith

    find_by_email-signed_up : find_by_email email signed_up ≡ some (reconstitute new_row)
    unfolding find_by_email find_first Option.or_else
    find_by_email-signed_up =
        let none_live =
          find_first-weaker (has_email email) (email_is email) s.users (λ row h. ground arith)
            free in
        let split = find_first-append (has_email email) s.users (new_row ∷ []) in
        ground (arith, none_live, split)

    -- If no user, live or deleted, has the address, neither the name nor the address is
    -- empty, the role is allowed, and the hasher accepts the password against its own hash,
    -- which is not empty, then a login after the sign-up issues a session to the new user,
    -- with the role that was asked for, or tenant.
    pub login-sign_up :
        (now : Time)
        → env.compare password (env.hash_password password) ≡ true
        → env.hash_password password ≢ no_key
        → login env now email password (sign_up env email name password role s).1
          ≡ issue env now
              (record { user_id = s.next_id; email = email; role = get_or role tenant })
              none
              signed_up
    unfolding reconstitute
    login-sign_up now right full =
        rw sign_up-ok
          (login-ok env now email password signed_up find_by_email-signed_up refl full right)
