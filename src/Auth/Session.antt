-- ===== src/Auth/Session.antt =====
-- src/auth/application: issue-session.service.ts and the use cases on sessions: refresh, logout,
-- logout-all, revoke-session, list-sessions and change-password.
pub mod Invariant
pub mod Issuing
pub mod Rotation
pub mod Refresh
pub mod Replay
pub mod Revocation
pub mod Race
mod Tests
use estate_server.Base.{
  Action, Bool, Key, List, Option, Time, get_or, gets, if◌then◌else◌, invalid_credentials,
  invalid_refresh_token, is_key, map, modify, no_key, none, not, not_session_owner, ok, or_raise,
  pure, raise, raise_if, refresh_token_reused, some, transaction, updated, user_not_found, ℕ, ◌*◌,
  ◌+◌, ◌==◌, ◌>>=◌, ◌>>◌,
}
use estate_server.Base.Int.{ℤ, pos, negsuc}
use estate_server.Auth.State.{Role, RefreshToken, create, is_usable, is_used, AuthState}
use estate_server.Auth.Tokens.{
  save, find_by_hash, mark_used, revoke_family, revoke_all_by_user, SessionSummary,
  find_active_families, find_family_owner,
}
use estate_server.Auth.User.{User, change_password}
use estate_server.Auth.Users.{find_by_id, update}

-- The claims of an access token (domain/token-issuer.ts).
pub record TokenPayload : Type 0 where
  pub sub : Key
  pub email : Key
  pub role : Role
  pub fam : Key

-- What the auth use cases call outside the repository: `random_token` is the n-th value of
-- `randomBytes`, `sha256` and `sign` are node:crypto and the JWT library, `compare` and
-- `hash_password` bcrypt, and `ttl_days` is `Number.parseInt` of the configured number of days,
-- `none` where it is not finite.
pub record AuthEnv : Type 0 where
  pub random_token : ℕ → Key
  pub sha256 : Key → Key
  pub sign : TokenPayload → Key
  pub compare : Key → Key → Bool
  pub hash_password : Key → Key
  pub ttl_days : Option ℤ

pub record TokenPair : Type 0 where
  pub access_token : Key
  pub refresh_token : Key

abbrev pub default_ttl_days : ℕ
default_ttl_days = 14

abbrev pub ms_per_day : ℕ
ms_per_day = 86400000

-- `ttlDays`: a positive finite value, or the default.
abbrev pub ttl_of : Option ℤ → ℕ
ttl_of none = default_ttl_days
ttl_of (some (pos n)) = if n == 0 then default_ttl_days else n
ttl_of (some (negsuc n)) = default_ttl_days

-- A rollback restores the tables; fresh values that were drawn stay drawn.
abbrev pub rollback : AuthState → AuthState → AuthState
rollback before after = record before {
  next_id = after.next_id;
  next_uuid = after.next_uuid;
  draws = after.draws;
}

abbrev pub draw : AuthState → AuthState
draw s = record s { draws = s.draws + 1 }

-- `randomUUID()`, called only where no family is given.
abbrev pub family_or_new : Option Key → Action AuthState Key
family_or_new (some family_id) s = (ok family_id, s)
family_or_new none s = (ok s.next_uuid, record s { next_uuid = s.next_uuid + 1 })

-- The argument of `issue`: the user for whom a session is issued.
pub record SessionUser : Type 0 where
  pub user_id : Key
  pub email : Key
  pub role : Role

-- `{ userId: user.id!, email: user.email, role: user.role }`
abbrev pub session_user : User → SessionUser
session_user u = record { user_id = get_or u.id no_key; email = u.email; role = u.role }

module _ (env : AuthEnv) where
  unfoldable pub issue : Time → SessionUser → Option Key → Action AuthState TokenPair
  unfolding create
  issue now input family_id = do
    token ← gets (λ s. env.random_token s.draws)
    modify draw
    family ← family_or_new family_id
    saved ←
        save now
          (create input.user_id (env.sha256 token) family (now + ttl_of env.ttl_days * ms_per_day))
    pure (record {
      access_token = env.sign (record {
        sub = input.user_id;
        email = input.email;
        role = input.role;
        fam = saved.family_id;
      });
      refresh_token = token;
    })

  -- The callback of the transaction in `RefreshTokensUseCase.execute`.
  unfoldable pub rotate : Time → Time → RefreshToken → User → Action AuthState TokenPair
  unfolding issue
  rotate now later found user = do
    updated ← mark_used (get_or found.id no_key) now
    raise_if (updated == 0) refresh_token_reused
    issue later (session_user user) (some found.family_id)

  -- `RefreshTokensUseCase.execute`, on the token as `findByHash` read it. `now` is the clock at
  -- its first line, `later` the clock in `issue`.
  unfoldable pub refresh_found : Time → Time → RefreshToken → Action AuthState TokenPair
  refresh_found now later found =
      if is_used found
      then (do revoke_family found.family_id now; raise refresh_token_reused)
      else if not (is_usable found now)
      then raise invalid_refresh_token
      else do
        owner ← gets (find_by_id found.user_id)
        user ← or_raise owner invalid_refresh_token
        transaction rollback (rotate now later found user)

  unfoldable pub refresh : Time → Time → Key → Action AuthState TokenPair
  refresh now later token = do
    found ← gets (find_by_hash (env.sha256 token))
    t ← or_raise found invalid_refresh_token
    refresh_found now later t

  -- `LogoutUseCase.execute`
  unfoldable pub logout : Time → Key → Action AuthState (Unit {0})
  logout now token = do
    found ← gets (find_by_hash (env.sha256 token))
    elim found [ none ↦ pure tt | some t ↦ revoke_family t.family_id now >> pure tt ]

  -- `ChangePasswordUseCase.execute`
  unfoldable pub change_password_of : Time → Key → Key → Key → Action AuthState (Unit {0})
  unfolding change_password
  change_password_of now user_id current new = do
    found ← gets (find_by_id user_id)
    user ← or_raise found user_not_found
    password_hash ← or_raise user.password_hash invalid_credentials
    raise_if (password_hash == no_key) invalid_credentials
    raise_if (not (env.compare current password_hash)) invalid_credentials
    transaction rollback (do
      update (change_password (env.hash_password new) user)
      revoke_all_by_user user_id now
      pure tt)

-- `LogoutAllUseCase.execute`
unfoldable pub logout_all : Time → Key → Action AuthState (Unit {0})
logout_all now user_id = revoke_all_by_user user_id now >> pure tt

-- `RevokeSessionUseCase.execute`
unfoldable pub revoke_session : Time → Key → Key → Action AuthState (Unit {0})
revoke_session now user_id family_id = do
  found ← gets (find_family_owner family_id)
  raise_if (not (is_key found user_id)) not_session_owner
  revoke_family family_id now
  pure tt

pub record SessionView : Type 0 where
  pub family_id : Key
  pub created_at : Time
  pub current : Bool

-- `ListSessionsUseCase.execute`
unfoldable pub list_sessions : Time → Key → Option Key → AuthState → List SessionView
list_sessions now user_id current s =
    map
      (λ (f : SessionSummary). record {
        family_id = f.family_id;
        created_at = f.created_at;
        current = is_key current f.family_id;
      })
      (find_active_families user_id now s)
