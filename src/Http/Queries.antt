-- ===== src/Http/Queries.antt =====
-- The use cases of src/auth/application for the `sub` of `request.user`. A condition on `undefined`
-- is no condition to Prisma, so without a `sub` the queries of the repositories range over all rows.
use estate_server.Base.{
  Action, Bool, Key, List, Option, Time, count_where, find_first, find_many, gets,
  invalid_credentials, is_key, is_none, ltb, map, no_key, none, not, not_session_owner, ok,
  or_raise, pure, raise, raise_if, some, transaction, update_many, user_not_found, ℕ, ◌&&◌, ◌==◌,
  ◌>>=◌, ◌>>◌,
}
use mathlib.Core.Option
use estate_server.Auth.State.{UserRow, TokenRow, AuthState}
use estate_server.Auth.User.{User, rename, change_password}
use estate_server.Auth.Users.{reconstitute, update}
use estate_server.Auth.Tokens.{
  SessionSummary, family_of, sort_desc, group_by_family, contains, set_revoked,
}
use estate_server.Auth.Session.{
  AuthEnv, SessionView, rollback, change_password_of, logout_all, list_sessions, revoke_session,
}
use estate_server.Auth.Access.{lift, get_profile, update_profile}

abbrev pub is_live : UserRow → Bool
is_live row = is_none row.deleted_at

abbrev pub not_revoked : TokenRow → Bool
not_revoked row = is_none row.revoked_at

-- `findById(undefined)`
unfoldable pub find_any : AuthState → Option User
unfolding reconstitute
find_any s = Option.map reconstitute (find_first is_live s.users)

-- `revokeAllByUser(undefined, …)`
unfoldable pub revoke_everyone : Time → Action AuthState ℕ
revoke_everyone revoked_at s = (
  ok (count_where not_revoked s.tokens),
  record s { tokens = update_many not_revoked (set_revoked revoked_at) s.tokens },
)

abbrev pub is_open : Time → TokenRow → Bool
is_open now row = is_none row.used_at && is_none row.revoked_at && ltb now row.expires_at

-- `findActiveFamilies(undefined, …)`
unfoldable pub find_all_families : Time → AuthState → List SessionSummary
unfolding group_by_family sort_desc
find_all_families now s =
    let families = map family_of (find_many (is_open now) s.tokens) in
    sort_desc (group_by_family (find_many (λ row. contains row.family_id families) s.tokens))

unfoldable pub get_profile_by : Option Key → Action AuthState User
unfolding get_profile
get_profile_by (some id) = get_profile id
get_profile_by none = do found ← gets find_any; user ← or_raise found user_not_found; pure user

unfoldable pub update_profile_by : (Key → Key) → Option Key → Key → Action AuthState User
unfolding update_profile
update_profile_by trim (some id) name = update_profile trim id name
update_profile_by trim none name = do
  found ← gets find_any
  user ← or_raise found user_not_found
  renamed ← lift (rename trim name user)
  update renamed

unfoldable pub change_password_by :
    AuthEnv → Time → Option Key → Key → Key → Action AuthState (Unit {0})
unfolding change_password_of change_password
change_password_by env now (some id) current new = change_password_of env now id current new
change_password_by env now none current new = do
  found ← gets find_any
  user ← or_raise found user_not_found
  password_hash ← or_raise user.password_hash invalid_credentials
  raise_if (password_hash == no_key) invalid_credentials
  raise_if (not (env.compare current password_hash)) invalid_credentials
  transaction rollback
      (do update (change_password (env.hash_password new) user); revoke_everyone now; pure tt)

unfoldable pub logout_all_by : Time → Option Key → Action AuthState (Unit {0})
unfolding logout_all revoke_everyone
logout_all_by now (some id) = logout_all now id
logout_all_by now none = revoke_everyone now >> pure tt

unfoldable pub list_sessions_by : Time → Option Key → Option Key → AuthState → List SessionView
unfolding list_sessions find_all_families
list_sessions_by now (some id) current s = list_sessions now id current s
list_sessions_by now none current s =
    map
      (λ (f : SessionSummary). record {
        family_id = f.family_id;
        created_at = f.created_at;
        current = is_key current f.family_id;
      })
      (find_all_families now s)

-- The owner of a session, or null for an unknown one, is never `undefined`.
unfoldable pub revoke_session_by : Time → Option Key → Key → Action AuthState (Unit {0})
unfolding revoke_session
revoke_session_by now (some id) family_id = revoke_session now id family_id
revoke_session_by now none family_id = raise not_session_owner
