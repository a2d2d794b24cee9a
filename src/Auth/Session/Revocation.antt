-- ===== src/Auth/Session/Revocation.antt =====
-- Logging out, ending one session, and changing the password: the use cases revoke-session and
-- change-password of src/auth/application.
use estate_server.Base.{
  All, All-update_many, trivial-All, AppError, Bool-cases, Key, List, Option-cases, Result, Time,
  ap, arith, err, false, find_first, find_first-update_many, find_first_sound, get_or, inl, inr,
  invalid_credentials, is_key, is_none, no_key, not_session_owner, ok, refl, some, true,
  update_many, updated, user_not_found, ◌==◌, ◌≡◌, ◌≢◌, ◌⊎◌,
}
use estate_server.Auth.State.{TokenRow, AuthState}
use estate_server.Auth.Tokens.{
  has_hash, to_entity, find_by_hash, in_family, of_user, set_revoked, revoke_family,
  revoke_all_by_user, find_family_owner,
}
use estate_server.Auth.User.{User}
use estate_server.Auth.Users.{
  find_by_id, find_by_id-id, update, has_id, id_is, set_profile, reconstitute,
}
use estate_server.Auth.Session.{AuthEnv, revoke_session, change_password_of}
use estate_server.Auth.Session.Refresh.{revoked}
use estate_server.Auth.Session.Replay.{IsDead, revoked-IsDead}
use mathlib.Core.Option

find_first-revoked :
    (hash family_id : Key) (now : Time) (s : AuthState)
    → find_first (has_hash hash) (revoked family_id now s).tokens
      ≡ Option.map
          (updated (in_family family_id) (set_revoked now))
          (find_first (has_hash hash) s.tokens)
find_first-revoked hash family_id now s =
    find_first-update_many (has_hash hash) (has_hash hash) (in_family family_id) (set_revoked now)
      s.tokens (λ row. ground arith)

-- A token of another session is as it was.
find_by_hash-revoked :
    (hash family_id : Key) (now : Time) (s : AuthState)
    → Option.map (λ f. f.family_id) (find_by_hash hash s) ≢ some family_id
    → find_by_hash hash (revoked family_id now s) ≡ find_by_hash hash s
unfolding find_by_hash to_entity
find_by_hash-revoked hash family_id now s other =
    let e = find_first-revoked hash family_id now s in
    elim (Option-cases (find_first (has_hash hash) s.tokens)) [
      | inl unknown ↦ ground arith
      | inr (row, found) ↦
          let ne : row.family_id ≢ family_id = λ k. other (rw found (ap some k)) in ground arith
    ]

module _ (now : Time) (user_id family_id : Key) (s : AuthState) where
  pub revoke_session_own :
      find_family_owner family_id s ≡ some user_id
      → revoke_session now user_id family_id s ≡ (ok tt, revoked family_id now s)
  unfolding revoke_session revoke_family
  revoke_session_own e = ground arith

  pub revoke_session_other :
      is_key (find_family_owner family_id s) user_id ≡ false
      → revoke_session now user_id family_id s ≡ (err not_session_owner, s)
  unfolding revoke_session
  revoke_session_other e = ground arith

  -- Ending a session either is asked by its owner, and then it succeeds and every token of
  -- the session is revoked, or it is refused as not the owner's, also where the session is
  -- unknown, and changes nothing. In both cases a token found by a hash of another session,
  -- or of none, is as it was.
  pub revoke_session_authorised :
      (hash : Key)
      → Option.map (λ f. f.family_id) (find_by_hash hash s) ≢ some family_id
      → let (r, s') = revoke_session now user_id family_id s in
        ((find_family_owner family_id s ≡ some user_id) × (r ≡ ok tt) × IsDead family_id s'
          ⊎ (find_family_owner family_id s ≢ some user_id) × (r ≡ err not_session_owner) × (s' ≡ s))
        × (find_by_hash hash s' ≡ find_by_hash hash s)
  revoke_session_authorised hash h =
      elim (Bool-cases (is_key (find_family_owner family_id s) user_id)) [
        | inl mine ↦
            let own : find_family_owner family_id s ≡ some user_id = ground arith in
            rw (revoke_session_own own) (
              inl (own, refl, revoked-IsDead family_id now s),
              find_by_hash-revoked hash family_id now s h,
            )
        | inr not_mine ↦
            rw (revoke_session_other not_mine) (inr (λ e. ground arith, refl, refl), refl)
      ]

-- No token of the user can be used any more.
abbrev pub IsLoggedOut : Key → AuthState → Type 0
IsLoggedOut user_id s = All (λ row. row.user_id ≡ user_id → is_none row.revoked_at ≡ false) s.tokens

revoked_tokens-IsLoggedOut :
    (user_id : Key) (now : Time) (rows : List TokenRow)
    → All
        (λ row. row.user_id ≡ user_id → is_none row.revoked_at ≡ false)
        (update_many (of_user user_id) (set_revoked now) rows)
revoked_tokens-IsLoggedOut user_id now rows =
    All-update_many (λ _. Unit {0}) _ (of_user user_id) (set_revoked now) rows
      (λ row h e. ground arith) (trivial-All rows)

-- The state after the transaction of `ChangePasswordUseCase` on the user that was read.
abbrev pub changed : Key → Time → Key → User → AuthState → AuthState
changed user_id now new_hash u s = record s {
  users =
      update_many (id_is (get_or u.id no_key))
        (set_profile (record u { password_hash = some new_hash })) s.users;
  tokens = update_many (of_user user_id) (set_revoked now) s.tokens;
}

module _ (env : AuthEnv) (now : Time) (user_id current new : Key) (s : AuthState) where
  abbrev pub outcome : Result (Unit {0}) × AuthState
  outcome = change_password_of env now user_id current new s

  pub change_password_cases :
      ((u : User) × (find_by_id user_id s ≡ some u)
        × (outcome ≡ (ok tt, changed user_id now (env.hash_password new) u s)))
      ⊎ ((e : AppError) × (outcome ≡ (err e, s)))
  unfolding change_password_of update revoke_all_by_user
  change_password_cases = elim (Option-cases (find_by_id user_id s)) [
    | inl unknown ↦ inr (user_not_found, ground arith)
    | inr (u, found) ↦ elim (Option-cases u.password_hash) [
      | inl oauth ↦ inr (invalid_credentials, ground arith)
      | inr (h, set) ↦ elim (Bool-cases (h == no_key)) [
        | inl empty ↦ inr (invalid_credentials, ground arith)
        | inr full ↦ elim (Bool-cases (env.compare current h)) [
          | inr wrong ↦ inr (invalid_credentials, ground arith)
          | inl right ↦ elim (Option-cases (find_first (id_is (get_or u.id no_key)) s.users)) [
            | inl gone ↦ inr (user_not_found, ground arith)
            | inr (row, there) ↦ inl (u, found, ground arith)
          ]
        ]
      ]
    ]
  ]

  find_by_id-changed :
      (u : User) (new_hash : Key)
      → find_by_id user_id s ≡ some u
      → Option.map (λ v. v.password_hash) (find_by_id user_id (changed user_id now new_hash u s))
        ≡ some (some new_hash)
  unfolding find_by_id reconstitute
  find_by_id-changed u new_hash e =
      let id = find_by_id-id user_id s e in
      let p = id_is (get_or u.id no_key) in
      let f = set_profile (record u { password_hash = some new_hash }) in
      let moved =
        find_first-update_many (has_id user_id) (has_id user_id) p f s.users
          (λ row. ground arith) in
      elim (Option-cases (find_first (has_id user_id) s.users)) [
        | inl unknown ↦ ground arith
        | inr (row, found) ↦
            let h = find_first_sound (has_id user_id) s.users found in
            let is_it : (row.id == get_or u.id no_key) ≡ true = ground arith in
            rw moved (rw found (rw is_it))
      ]

  -- A change of the password either succeeds, and then every token of the user is revoked and
  -- the stored hash is that of the new password, or fails and changes nothing.
  pub change_password_atomic :
      ((outcome.0 ≡ ok tt)
        × IsLoggedOut user_id outcome.1
        × (Option.map (λ u. u.password_hash) (find_by_id user_id outcome.1)
            ≡ some (some (env.hash_password new))))
      ⊎ ((outcome.0 ≢ ok tt) × (outcome.1 ≡ s))
  change_password_atomic = elim change_password_cases [
    | inl (u, found, e) ↦ inl (
        rw e (
          refl,
          revoked_tokens-IsLoggedOut user_id now s.tokens,
          find_by_id-changed u (env.hash_password new) found,
        ))
    | inr (code, e) ↦ inr (rw e (cc, refl))
  ]
