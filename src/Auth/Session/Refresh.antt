-- ===== src/Auth/Session/Refresh.antt =====
-- `RefreshTokensUseCase.execute` branch by branch, and the invariant of the token table.
use estate_server.Base.{
  All-map, Bool-cases, Key, Option-cases, Time, ap, arith, err, false, find_first, find_first-All,
  inl, inr, invalid_refresh_token, none, refl, refresh_token_reused, some, transaction, true,
  unique_row, update_many, ◌<◌, ◌≡◌,
}
use estate_server.Auth.State.{RefreshToken, TokenRow, AuthState, is_usable, is_used}
use estate_server.Auth.Tokens.{
  has_hash, to_entity, find_by_hash, in_family, set_revoked, revoke_family,
}
use estate_server.Auth.User.{User}
use estate_server.Auth.Users.{find_by_id, find_by_id-id}
use estate_server.Auth.Session.{AuthEnv, rotate, rollback, refresh, refresh_found}
use estate_server.Auth.Session.Invariant.{IsValid, update_many-IsValid}
use estate_server.Auth.Session.Rotation.{rotation-IsValid}
use estate_server.Auth.Session.Issuing.{Reads}

abbrev pub revoked : Key → Time → AuthState → AuthState
revoked family_id now s = record s {
  tokens = update_many (in_family family_id) (set_revoked now) s.tokens;
}

pub revoked-IsValid :
    (owner : Key → Key) (family_id : Key) (now : Time) (s : AuthState)
    → IsValid owner s
    → IsValid owner (revoked family_id now s)
revoked-IsValid owner family_id now s v =
    update_many-IsValid owner (in_family family_id) (set_revoked now)
      (λ row. record { id = refl; hash = refl; family = refl; user = refl; unused = λ h. h }) s v

module _ (env : AuthEnv) (now later : Time) where
  module _ (token : Key) (s : AuthState) where
    pub refresh_unknown :
        find_first (has_hash (env.sha256 token)) s.tokens ≡ none
        → refresh env now later token s ≡ (err invalid_refresh_token, s)
    unfolding refresh find_by_hash
    refresh_unknown e = ground arith

    pub refresh_known :
        {row : TokenRow}
        → find_first (has_hash (env.sha256 token)) s.tokens ≡ some row
        → refresh env now later token s ≡ refresh_found env now later (to_entity row) s
    unfolding refresh find_by_hash
    refresh_known {row} e = rw e

  module _ (found : RefreshToken) (s : AuthState) where
    pub refresh_found_used :
        is_used found ≡ true
        → refresh_found env now later found s
          ≡ (err refresh_token_reused, revoked found.family_id now s)
    unfolding refresh_found revoke_family
    refresh_found_used e = rw e

    pub refresh_found_stale :
        is_used found ≡ false
        → is_usable found now ≡ false
        → refresh_found env now later found s ≡ (err invalid_refresh_token, s)
    unfolding refresh_found
    refresh_found_stale e f = rw (e, f)

    pub refresh_found_orphan :
        is_used found ≡ false
        → is_usable found now ≡ true
        → find_by_id found.user_id s ≡ none
        → refresh_found env now later found s ≡ (err invalid_refresh_token, s)
    unfolding refresh_found
    refresh_found_orphan e f g = rw (e, f, g)

    pub refresh_found_usable :
        {user : User}
        → is_used found ≡ false
        → is_usable found now ≡ true
        → find_by_id found.user_id s ≡ some user
        → refresh_found env now later found s
          ≡ transaction rollback (rotate env now later found user) s
    unfolding refresh_found
    refresh_found_usable {user} e f g = rw (e, f, g)

  -- The found row speaks for every row with its id.
  find-Reads :
      (owner : Key → Key) (hash : Key) (s : AuthState) {row : TokenRow}
      → IsValid owner s
      → find_first (has_hash hash) s.tokens ≡ some row
      → Reads (to_entity row) s
  unfolding to_entity
  find-Reads owner hash s {row} v e =
      All-map _ _ s.tokens (λ r h k. (ap (λ t. t.family_id) (h k), ap (λ t. t.user_id) (h k)))
        (unique_row (λ r. r.id) (has_hash hash) s.tokens row e (v.one_id row.id))

  refresh_found-IsValid :
      (owner : Key → Key) (found : RefreshToken) (s : AuthState)
      → IsValid owner s
      → Reads found s
      → found.family_id < s.next_uuid
      → found.user_id ≡ owner found.family_id
      → IsValid owner (refresh_found env now later found s).1
  refresh_found-IsValid owner found s v reads old same = elim (Bool-cases (is_used found)) [
    | inl used ↦
        rw (refresh_found_used found s used) (revoked-IsValid owner found.family_id now s v)
    | inr unused ↦ elim (Bool-cases (is_usable found now)) [
      | inr stale ↦ rw (refresh_found_stale found s unused stale) v
      | inl usable ↦ elim (Option-cases (find_by_id found.user_id s)) [
        | inl orphan ↦ rw (refresh_found_orphan found s unused usable orphan) v
        | inr (user, e) ↦
            let id = find_by_id-id found.user_id s e in
            rw (refresh_found_usable found s unused usable e)
              (rotation-IsValid env now later found user s owner v reads old (ground arith))
      ]
    ]
  ]

  -- Whatever token is presented, and however the request ends, a valid token table stays
  -- valid, with the same owner of each session.
  pub refresh-IsValid :
      (owner : Key → Key) (token : Key) (s : AuthState)
      → IsValid owner s
      → IsValid owner (refresh env now later token s).1
  unfolding to_entity
  refresh-IsValid owner token s v =
      elim (Option-cases (find_first (has_hash (env.sha256 token)) s.tokens)) [
        | inl unknown ↦ rw (refresh_unknown token s unknown) v
        | inr (row, e) ↦ rw (refresh_known token s e) (
            refresh_found-IsValid owner (to_entity row) s v
              (find-Reads owner (env.sha256 token) s v e)
              (find_first-All _ (has_hash (env.sha256 token)) s.tokens v.families e)
              (find_first-All _ (has_hash (env.sha256 token)) s.tokens v.owned e))
      ]
