-- ===== src/Auth/Session/Replay.antt =====
-- A refresh token presented a first and a second time: the properties of
-- src/auth/application/refresh-tokens.use-case.ts over two requests and more.
use estate_server.Base.{
  All, All-update_many, Bool-cases, Key, Option, Option-cases, Time, [], ap, arith,
  count-pos_of_found, err, false, find_first, find_first-All, find_first-append, inl, inr, is_none,
  none, ok, refl, refresh_token_reused, some, trivial-All, true, ◌∙◌, ◌∷◌, ◌≡◌, ◌≢◌,
}
use estate_server.Auth.State.{TokenRow, AuthState, is_usable, is_used}
use estate_server.Auth.Tokens.{
  has_hash, is_unused, set_used, to_entity, find_by_hash, in_family, set_revoked,
}
use estate_server.Auth.User.{User}
use estate_server.Auth.Users.{find_by_id}
use estate_server.Auth.Session.{AuthEnv, TokenPair, session_user, refresh}
use estate_server.Auth.Session.Rotation.{rotated, rotation_won, hash_free-marked}
use estate_server.Auth.Session.Issuing.{
  marked, issued_row, issued_pair, next_hash, find_first-marked,
}
use estate_server.Auth.Session.Refresh.{
  revoked, refresh_known, refresh_unknown, refresh_found_used, refresh_found_stale,
  refresh_found_usable,
}
use mathlib.Core.Option

-- No token of the family can be used any more.
abbrev pub IsDead : Key → AuthState → Type 0
IsDead family_id s =
    All (λ row. row.family_id ≡ family_id → is_none row.revoked_at ≡ false) s.tokens

pub revoked-IsDead :
    (family_id : Key) (now : Time) (s : AuthState) → IsDead family_id (revoked family_id now s)
revoked-IsDead family_id now s =
    All-update_many (λ _. Unit {0}) _ (in_family family_id) (set_revoked now) s.tokens
      (λ row h e. ground arith) (trivial-All s.tokens)

-- The session to which a presented token belongs.
abbrev pub session_of : AuthEnv → Key → AuthState → Option Key
session_of env token s = Option.map (λ f. f.family_id) (find_by_hash (env.sha256 token) s)

module _ (env : AuthEnv) where
  -- A token of a revoked family is refused, and nothing is written unless it was used before.
  pub refresh-IsDead :
      (now later : Time) (token family_id : Key) (s : AuthState) (pair : TokenPair)
      → IsDead family_id s
      → session_of env token s ≡ some family_id
      → (refresh env now later token s).0 ≢ ok pair
  unfolding find_by_hash to_entity is_usable
  refresh-IsDead now later token family_id s pair dead mine =
      elim (Option-cases (find_first (has_hash (env.sha256 token)) s.tokens)) [
        | inl unknown ↦ rw (refresh_unknown env now later token s unknown) cc
        | inr (row, e) ↦
            let h = find_first-All _ (has_hash (env.sha256 token)) s.tokens dead e in
            let revoked_row : is_none row.revoked_at ≡ false = h (ground arith) in
            rw (refresh_known env now later token s e)
              (elim (Bool-cases (is_used (to_entity row))) [
                | inl used ↦ rw (refresh_found_used env now later (to_entity row) s used) cc
                | inr unused ↦
                    rw (refresh_found_stale env now later (to_entity row) s unused (ground arith))
                      cc
              ])
      ]

  module _ (now later : Time) (token : Key) (s : AuthState) {row : TokenRow} {user : User}
      (known : find_first (has_hash (env.sha256 token)) s.tokens ≡ some row)
      (usable : is_usable (to_entity row) now ≡ true)
      (member : find_by_id row.user_id s ≡ some user)
      (free : find_first (has_hash (next_hash env s)) s.tokens ≡ none) where
    refresh_eq : refresh env now later token s ≡ (
      ok (issued_pair env (session_user user) row.family_id s),
      rotated env now later (to_entity row) user s,
    )
    unfolding to_entity is_usable is_used
    refresh_eq =
        let hit =
          count-pos_of_found (has_hash (env.sha256 token)) (is_unused row.id) s.tokens known
            (ground arith) in
        refresh_known env now later token s known
        ∙ refresh_found_usable env now later (to_entity row) s (ground arith) usable member
        ∙ rotation_won env now later (to_entity row) user s (omega arith) free

    consumed :
        find_first (has_hash (env.sha256 token)) (refresh env now later token s).1.tokens
        ≡ some (set_used now row)
    unfolding Option.or_else to_entity is_usable
    consumed =
        let old = find_first-marked (env.sha256 token) row.id now s in
        let new = issued_row env later (session_user user) row.family_id s in
        let split =
          find_first-append (has_hash (env.sha256 token)) (marked row.id now s).tokens (new ∷ []) in
        rw refresh_eq (ground (arith, old, split))

    issued :
        find_first (has_hash (next_hash env s)) (refresh env now later token s).1.tokens
        ≡ some (issued_row env later (session_user user) row.family_id s)
    unfolding Option.or_else to_entity find_first
    issued =
        let fresh = hash_free-marked env now later (to_entity row) user s free in
        let new = issued_row env later (session_user user) row.family_id s in
        let split =
          find_first-append (has_hash (next_hash env s)) (marked row.id now s).tokens (new ∷ []) in
        rw refresh_eq (ground (arith, fresh, split))

    -- A usable token of a known user is exchanged if the hash of the next random token is
    -- free: the answer is the new pair, the old token counts as used, and the new one is
    -- found under its hash with the session and the user of the old one.
    pub refresh_rotates :
        (refresh env now later token s).0 ≡ ok (issued_pair env (session_user user) row.family_id s)
        × (Option.map is_used (find_by_hash (env.sha256 token) (refresh env now later token s).1)
            ≡ some true)
        × (find_by_hash (next_hash env s) (refresh env now later token s).1
            ≡ some (to_entity (issued_row env later (session_user user) row.family_id s)))
    unfolding find_by_hash is_used to_entity
    refresh_rotates = (ap (λ r. r.0) refresh_eq, rw consumed, rw issued)

    -- The thief's turn: the consumed token is presented again.
    pub refresh_replay :
        (now' later' : Time)
        → (refresh env now' later' token (refresh env now later token s).1)
          ≡ (err refresh_token_reused, revoked row.family_id now' (refresh env now later token s).1)
    unfolding to_entity is_used
    refresh_replay now' later' =
        let s' = (refresh env now later token s).1 in
        refresh_known env now' later' token s' consumed
        ∙ refresh_found_used env now' later' (to_entity (set_used now row)) s' refl

    -- If a usable token of a known user was exchanged (the hash of the next random token
    -- being free) and is presented again at any time, then that is refused as reuse, and
    -- from then on no token `t` that the table knows under the same session is exchanged,
    -- the successor included.
    pub refresh_replay_cuts_off :
        (now' later' : Time) (t : Key) (n l : Time) (pair : TokenPair)
        → session_of env t (refresh env now' later' token (refresh env now later token s).1).1
          ≡ some row.family_id
        → let (r, s'') = refresh env now' later' token (refresh env now later token s).1 in
          (r ≡ err refresh_token_reused) × ((refresh env n l t s'').0 ≢ ok pair)
    refresh_replay_cuts_off now' later' t n l pair mine =
        let s' = (refresh env now later token s).1 in
        (
          ap (λ r. r.0) (refresh_replay now' later'),
          refresh-IsDead n l t row.family_id (refresh env now' later' token s').1 pair
              (rw (refresh_replay now' later') (revoked-IsDead row.family_id now' s')) mine,
        )
