-- ===== src/Auth/Session/Issuing.antt =====
-- The issue of a session and the mark of a token as used keep the token table valid:
-- src/auth/application/issue-session.service.ts.
use estate_server.Base.{
  All, Key, Option-cases, Time, arith, count_where, count_where-split, count_where-update_many,
  count_where_mono_All, err, find_first, find_first-update_many, get_or, inl, inr, no_key, none,
  not, ok, refl, some, unique_violation, update_many, updated, ◌&&◌, ◌*◌, ◌+◌, ◌<◌, ◌≡◌, ◌≢◌,
}
use estate_server.Auth.State.{RefreshToken, TokenRow, AuthState}
use estate_server.Auth.Tokens.{has_hash, is_unused, set_used, save, new_row}
use mathlib.Core.Option
use estate_server.Auth.Session.{AuthEnv, TokenPair, SessionUser, issue, draw, ttl_of, ms_per_day}
use estate_server.Auth.Session.Invariant.{
  IsValid, unused_in, inserted, inserted-IsValid, update_many-IsValid, fresh_family-IsValid,
  fresh_family_empty, with_owner,
}

-- What an entity that was read says of its row is still so: only usedAt and revokedAt change.
abbrev pub Reads : RefreshToken → AuthState → Type 0
Reads found s =
    All
      (λ row.
        row.id ≡ get_or found.id no_key
        → (row.family_id ≡ found.family_id) × (row.user_id ≡ found.user_id))
      s.tokens

abbrev pub marked : Key → Time → AuthState → AuthState
marked id now s = record s { tokens = update_many (is_unused id) (set_used now) s.tokens }

pub marked-IsValid :
    (owner : Key → Key) (id : Key) (now : Time) (s : AuthState)
    → IsValid owner s
    → IsValid owner (marked id now s)
marked-IsValid owner id now s v =
    update_many-IsValid owner (is_unused id) (set_used now)
      (λ row. record { id = refl; hash = refl; family = refl; user = refl; unused = λ h. cc }) s v

-- Once the compare-and-set has hit a row, no unused token is left in its family.
pub marked_last :
    (owner : Key → Key) (found : RefreshToken) (now : Time) (s : AuthState)
    → IsValid owner s
    → Reads found s
    → count_where (is_unused (get_or found.id no_key)) s.tokens ≢ 0
    → count_where (unused_in found.family_id) (marked (get_or found.id no_key) now s).tokens ≡ 0
marked_last owner found now s v reads hit =
    let p = is_unused (get_or found.id no_key) in
    let q = unused_in found.family_id in
    let after =
      count_where-update_many q (λ row. q row && not (p row)) p (set_used now) s.tokens
        (λ row. ground arith) in
    let split = count_where-split p q s.tokens in
    let both =
      count_where_mono_All _ p (λ row. q row && p row) s.tokens (λ row h e. ground (arith, h))
        reads in
    omega (arith, v.one_unused found.family_id)

pub draw-IsValid : (owner : Key → Key) (s : AuthState) → IsValid owner s → IsValid owner (draw s)
draw-IsValid owner s v = record {
  ids = v.ids;
  families = v.families;
  owned = v.owned;
  one_id = v.one_id;
  one_hash = v.one_hash;
  one_unused = v.one_unused;
}

module _ (env : AuthEnv) where
  -- The row that `issue` inserts, and the pair that it returns, with the family fixed.
  abbrev pub issued_row : Time → SessionUser → Key → AuthState → TokenRow
  issued_row now input family s = record {
    id = s.next_id;
    user_id = input.user_id;
    token_hash = env.sha256 (env.random_token s.draws);
    family_id = family;
    expires_at = now + ttl_of env.ttl_days * ms_per_day;
    used_at = none;
    revoked_at = none;
    created_at = now;
  }

  abbrev pub issued_pair : SessionUser → Key → AuthState → TokenPair
  issued_pair input family s = record {
    access_token =
        env.sign
          (record { sub = input.user_id; email = input.email; role = input.role; fam = family });
    refresh_token = env.random_token s.draws;
  }

  abbrev pub next_hash : AuthState → Key
  next_hash s = env.sha256 (env.random_token s.draws)

  module _ (now : Time) (input : SessionUser) (family : Key) (s : AuthState) where
    pub issue_in_family :
        find_first (has_hash (next_hash s)) s.tokens ≡ none
        → issue env now input (some family) s
          ≡ (ok (issued_pair input family s), inserted (issued_row now input family s) (draw s))
    unfolding issue save new_row
    issue_in_family free = ground arith

    pub issue_taken :
        {row : TokenRow}
        → find_first (has_hash (next_hash s)) s.tokens ≡ some row
        → issue env now input (some family) s ≡ (err unique_violation, draw s)
    unfolding issue save new_row
    issue_taken taken = ground arith

  -- Within a family that has no unused token, `issue` keeps the invariant.
  issue_in_family-IsValid :
      (owner : Key → Key) (now : Time) (input : SessionUser) (family : Key) (s : AuthState)
      → IsValid owner s
      → family < s.next_uuid
      → input.user_id ≡ owner family
      → count_where (unused_in family) s.tokens ≡ 0
      → IsValid owner (issue env now input (some family) s).1
  issue_in_family-IsValid owner now input family s v old user last =
      elim (Option-cases (find_first (has_hash (next_hash s)) s.tokens)) [
        | inl free ↦ rw (issue_in_family now input family s free) (
            inserted-IsValid owner (draw s) (issued_row now input family s) (draw-IsValid owner s v)
              refl old user free last)
        | inr (row, taken) ↦ rw (issue_taken now input family s taken) (draw-IsValid owner s v)
      ]

  -- A new session is a new family, owned by the user who logged in.
  pub issue_new :
      (now : Time) (input : SessionUser) (s : AuthState)
      → issue env now input none s
        ≡ issue env now input (some s.next_uuid) (record s { next_uuid = s.next_uuid + 1 })
  unfolding issue
  issue_new now input s = refl

  pub issue_new-IsValid :
      (owner : Key → Key) (now : Time) (input : SessionUser) (s : AuthState)
      → IsValid owner s
      → IsValid (with_owner owner s.next_uuid input.user_id) (issue env now input none s).1
  issue_new-IsValid owner now input s v = rw (issue_new now input s) (
      issue_in_family-IsValid _ now input s.next_uuid _
        (fresh_family-IsValid owner s input.user_id v) (omega arith) (ground arith)
        (fresh_family_empty owner s v))

-- Consuming a token changes no hash.
pub find_first-marked :
    (hash id : Key) (now : Time) (s : AuthState)
    → find_first (has_hash hash) (marked id now s).tokens
      ≡ Option.map (updated (is_unused id) (set_used now)) (find_first (has_hash hash) s.tokens)
find_first-marked hash id now s =
    find_first-update_many (has_hash hash) (has_hash hash) (is_unused id) (set_used now) s.tokens
      (λ row. ground arith)
