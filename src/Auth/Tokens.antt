-- ===== src/Auth/Tokens.antt =====
-- src/auth/infrastructure/prisma-refresh-token.repository.ts, query by query.
use estate_server.Base.{
  Action, Bool, Key, List, Option, Time, [], count_where, false, find_first, find_many, gets,
  if◌then◌else◌, is_none, is_some, leb, ltb, map, min, modify, none, ok, pure, raise_if, some,
  unique_violation, update_many, ℕ, ◌&&◌, ◌++◌, ◌+◌, ◌==◌, ◌>>=◌, ◌>>◌, ◌||◌, ◌∷◌,
}
use estate_server.Auth.State.{RefreshToken, TokenRow, AuthState}
use mathlib.Core.Option

unfoldable pub to_entity : TokenRow → RefreshToken
to_entity row = record {
  id = some row.id;
  user_id = row.user_id;
  token_hash = row.token_hash;
  family_id = row.family_id;
  expires_at = row.expires_at;
  used_at = row.used_at;
  revoked_at = row.revoked_at;
}

-- The row that `save` inserts: `data` names four columns, the database fills in the others.
unfoldable pub new_row : Key → Time → RefreshToken → TokenRow
new_row id now token = record {
  id = id;
  user_id = token.user_id;
  token_hash = token.token_hash;
  family_id = token.family_id;
  expires_at = token.expires_at;
  used_at = none;
  revoked_at = none;
  created_at = now;
}

abbrev pub has_hash : Key → TokenRow → Bool
has_hash hash row = row.token_hash == hash

-- The column tokenHash is unique: a second row with the hash is refused (P2002).
unfoldable pub save : Time → RefreshToken → Action AuthState RefreshToken
unfolding to_entity new_row
save now token = do
  taken ← gets (λ s. is_some (find_first (has_hash token.token_hash) s.tokens))
  raise_if taken unique_violation
  row ← gets (λ s. new_row s.next_id now token)
  modify (λ s. record s { tokens = s.tokens ++ row ∷ []; next_id = s.next_id + 1 })
  pure (to_entity row)

unfoldable pub find_by_hash : Key → AuthState → Option RefreshToken
unfolding to_entity
find_by_hash hash s = Option.map to_entity (find_first (has_hash hash) s.tokens)

abbrev pub is_unused : Key → TokenRow → Bool
is_unused id row = row.id == id && is_none row.used_at

abbrev pub set_used : Time → TokenRow → TokenRow
set_used now row = record row { used_at = some now }

unfoldable pub mark_used : Key → Time → Action AuthState ℕ
mark_used id used_at s = (
  ok (count_where (is_unused id) s.tokens),
  record s { tokens = update_many (is_unused id) (set_used used_at) s.tokens },
)

abbrev pub in_family : Key → TokenRow → Bool
in_family family_id row = row.family_id == family_id && is_none row.revoked_at

abbrev pub set_revoked : Time → TokenRow → TokenRow
set_revoked now row = record row { revoked_at = some now }

unfoldable pub revoke_family : Key → Time → Action AuthState ℕ
revoke_family family_id revoked_at s = (
  ok (count_where (in_family family_id) s.tokens),
  record s { tokens = update_many (in_family family_id) (set_revoked revoked_at) s.tokens },
)

abbrev pub of_user : Key → TokenRow → Bool
of_user user_id row = row.user_id == user_id && is_none row.revoked_at

unfoldable pub revoke_all_by_user : Key → Time → Action AuthState ℕ
revoke_all_by_user user_id revoked_at s = (
  ok (count_where (of_user user_id) s.tokens),
  record s { tokens = update_many (of_user user_id) (set_revoked revoked_at) s.tokens },
)

pub record SessionSummary : Type 0 where
  pub family_id : Key
  pub created_at : Time

abbrev pub is_active : Key → Time → TokenRow → Bool
is_active user_id now row =
    row.user_id == user_id
    && is_none row.used_at
    && is_none row.revoked_at
    && ltb now row.expires_at

abbrev pub contains : Key → List Key → Bool
contains k [] = false
contains k (x ∷ xs) = k == x || contains k xs

abbrev pub in_families : Key → List Key → TokenRow → Bool
in_families user_id families row = row.user_id == user_id && contains row.family_id families

-- `groupBy` with `_min`: one group for each familyId, with the least createdAt of its rows.
unfoldable pub add_to_groups : TokenRow → List SessionSummary → List SessionSummary
add_to_groups row [] = record { family_id = row.family_id; created_at = row.created_at } ∷ []
add_to_groups row (g ∷ gs) =
    if g.family_id == row.family_id
    then record g { created_at = min g.created_at row.created_at } ∷ gs
    else g ∷ add_to_groups row gs

unfoldable pub group_by_family : List TokenRow → List SessionSummary
unfolding add_to_groups
group_by_family [] = []
group_by_family (row ∷ rows) = add_to_groups row (group_by_family rows)

-- `orderBy: { _min: { createdAt: 'desc' } }`
unfoldable pub insert_desc : SessionSummary → List SessionSummary → List SessionSummary
insert_desc g [] = g ∷ []
insert_desc g (h ∷ gs) = if leb h.created_at g.created_at then g ∷ h ∷ gs else h ∷ insert_desc g gs

unfoldable pub sort_desc : List SessionSummary → List SessionSummary
unfolding insert_desc
sort_desc [] = []
sort_desc (g ∷ gs) = insert_desc g (sort_desc gs)

abbrev pub family_of : TokenRow → Key
family_of row = row.family_id

unfoldable pub find_active_families : Key → Time → AuthState → List SessionSummary
unfolding group_by_family sort_desc
find_active_families user_id now s =
    let families = map family_of (find_many (is_active user_id now) s.tokens) in
    sort_desc (group_by_family (find_many (in_families user_id families) s.tokens))

unfoldable pub find_family_owner : Key → AuthState → Option Key
find_family_owner family_id s =
    Option.map (λ row. row.user_id) (find_first (λ row. row.family_id == family_id) s.tokens)
