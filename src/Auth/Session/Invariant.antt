-- ===== src/Auth/Session/Invariant.antt =====
-- The invariant of the table RefreshToken between any two database operations: ids and hashes are
-- unique, a family has one user and at most one unused token.
use estate_server.Base.{
  ◌+◌, ◌≤◌, ◌<◌, ◌≡◌, Key, none, Bool, true, List, [], ◌∷◌, ◌++◌, ◌&&◌, ◌==◌, is_none,
  if◌then◌else◌, inl, inr, Bool-cases, arith, All, All-map, All-append, find_first, count_where,
  update_many, count_where-append, count_where-update_many_le, All-update_many,
  find_first-none-count, count-zero_of_All,
}
use estate_server.Auth.State.{TokenRow, AuthState}
use estate_server.Auth.Tokens.{has_hash}

abbrev pub has_id : Key → TokenRow → Bool
has_id id row = row.id == id

-- A token that no rotation has consumed.
abbrev pub unused_in : Key → TokenRow → Bool
unused_in family_id row = row.family_id == family_id && is_none row.used_at

-- `owner` names the user of each family.
pub record IsValid (owner : Key → Key) (s : AuthState) : Type 0 where
  pub ids : All (λ row. row.id < s.next_id) s.tokens
  pub families : All (λ row. row.family_id < s.next_uuid) s.tokens
  pub owned : All (λ row. row.user_id ≡ owner row.family_id) s.tokens
  pub one_id : (id : Key) → count_where (has_id id) s.tokens ≤ 1
  pub one_hash : (hash : Key) → count_where (has_hash hash) s.tokens ≤ 1
  pub one_unused : (family_id : Key) → count_where (unused_in family_id) s.tokens ≤ 1

-- An update may consume and revoke; it keeps the identity of the row.
pub record Keeps (row row' : TokenRow) : Type 0 where
  pub id : row'.id ≡ row.id
  pub hash : row'.token_hash ≡ row.token_hash
  pub family : row'.family_id ≡ row.family_id
  pub user : row'.user_id ≡ row.user_id
  pub unused : is_none row'.used_at ≡ true → is_none row.used_at ≡ true

module _ (owner : Key → Key) (p : TokenRow → Bool) (f : TokenRow → TokenRow)
    (keeps : (row : TokenRow) → Keeps row (f row)) where
  pub update_many-IsValid :
      (s : AuthState)
      → IsValid owner s
      → IsValid owner (record s { tokens = update_many p f s.tokens })
  update_many-IsValid s v = record {
    ids = All-update_many _ _ p f s.tokens (λ row h. ground (arith, keeps row)) v.ids;
    families = All-update_many _ _ p f s.tokens (λ row h. ground (arith, keeps row)) v.families;
    owned = All-update_many _ _ p f s.tokens (λ row h. ground (arith, keeps row)) v.owned;
    one_id = λ id.
        let h =
          count_where-update_many_le (has_id id) p f s.tokens
            (λ row e. ground (arith, keeps row)) in
        omega (arith, v.one_id id);
    one_hash = λ hash.
        let h =
          count_where-update_many_le (has_hash hash) p f s.tokens
            (λ row e. ground (arith, keeps row)) in
        omega (arith, v.one_hash hash);
    one_unused = λ family_id.
        let h =
          count_where-update_many_le (unused_in family_id) p f s.tokens
            (λ row e. ground (arith, keeps row)) in
        omega (arith, v.one_unused family_id);
  }

-- The state after the insertion of a row under the next id.
abbrev pub inserted : TokenRow → AuthState → AuthState
inserted row s = record s { tokens = s.tokens ++ row ∷ []; next_id = s.next_id + 1 }

count-append_one :
    (q : TokenRow → Bool) (row : TokenRow) (rows : List TokenRow)
    → count_where q (rows ++ row ∷ []) ≡ count_where q rows + (if q row then 1 else 0)
unfolding count_where
count-append_one q row rows = ground (arith, count_where-append q rows (row ∷ []))

module _ (owner : Key → Key) (s : AuthState) (row : TokenRow) (v : IsValid owner s)
    (id : row.id ≡ s.next_id) (family : row.family_id < s.next_uuid)
    (user : row.user_id ≡ owner row.family_id)
    (hash : find_first (has_hash row.token_hash) s.tokens ≡ none)
    (last : count_where (unused_in row.family_id) s.tokens ≡ 0) where
  -- A row joins its family when no unused token is left in it.
  pub inserted-IsValid : IsValid owner (inserted row s)
  inserted-IsValid = record {
    ids =
        All-append _ s.tokens (row ∷ []) (All-map _ _ s.tokens (λ r h. omega arith) v.ids)
          (omega arith, tt);
    families = All-append _ s.tokens (row ∷ []) v.families (family, tt);
    owned = All-append _ s.tokens (row ∷ []) v.owned (user, tt);
    one_id = λ k.
        let added = count-append_one (has_id k) row s.tokens in
        elim (Bool-cases (row.id == k)) [
          | inl same ↦
              let old = count-zero_of_All _ (has_id k) s.tokens (λ r h. ground arith) v.ids in
              ground arith
          | inr other ↦ ground (arith, v.one_id k)
        ];
    one_hash = λ k.
        let added = count-append_one (has_hash k) row s.tokens in
        elim (Bool-cases (row.token_hash == k)) [
          | inl same ↦
              let e : row.token_hash ≡ k = ground arith in
              let old : count_where (has_hash k) s.tokens ≡ 0 =
                rw (← e) (find_first-none-count (has_hash row.token_hash) s.tokens hash) in
              ground arith
          | inr other ↦ ground (arith, v.one_hash k)
        ];
    one_unused = λ k.
        let added = count-append_one (unused_in k) row s.tokens in
        elim (Bool-cases (row.family_id == k)) [
          | inl same ↦
              let e : row.family_id ≡ k = ground arith in
              let old : count_where (unused_in k) s.tokens ≡ 0 = rw (← e) last in ground arith
          | inr other ↦ ground (arith, v.one_unused k)
        ];
  }

-- Of a new family the owner is the user who logs in.
abbrev pub with_owner : (Key → Key) → Key → Key → Key → Key
with_owner owner family_id user_id k = if k == family_id then user_id else owner k

-- Drawing a family id keeps the invariant, and no row is of that family yet.
pub fresh_family-IsValid :
    (owner : Key → Key) (s : AuthState) (user_id : Key)
    → IsValid owner s
    → IsValid (with_owner owner s.next_uuid user_id) (record s { next_uuid = s.next_uuid + 1 })
fresh_family-IsValid owner s user_id v = record {
  ids = v.ids;
  families = All-map _ _ s.tokens (λ r h. omega arith) v.families;
  owned = go s.tokens v.families v.owned;
  one_id = v.one_id;
  one_hash = v.one_hash;
  one_unused = v.one_unused;
}
  where
    go :
        (rows : List TokenRow)
        → All (λ r. r.family_id < s.next_uuid) rows
        → All (λ r. r.user_id ≡ owner r.family_id) rows
        → All (λ r. r.user_id ≡ with_owner owner s.next_uuid user_id r.family_id) rows
    go [] h k = tt
    go (r ∷ rows) (h, hs) (k, ks) = (ground arith, go rows hs ks)

pub fresh_family_empty :
    (owner : Key → Key) (s : AuthState)
    → IsValid owner s
    → count_where (unused_in s.next_uuid) s.tokens ≡ 0
fresh_family_empty owner s v =
    count-zero_of_All _ (unused_in s.next_uuid) s.tokens (λ r h. ground arith) v.families
