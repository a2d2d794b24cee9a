-- ===== src/Auth/Users.antt =====
-- src/auth/infrastructure/prisma-user.repository.ts and prisma-account.repository.ts.
use estate_server.Base.{
  Action, Bool, Key, Option, Option-cases, [], arith, email_in_use, find_first, find_first_sound,
  get_or, gets, inl, inr, is_none, is_some, modify, no_key, none, or_raise, pure, raise_if, some,
  unique_violation, update_many, user_not_found, ◌&&◌, ◌++◌, ◌+◌, ◌==◌, ◌>>=◌, ◌>>◌, ◌∷◌, ◌≡◌,
}
use estate_server.Auth.State.{UserRow, AccountRow, AuthState}
use estate_server.Auth.User.{User}
use mathlib.Core.Option

unfoldable pub reconstitute : UserRow → User
reconstitute row = record {
  id = some row.id;
  email = row.email;
  name = row.name;
  password_hash = row.password_hash;
  role = row.role;
}

abbrev pub has_email : Key → UserRow → Bool
has_email email row = row.email == email && is_none row.deleted_at

abbrev pub has_id : Key → UserRow → Bool
has_id id row = row.id == id && is_none row.deleted_at

unfoldable pub find_by_email : Key → AuthState → Option User
unfolding reconstitute
find_by_email email s = Option.map reconstitute (find_first (has_email email) s.users)

unfoldable pub find_by_id : Key → AuthState → Option User
unfolding reconstitute
find_by_id id s = Option.map reconstitute (find_first (has_id id) s.users)

abbrev pub id_is : Key → UserRow → Bool
id_is id row = row.id == id

abbrev pub set_profile : User → UserRow → UserRow
set_profile u row = record row { name = u.name; password_hash = u.password_hash }

-- `where: { id }` also finds a row that is soft deleted; no row at all is P2025.
unfoldable pub update : User → Action AuthState User
unfolding reconstitute
update u = do
  found ← gets (λ s. find_first (id_is (get_or u.id no_key)) s.users)
  row ← or_raise found user_not_found
  modify
      (λ s. record s { users = update_many (id_is (get_or u.id no_key)) (set_profile u) s.users })
  pure (reconstitute (set_profile u row))

abbrev pub email_is : Key → UserRow → Bool
email_is email row = row.email == email

unfoldable pub new_user : Key → User → UserRow
new_user id u = record {
  id = id;
  email = u.email;
  name = u.name;
  password_hash = u.password_hash;
  role = u.role;
  deleted_at = none;
}

-- The column email is unique, over the soft deleted rows too; P2002 becomes EMAIL_IN_USE.
unfoldable pub save : User → Action AuthState User
unfolding reconstitute new_user
save u = do
  taken ← gets (λ s. is_some (find_first (email_is u.email) s.users))
  raise_if taken email_in_use
  row ← gets (λ s. new_user s.next_id u)
  modify (λ s. record s { users = s.users ++ row ∷ []; next_id = s.next_id + 1 })
  pure (reconstitute row)

abbrev pub account_is : Key → Key → AccountRow → Bool
account_is provider provider_id row = row.provider == provider && row.provider_id == provider_id

abbrev pub new_account : Key → Key → Key → Key → AccountRow
new_account id user_id provider provider_id = record {
  id = id;
  user_id = user_id;
  provider = provider;
  provider_id = provider_id;
}

-- `AccountRepository.save`: provider and provider id are unique together (P2002).
unfoldable pub save_account : Key → Key → Key → Action AuthState AccountRow
save_account user_id provider provider_id = do
  linked ← gets (λ s. is_some (find_first (account_is provider provider_id) s.accounts))
  raise_if linked unique_violation
  row ← gets (λ s. new_account s.next_id user_id provider provider_id)
  modify (λ s. record s { accounts = s.accounts ++ row ∷ []; next_id = s.next_id + 1 })
  pure row

-- One nested write: P2002 of either table rolls both back, and goes on to the caller.
unfoldable pub save_with_account : User → Key → Key → Action AuthState User
unfolding reconstitute new_user
save_with_account u provider provider_id = do
  email_taken ← gets (λ s. is_some (find_first (email_is u.email) s.users))
  raise_if email_taken unique_violation
  linked ← gets (λ s. is_some (find_first (account_is provider provider_id) s.accounts))
  raise_if linked unique_violation
  row ← gets (λ s. new_user s.next_id u)
  modify (λ s. record s {
    users = s.users ++ row ∷ [];
    accounts = s.accounts ++ new_account (s.next_id + 1) row.id provider provider_id ∷ [];
    next_id = s.next_id + 2;
  })
  pure (reconstitute row)

unfoldable pub find_by_provider : Key → Key → AuthState → Option AccountRow
find_by_provider provider provider_id s = find_first (account_is provider provider_id) s.accounts

-- What `find_by_id` returns carries the id that was asked for.
pub find_by_id-id :
    (id : Key) (s : AuthState) {u : User} → find_by_id id s ≡ some u → u.id ≡ some id
unfolding find_by_id
find_by_id-id id s {u} e = elim (Option-cases (find_first (has_id id) s.users)) [
  | inl none_found ↦ ground arith
  | inr (row, found) ↦
      let h = find_first_sound (has_id id) s.users found in
      let same : u ≡ reconstitute row = ground arith in rw same (ground (arith, h))
]
