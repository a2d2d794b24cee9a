-- ===== src/Auth/Session/Tests.antt =====
-- A user with one session, on which the theorems are tried out.
use estate_server.Base.{
  Bool, [], arith, count_where, err, find_first, none, not_session_owner, ok, refl,
  refresh_token_reused, some, true, update_many, ◌+◌, ◌==◌, ◌∷◌, ◌≡◌, ◌≢◌, ◌≤◌, ◌⊎◌,
}
use mathlib.Core.Option
use estate_server.Auth.State.{is_used, create, TokenRow, UserRow, AuthState, tenant, is_usable}
use estate_server.Auth.Tokens.{
  mark_used, revoke_family, save, new_row, has_hash, to_entity, find_by_hash, find_family_owner,
}
use estate_server.Auth.User.{User}
use estate_server.Auth.Users.{find_by_id, reconstitute}
use estate_server.Auth.Session.{
  AuthEnv, issue, rotate, refresh_found, session_user, refresh, revoke_session, change_password_of,
}
use estate_server.Auth.Session.Invariant.{IsValid, has_id, unused_in}
use estate_server.Auth.Session.Issuing.{issued_pair, issued_row, next_hash}
use estate_server.Auth.Session.Replay.{IsDead, session_of, refresh_rotates, refresh_replay_cuts_off}
use estate_server.Auth.Session.Revocation.{
  IsLoggedOut, revoke_session_authorised, change_password_atomic,
}
use estate_server.Auth.Session.Race
use estate_server.Auth.Session.Race.{login, run, run_one_winner}

abbrev env : AuthEnv
env = record {
  random_token = λ n. n + 100;
  sha256 = λ k. k + 1000;
  sign = λ p. p.sub + 5000;
  compare = λ password hash. password + 7000 == hash;
  hash_password = λ password. password + 7000;
  ttl_days = none;
}

abbrev alice : UserRow
alice = record {
  id = 1;
  email = 11;
  name = 12;
  password_hash = some 7042;
  role = tenant;
  deleted_at = none;
}

abbrev token_row : TokenRow
token_row = record {
  id = 5;
  user_id = 1;
  token_hash = 1099;
  family_id = 3;
  expires_at = 1000000;
  used_at = none;
  revoked_at = none;
  created_at = 0;
}

abbrev signed_in : AuthState
signed_in = record {
  users = alice ∷ [];
  accounts = [];
  tokens = token_row ∷ [];
  next_id = 6;
  next_uuid = 4;
  draws = 0;
}

abbrev alice_user : User
alice_user = record { id = some 1; email = 11; name = 12; password_hash = some 7042; role = tenant }

one_row : (p : TokenRow → Bool) → count_where p (token_row ∷ []) ≤ 1
unfolding count_where
one_row p = ground arith

signed_in-IsValid : IsValid (λ family_id. 1) signed_in
signed_in-IsValid = record {
  ids = (omega arith, tt);
  families = (omega arith, tt);
  owned = (refl, tt);
  one_id = λ id. one_row (has_id id);
  one_hash = λ hash. one_row (has_hash hash);
  one_unused = λ family_id. one_row (unused_in family_id);
}

known : find_first (has_hash (env.sha256 99)) signed_in.tokens ≡ some token_row
unfolding find_first
known = refl

usable : is_usable (to_entity token_row) 10 ≡ true
unfolding is_usable to_entity
usable = refl

member : find_by_id token_row.user_id signed_in ≡ some alice_user
unfolding find_by_id find_first reconstitute
member = refl

free : find_first (has_hash (next_hash env signed_in)) signed_in.tokens ≡ none
unfolding find_first
free = refl

refresh_rotates_example :
    ((refresh env 10 11 99 signed_in).0
      ≡ ok (issued_pair env (session_user alice_user) 3 signed_in))
    × (Option.map is_used (find_by_hash 1099 (refresh env 10 11 99 signed_in).1) ≡ some true)
    × (find_by_hash (next_hash env signed_in) (refresh env 10 11 99 signed_in).1
        ≡ some (to_entity (issued_row env 11 (session_user alice_user) 3 signed_in)))
refresh_rotates_example = refresh_rotates env 10 11 99 signed_in known usable member free

session_of_successor :
    session_of env 100 (refresh env 20 21 99 (refresh env 10 11 99 signed_in).1).1 ≡ some 3
unfolding find_by_hash find_first to_entity refresh refresh_found issue rotate mark_used
    revoke_family save new_row is_used is_usable find_by_id reconstitute count_where update_many
    create
session_of_successor = refl

refresh_replay_cuts_off_example :
    ((refresh env 20 21 99 (refresh env 10 11 99 signed_in).1).0 ≡ err refresh_token_reused)
    × ((refresh env 30 31 100 (refresh env 20 21 99 (refresh env 10 11 99 signed_in).1).1).0
        ≢ ok (record { access_token = 5001; refresh_token = 101 }))
refresh_replay_cuts_off_example =
    refresh_replay_cuts_off env 10 11 99 signed_in known usable member free 20 21 100 30 31
      (record { access_token = 5001; refresh_token = 101 }) session_of_successor

run_one_winner_example :
    (run env 5
      (Race.rotate 10 11 (to_entity token_row) alice_user
        ∷ login 12 (session_user alice_user)
        ∷ Race.rotate 13 14 (to_entity token_row) alice_user
        ∷ [])
      signed_in).0
    ≤ 1
run_one_winner_example =
    run_one_winner env 5 (λ family_id. 1)
      (Race.rotate 10 11 (to_entity token_row) alice_user
        ∷ login 12 (session_user alice_user)
        ∷ Race.rotate 13 14 (to_entity token_row) alice_user
        ∷ [])
      signed_in signed_in-IsValid (omega arith)

revoke_session_authorised_example :
    ((find_family_owner 3 signed_in ≡ some 1)
        × ((revoke_session 10 1 3 signed_in).0 ≡ ok tt)
        × IsDead 3 (revoke_session 10 1 3 signed_in).1
      ⊎ (find_family_owner 3 signed_in ≢ some 1)
        × ((revoke_session 10 1 3 signed_in).0 ≡ err not_session_owner)
        × ((revoke_session 10 1 3 signed_in).1 ≡ signed_in))
    × (find_by_hash 1000 (revoke_session 10 1 3 signed_in).1 ≡ find_by_hash 1000 signed_in)
unfolding find_by_hash find_first to_entity
revoke_session_authorised_example =
    revoke_session_authorised 10 1 3 signed_in 1000 (λ e. ground arith)

change_password_atomic_example :
    (((change_password_of env 10 1 42 43 signed_in).0 ≡ ok tt)
      × IsLoggedOut 1 (change_password_of env 10 1 42 43 signed_in).1
      × (Option.map
            (λ u. u.password_hash)
            (find_by_id 1 (change_password_of env 10 1 42 43 signed_in).1)
          ≡ some (some 7043)))
    ⊎ (((change_password_of env 10 1 42 43 signed_in).0 ≢ ok tt)
        × ((change_password_of env 10 1 42 43 signed_in).1 ≡ signed_in))
change_password_atomic_example = change_password_atomic env 10 1 42 43 signed_in
