-- ===== src/Auth/Session/Rotation.antt =====
-- The transaction of a refresh, `rotate`, against the invariant of the token table.
use estate_server.Base.{
  Bool-cases, Key, Option-cases, Result, Time, ap, arith, count_where, err, false, find_first,
  get_or, inl, inr, no_key, none, ok, refl, refresh_token_reused, settle, some, transaction,
  unique_violation, updated, ◌<◌, ◌==◌, ◌∙◌, ◌≡◌, ◌≢◌,
}
use estate_server.Auth.State.{RefreshToken, TokenRow, AuthState}
use estate_server.Auth.Tokens.{has_hash, is_unused, set_used, mark_used}
use estate_server.Auth.User.{User}
use estate_server.Auth.Session.{rollback, AuthEnv, TokenPair, session_user, issue, rotate, draw}
use estate_server.Auth.Session.Invariant.{IsValid, inserted, inserted-IsValid}
use estate_server.Auth.Session.Issuing.{
  Reads, marked, marked-IsValid, marked_last, draw-IsValid, issued_row, issued_pair, next_hash,
  issue_in_family, issue_taken, find_first-marked,
}

module _ (env : AuthEnv) (now later : Time) (found : RefreshToken) (user : User)
    (s : AuthState) where
  -- The state that a rotation leaves behind when it succeeds.
  abbrev pub rotated : AuthState
  rotated =
      inserted (issued_row env later (session_user user) found.family_id s)
        (draw (marked (get_or found.id no_key) now s))

  abbrev pub rotation : Result TokenPair × AuthState
  rotation = transaction rollback (rotate env now later found user) s

  rotate_lost :
      count_where (is_unused (get_or found.id no_key)) s.tokens ≡ 0
      → rotate env now later found user s
        ≡ (err refresh_token_reused, marked (get_or found.id no_key) now s)
  unfolding rotate mark_used
  rotate_lost lost = rw lost

  rotate_hit :
      count_where (is_unused (get_or found.id no_key)) s.tokens ≢ 0
      → rotate env now later found user s
        ≡ issue env later
            (session_user user)
            (some found.family_id)
            (marked (get_or found.id no_key) now s)
  unfolding rotate mark_used
  rotate_hit hit =
      let won : (count_where (is_unused (get_or found.id no_key)) s.tokens == 0) ≡ false =
        ground arith in
      rw won

  -- The loser of a race is refused, and its transaction leaves no trace.
  pub rotation_lost :
      count_where (is_unused (get_or found.id no_key)) s.tokens ≡ 0
      → rotation ≡ (err refresh_token_reused, s)
  rotation_lost lost = ap (settle rollback s) (rotate_lost lost)

  pub hash_free-marked :
      find_first (has_hash (next_hash env s)) s.tokens ≡ none
      → find_first (has_hash (next_hash env s)) (marked (get_or found.id no_key) now s).tokens
        ≡ none
  hash_free-marked free =
      rw (find_first-marked (next_hash env s) (get_or found.id no_key) now s, free)

  pub rotation_won :
      count_where (is_unused (get_or found.id no_key)) s.tokens ≢ 0
      → find_first (has_hash (next_hash env s)) s.tokens ≡ none
      → rotation ≡ (ok (issued_pair env (session_user user) found.family_id s), rotated)
  rotation_won hit free =
      let id = get_or found.id no_key in
      ap (settle rollback s) (
        rotate_hit hit
        ∙ issue_in_family env later (session_user user) found.family_id (marked id now s)
            (hash_free-marked free))

  pub rotation_taken :
      {row : TokenRow}
      → count_where (is_unused (get_or found.id no_key)) s.tokens ≢ 0
      → find_first (has_hash (next_hash env s)) s.tokens ≡ some row
      → rotation ≡ (err unique_violation, draw s)
  rotation_taken {row} hit taken =
      let id = get_or found.id no_key in
      let taken' : find_first (has_hash (next_hash env s)) (marked id now s).tokens
          ≡ some (updated (is_unused id) (set_used now) row) =
        rw (find_first-marked (next_hash env s) id now s, taken) in
      ap (settle rollback s) (
        rotate_hit hit
        ∙ issue_taken env later (session_user user) found.family_id (marked id now s) taken')

  -- A rotation on a stale read keeps the invariant, whether it wins or loses the race.
  pub rotation-IsValid :
      (owner : Key → Key)
      → IsValid owner s
      → Reads found s
      → found.family_id < s.next_uuid
      → (session_user user).user_id ≡ owner found.family_id
      → IsValid owner rotation.1
  rotation-IsValid owner v reads old same =
      let id = get_or found.id no_key in
      elim (Bool-cases (count_where (is_unused id) s.tokens == 0)) [
        | inl lost ↦ rw (rotation_lost (ground arith)) v
        | inr won ↦
            let hit : count_where (is_unused id) s.tokens ≢ 0 = ground arith in
            elim (Option-cases (find_first (has_hash (next_hash env s)) s.tokens)) [
              | inl free ↦ rw (rotation_won hit free) (
                  inserted-IsValid owner (draw (marked id now s))
                    (issued_row env later (session_user user) found.family_id s)
                    (draw-IsValid owner (marked id now s) (marked-IsValid owner id now s v)) refl
                    old same (hash_free-marked free) (marked_last owner found now s v reads hit))
              | inr (row, taken) ↦ rw (rotation_taken hit taken) (draw-IsValid owner s v)
            ]
      ]
