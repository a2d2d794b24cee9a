-- ===== src/Auth/Session/Race.antt =====
-- Requests that read the same refresh token before any of them consumes it, as sequences of commits:
-- the transaction of src/auth/application/refresh-tokens.use-case.ts.
use estate_server.Base.{
  Bool, Bool-cases, Key, List, Option-cases, Result, Time, [], arith, count-zero_of_All,
  count_where, count_where-append, count_where-update_many, count_where-update_many_le,
  count_where_mono, err, false, find_first, get_or, if◌then◌else◌, inl, inr, no_key, none, ok, refl,
  trivial-All, true, update_many, ℕ, ◌+◌, ◌<◌, ◌==◌, ◌∙◌, ◌∷◌, ◌≡◌, ◌≢◌, ◌≤◌,
}
use estate_server.Auth.State.{RefreshToken, TokenRow, AuthState}
use estate_server.Auth.Tokens.{has_hash, is_unused, set_used, set_revoked}
use estate_server.Auth.User.{User}
use estate_server.Auth.Session.{AuthEnv, TokenPair, SessionUser, session_user, issue, draw}
use estate_server.Auth.Session.Invariant.{IsValid, has_id, inserted}
use estate_server.Auth.Session.Rotation.{rotation_lost, rotation_won, rotation_taken, rotation}
use estate_server.Auth.Session.Issuing.{
  marked, issued_row, next_hash, issue_new, issue_in_family, issue_taken,
}

-- A commit to the database. `rotate` is the transaction of a refresh request whose token and user
-- were read at any earlier time; `revoke` stands for the update that a logout, the end of a
-- session or a replayed token makes, on the rows that `p` selects; `login` issues a new session.
pub data Commit : Type 0 where
  rotate : Time → Time → RefreshToken → User → Commit
  revoke : (TokenRow → Bool) → Time → Commit
  login : Time → SessionUser → Commit

module _ (env : AuthEnv) (id : Key) where
  -- Whether a rotation of the row `id` succeeded, and the state after the commit.
  abbrev pub wins : RefreshToken → Result TokenPair → ℕ
  wins found (ok pair) = if get_or found.id no_key == id then 1 else 0
  wins found (err e) = 0

  pub commit : Commit → AuthState → ℕ × AuthState
  commit (rotate now later found user) s =
      let (r, s') = rotation env now later found user s in (wins found r, s')
  commit (revoke p now) s = (0, record s { tokens = update_many p (set_revoked now) s.tokens })
  commit (login now input) s = (0, (issue env now input none s).1)

  pub run : List Commit → AuthState → ℕ × AuthState
  unfolding commit
  run [] s = (0, s)
  run (c ∷ cs) s = let (n, s') = commit c s in let (m, s'') = run cs s' in (n + m, s'')

  abbrev unused : AuthState → ℕ
  unused s = count_where (is_unused id) s.tokens

  -- The row exists already: new rows get other ids.
  abbrev IsOld : AuthState → Type 0
  IsOld s = id < s.next_id

  unused-inserted :
      (row : TokenRow) (s : AuthState) → row.id ≢ id → unused (inserted row s) ≡ unused s
  unfolding count_where
  unused-inserted row s ne =
      let e = count_where-append (is_unused id) s.tokens (row ∷ []) in ground arith

  unused-update_le :
      (p : TokenRow → Bool) (f : TokenRow → TokenRow) (rows : List TokenRow)
      → ((row : TokenRow) → is_unused id (f row) ≡ true → is_unused id row ≡ true)
      → count_where (is_unused id) (update_many p f rows) ≤ count_where (is_unused id) rows
  unused-update_le p f rows h = count_where-update_many_le (is_unused id) p f rows h

  unused-marked_self : (now : Time) (s : AuthState) → unused (marked id now s) ≡ 0
  unused-marked_self now s =
      count_where-update_many (is_unused id) (λ _. false) (is_unused id) (set_used now) s.tokens
        (λ row. ground arith)
      ∙ count-zero_of_All (λ _. Unit {0}) (λ _. false) s.tokens (λ row h. refl)
          (trivial-All s.tokens)

  rotate-wins :
      (now later : Time) (found : RefreshToken) (user : User) (s : AuthState)
      → IsOld s
      → (wins found (rotation env now later found user s).0
            + unused (rotation env now later found user s).1
          ≤ unused s)
        × IsOld (rotation env now later found user s).1
  rotate-wins now later found user s old =
      let k = get_or found.id no_key in
      elim (Bool-cases (count_where (is_unused k) s.tokens == 0)) [
        | inl lost ↦ rw (rotation_lost env now later found user s (ground arith)) (omega arith, old)
        | inr won ↦
            let hit : count_where (is_unused k) s.tokens ≢ 0 = ground arith in
            elim (Option-cases (find_first (has_hash (next_hash env s)) s.tokens)) [
              | inr (row, taken) ↦
                  rw (rotation_taken env now later found user s hit taken) (omega arith, old)
              | inl free ↦
                  let row = issued_row env later (session_user user) found.family_id s in
                  let added = unused-inserted row (draw (marked k now s)) (ground arith) in
                  let fewer =
                    unused-update_le (is_unused k) (set_used now) s.tokens (λ r h. ground arith) in
                  rw (rotation_won env now later found user s hit free)
                    (elim (Bool-cases (k == id)) [
                      | inr other ↦ rw other (omega arith, omega arith)
                      | inl same ↦
                          let e : k ≡ id = ground arith in
                          let none_left = unused-marked_self now s in
                          let none_here : unused (marked k now s) ≡ 0 = rw e none_left in
                          let some_there : unused s ≢ 0 = rw (← e) hit in
                          rw same (omega arith, omega arith)
                    ])
            ]
      ]

  login-wins :
      (now : Time) (input : SessionUser) (s : AuthState)
      → IsOld s
      → (unused (issue env now input none s).1 ≤ unused s) × IsOld (issue env now input none s).1
  login-wins now input s old =
      let t : AuthState = record s { next_uuid = s.next_uuid + 1 } in
      rw (issue_new env now input s)
        (elim (Option-cases (find_first (has_hash (next_hash env s)) s.tokens)) [
          | inr (row, taken) ↦ rw (issue_taken env now input s.next_uuid t taken) (omega arith, old)
          | inl free ↦
              let row = issued_row env now input s.next_uuid t in
              let added = unused-inserted row (draw t) (ground arith) in
              rw (issue_in_family env now input s.next_uuid t free) (omega arith, omega arith)
        ])

  commit-wins :
      (c : Commit) (s : AuthState)
      → IsOld s
      → ((commit c s).0 + unused (commit c s).1 ≤ unused s) × IsOld (commit c s).1
  unfolding commit
  commit-wins (rotate now later found user) s old = rotate-wins now later found user s old
  commit-wins (revoke p now) s old =
      let fewer = unused-update_le p (set_revoked now) s.tokens (λ r h. h) in (omega arith, old)
  commit-wins (login now input) s old =
      let (fewer, old') = login-wins now input s old in (omega arith, old')

  run-wins :
      (cs : List Commit) (s : AuthState) → IsOld s → (run cs s).0 + unused (run cs s).1 ≤ unused s
  unfolding run
  run-wins [] s old = omega arith
  run-wins (c ∷ cs) s old =
      let (step, old') = commit-wins c s old in omega (arith, run-wins cs (commit c s).1 old')

  -- From a valid token table with a row `id`, in every sequence of commits, which are
  -- rotations by requests that read any token and user at any earlier time, revocations of
  -- any rows, and logins, at most one rotation of the row `id` answers with a new pair.
  pub run_one_winner :
      (owner : Key → Key) (cs : List Commit) (s : AuthState)
      → IsValid owner s
      → id < s.next_id
      → (run cs s).0 ≤ 1
  run_one_winner owner cs s v old =
      let one = count_where_mono (is_unused id) (has_id id) s.tokens (λ row h. ground arith) in
      omega (arith, run-wins cs s old, v.one_id id)
