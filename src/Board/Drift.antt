-- ===== src/Board/Drift.antt =====
-- What a like leaves behind where Redis does not take the increment: the counter of
-- src/board/infrastructure/redis-like-counter.ts is one short, until it expires.
use estate_server.Base.{
  All, All-append, All-delete_many, All-map, All-update_many, Bool-cases, Key, List, Option-cases,
  Result, Time, arith, delete_many-All, find_first, inl, inr, is_some, none, ok, refl, ℕ, ◌+◌, ◌≡◌,
  ◌≤◌, [], ◌∷◌, ◌++◌, ◌⊎◌, delete_many, false, true, Bool,
}
use estate_server.Board.Store.{
  BoardState, LikeCount, add_one, backfill, count_by_post, count_is, counter_is, get_count,
  increment, like_ttl,
}
use estate_server.Board.Likes.{read_one}
use estate_server.Board.Counting.{
  IsCoherent, IsExact, after_like, get_count-exact, more_likes, new_like,
}

-- Every counter expires within the time that `backfill` gives it.
abbrev pub IsExpiring : Time → BoardState → Type 0
IsExpiring now s = All (λ (c : LikeCount). c.expires_at ≤ now + like_ttl) s.counters

-- The answer is one less than the number of the rows.
abbrev pub IsBehind : Key → Result ℕ × BoardState → Type 0
IsBehind post_id r = (n : ℕ) × (r.0 ≡ ok n) × (n + 1 ≡ count_by_post post_id r.1)

none_alive :
    (later post_id : Key) (counters : List LikeCount)
    → All (λ (c : LikeCount). c.expires_at ≤ later) counters
    → find_first (counter_is post_id later) counters ≡ none
unfolding find_first
none_alive later post_id [] h = refl
none_alive later post_id (c ∷ counters) (old, h) =
    ground (arith, old, none_alive later post_id counters h)

module _ (now : Time) (post_id : Key) where
  increment-IsExpiring :
      (s : BoardState) → IsExpiring now s → IsExpiring now (increment now post_id s)
  unfolding increment
  increment-IsExpiring s h =
      All-update_many _ _ (counter_is post_id now) add_one s.counters
        (λ c within. elim (Bool-cases (counter_is post_id now c)) [
          | inl hit ↦ rw hit within
          | inr miss ↦ rw miss within
        ])
        h

  read_one-IsExpiring :
      (s : BoardState) → IsExpiring now s → IsExpiring now (read_one now post_id s).1
  unfolding read_one backfill
  read_one-IsExpiring s h = elim (Option-cases (get_count now post_id s)) [
    | inr (n, found) ↦ rw (read_one, found) h
    | inl missing ↦ elim (Bool-cases (is_some (find_first (counter_is post_id now) s.counters))) [
      | inl there ↦ rw (read_one, missing, there) h
      | inr gone ↦
          rw (read_one, missing, gone)
            (All-append _ _ _ (All-delete_many _ (count_is post_id) s.counters h) (omega arith, tt))
    ]
  ]

  -- Once the counters have expired, the reader counts the rows.
  read_one-later :
      (later : Time) (s : BoardState)
      → IsExpiring now s
      → now + like_ttl ≤ later
      → (read_one later post_id s).0 ≡ ok (count_by_post post_id s)
  unfolding read_one get_count
  read_one-later later s h enough =
      let dead =
        none_alive later post_id s.counters
          (All-map _ _ s.counters (λ c within. omega (arith, within, enough)) h) in
      rw (read_one, get_count, dead) refl

  pub read_one-healed :
      (later : Time) (s : BoardState)
      → IsExpiring now s
      → now + like_ttl ≤ later
      → let s' = (read_one now post_id s).1 in
        (read_one later post_id s').0 ≡ ok (count_by_post post_id s')
  read_one-healed later s h =
      read_one-later later (read_one now post_id s).1 (read_one-IsExpiring s h)

-- A like that Redis does not hear of: the counter of its post that is alive is one short, and where
-- there is none the count is exact.
module _ (now : Time) (user_id post_id building_id : Key) (s : BoardState) where
  abbrev pub missed : BoardState
  missed = after_like false now user_id post_id building_id s

  others-IsExact :
      IsCoherent now s
      → All
          (IsExact now (s.likes ++ new_like now post_id user_id s ∷ []))
          (delete_many (count_is post_id) s.counters)
  others-IsExact h =
      All-map _ _ (delete_many (count_is post_id) s.counters)
        (λ c (exact, other) alive.
          let same = more_likes now post_id user_id s c.post_id in
          ground (arith, exact alive, same))
        (delete_many-All _ (count_is post_id) s.counters h)

  missed-IsCoherent :
      IsCoherent now s
      → find_first (counter_is post_id now) s.counters ≡ none
      → IsCoherent now (backfill now post_id (count_by_post post_id missed) missed)
  unfolding backfill count_by_post
  missed-IsCoherent h missing =
      let gone : is_some (find_first (counter_is post_id now) s.counters) ≡ false =
        rw missing refl in
      rw gone (All-append _ _ _ (others-IsExact h) ((λ alive. refl), tt))

  pub missed_like :
      IsCoherent now s
      → ((read_one now post_id missed).0
            ≡ ok (count_by_post post_id (read_one now post_id missed).1)
          × IsCoherent now (read_one now post_id missed).1)
        ⊎ IsBehind post_id (read_one now post_id missed)
  unfolding read_one get_count count_by_post backfill
  missed_like h = elim (Option-cases (find_first (counter_is post_id now) s.counters)) [
    | inr (c, found) ↦
        let exact : c.value ≡ count_by_post post_id s =
          get_count-exact now post_id s h (rw (get_count, found) refl) in
        let more = more_likes now post_id user_id s post_id in
        rw (read_one, get_count, found) (inr (c.value, refl, ground (arith, exact, more)))
    | inl missing ↦ rw (read_one, get_count, missing) (inl (refl, missed-IsCoherent h missing))
  ]

  pub after_like-IsExpiring :
      (reachable : Bool)
      → IsExpiring now s
      → IsExpiring now (after_like reachable now user_id post_id building_id s)
  after_like-IsExpiring true h = increment-IsExpiring now post_id missed h
  after_like-IsExpiring false h = h
