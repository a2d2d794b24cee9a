-- ===== src/Board/Counting.antt =====
-- The like counters of src/board/infrastructure/redis-like-counter.ts against the rows of PostLike.
use estate_server.Base.{
  All, All-append, All-delete_many, All-update_many, Bool, Bool-cases, Key, List, Option-cases,
  Time, [], ap, arith, count_where, count_where-append, count_where-delete_many,
  count_where-delete_many_other, delete_many, delete_many-none, false, find_first, find_first-All,
  find_first_sound, if◌then◌else◌, inl, inr, is_some, ltb, none, ok, refl, some, sym, true,
  update_many, ℕ, ◌++◌, ◌+◌, ◌==◌, ◌∙◌, ◌∷◌, ◌≡◌, ◌≤◌,
}
use estate_server.Property.Store.{is_member}
use estate_server.Board.Store.{
  BoardState, Post, PostLike, LikeCount, find_post, like, unlike, count_by_post, increment,
  decrement, get_count, backfill, add_one, sub_one, counter_is, count_is, like_is, like_of,
}
use estate_server.Board.Likes.{like_post, unlike_post, read_one, add_event, like_event}

abbrev pub IsExact : Time → List PostLike → LikeCount → Type 0
IsExact now rows c = ltb now c.expires_at ≡ true → c.value ≡ count_where (like_of c.post_id) rows

-- The counters that are alive at `now` agree with the rows.
abbrev pub IsCoherent : Time → BoardState → Type 0
IsCoherent now s = All (IsExact now s.likes) s.counters

-- The unique index on PostLike.
abbrev pub IsUnique : List PostLike → Type 0
IsUnique rows = (post_id user_id : Key) → count_where (like_is post_id user_id) rows ≤ 1

module _ (now : Time) (post_id : Key) (s : BoardState) (h : IsCoherent now s) where
  pub get_count-exact : {n : ℕ} → get_count now post_id s ≡ some n → n ≡ count_by_post post_id s
  unfolding get_count count_by_post
  get_count-exact {n} e = elim (Option-cases (find_first (counter_is post_id now) s.counters)) [
    | inl missing ↦ absurd (ground arith)
    | inr (c, found) ↦
        let exact = find_first-All _ (counter_is post_id now) s.counters h found in
        let here = find_first_sound (counter_is post_id now) s.counters found in
        ground (arith, exact)
  ]

  pub backfill-IsCoherent : IsCoherent now (backfill now post_id (count_by_post post_id s) s)
  unfolding backfill count_by_post
  backfill-IsCoherent =
      elim (Bool-cases (is_some (find_first (counter_is post_id now) s.counters))) [
        | inl there ↦ rw there h
        | inr gone ↦ rw gone (
            All-append _ _ _ (All-delete_many _ (count_is post_id) s.counters h)
              ((λ alive. refl), tt))
      ]

  -- What the reader of the counters answers is the count of the rows.
  pub read_one-exact :
      ((read_one now post_id s).0 ≡ ok (count_by_post post_id s))
      × IsCoherent now (read_one now post_id s).1
      × ((read_one now post_id s).1.likes ≡ s.likes)
      × ((read_one now post_id s).1.events ≡ s.events)
  unfolding read_one backfill get_count
  read_one-exact = elim (Option-cases (get_count now post_id s)) [
    | inl missing ↦ rw (read_one, missing) (refl, backfill-IsCoherent, refl, refl)
    | inr (n, found) ↦ rw (read_one, found) (ap ok (get_count-exact found), h, refl, refl)
  ]

module _ (now : Time) (post_id user_id : Key) (s : BoardState) where
  abbrev pub new_like : PostLike
  new_like = record { post_id = post_id; user_id = user_id }

  pub more_likes :
      (p : Key)
      → count_where (like_of p) (s.likes ++ new_like ∷ [])
        ≡ count_where (like_of p) s.likes + (if post_id == p then 1 else 0)
  unfolding count_where
  more_likes p = count_where-append (like_of p) s.likes (new_like ∷ []) ∙ omega arith

  fewer_likes :
      (p : Key)
      → count_where (like_is post_id user_id) s.likes ≡ 1
      → count_where (like_of p) (delete_many (like_is post_id user_id) s.likes)
          + (if post_id == p then 1 else 0)
        ≡ count_where (like_of p) s.likes
  fewer_likes p one = elim (Bool-cases (post_id == p)) [
    | inl same ↦
        let fewer =
          count_where-delete_many (like_of p) (like_is post_id user_id) s.likes
            (λ l hit. ground arith) in
        ground (arith, fewer)
    | inr other ↦
        let kept =
          count_where-delete_many_other (like_of p) (like_is post_id user_id) s.likes
            (λ l hit. ground arith) in
        ground (arith, kept)
  ]

  -- A change of the rows of one post, and of the counter that is alive accordingly.
  shift-IsExact :
      (rows : List PostLike) (f : LikeCount → LikeCount)
      → ((c : LikeCount) → (f c).post_id ≡ c.post_id)
      → ((c : LikeCount) → (f c).expires_at ≡ c.expires_at)
      → ((c : LikeCount)
          → c.post_id ≡ post_id
          → c.value ≡ count_where (like_of post_id) s.likes
          → (f c).value ≡ count_where (like_of post_id) rows)
      → ((p : Key)
          → (post_id == p) ≡ false
          → count_where (like_of p) rows ≡ count_where (like_of p) s.likes)
      → All (IsExact now s.likes) s.counters
      → All (IsExact now rows) (update_many (counter_is post_id now) f s.counters)
  shift-IsExact rows f same_post same_expiry here elsewhere =
      All-update_many (IsExact now s.likes) (IsExact now rows) (counter_is post_id now) f s.counters
        (λ c exact. elim (Bool-cases (counter_is post_id now c)) [
          | inl hit ↦ rw hit (λ alive.
              let at : c.post_id ≡ post_id = ground arith in
              let before = exact (rw (same_expiry c) at alive) in
              here c at (before ∙ ap (λ k. count_where (like_of k) s.likes) at)
              ∙ ap (λ k. count_where (like_of k) rows) (sym (same_post c ∙ at)))
          | inr miss ↦ rw miss (λ alive.
              let off : (post_id == c.post_id) ≡ false = ground arith in
              exact alive ∙ sym (elsewhere c.post_id off))
        ])

  -- One more row, and the counter incremented.
  pub increment-IsExact :
      All (IsExact now s.likes) s.counters
      → All
          (IsExact now (s.likes ++ new_like ∷ []))
          (update_many (counter_is post_id now) add_one s.counters)
  increment-IsExact =
      shift-IsExact (s.likes ++ new_like ∷ []) add_one (λ c. refl) (λ c. refl)
        (λ c at e. ground (arith, more_likes post_id)) (λ p off. ground (arith, more_likes p))

  -- The user's row gone, and the counter decremented.
  pub decrement-IsExact :
      count_where (like_is post_id user_id) s.likes ≡ 1
      → All (IsExact now s.likes) s.counters
      → All
          (IsExact now (delete_many (like_is post_id user_id) s.likes))
          (update_many (counter_is post_id now) sub_one s.counters)
  decrement-IsExact one =
      shift-IsExact (delete_many (like_is post_id user_id) s.likes) sub_one (λ c. refl) (λ c. refl)
        (λ c at e. let fewer = fewer_likes post_id one in ground (arith, fewer))
        (λ p off. let fewer = fewer_likes p one in ground (arith, fewer))

-- The state before the like count is read.
abbrev pub after_like : Bool → Time → Key → Key → Key → BoardState → BoardState
after_like reachable now user_id post_id building_id s =
    let written = record s {
      likes = s.likes ++ new_like now post_id user_id s ∷ [];
      events = s.events ++ like_event now user_id post_id building_id s.next_uuid ∷ [];
      next_uuid = s.next_uuid + 1;
    } in
    if reachable then increment now post_id written else written

abbrev pub after_unlike : Bool → Time → Key → Key → BoardState → BoardState
after_unlike reachable now user_id post_id s =
    let written = record s { likes = delete_many (like_is post_id user_id) s.likes } in
    if reachable then decrement now post_id written else written

module _ (reachable : Bool) (now : Time) (user_id post_id : Key) (s : BoardState) {p : Post}
    (e : find_post post_id s ≡ some p) (m : is_member user_id p.building_id s.property ≡ true) where
  pub like_post-new :
      find_first (like_is post_id user_id) s.likes ≡ none
      → like_post reachable now user_id post_id s
        ≡ read_one now post_id (after_like reachable now user_id post_id p.building_id s)
  unfolding like_post like add_event
  like_post-new fresh = ground arith

  pub like_post-again :
      {l : PostLike}
      → find_first (like_is post_id user_id) s.likes ≡ some l
      → like_post reachable now user_id post_id s ≡ read_one now post_id s
  unfolding like_post like add_event
  like_post-again {l} there = ground arith

  pub unlike_post-removed :
      count_where (like_is post_id user_id) s.likes ≡ 1
      → unlike_post reachable now user_id post_id s
        ≡ read_one now post_id (after_unlike reachable now user_id post_id s)
  unfolding unlike_post unlike
  unlike_post-removed one = ground arith

  pub unlike_post-none :
      count_where (like_is post_id user_id) s.likes ≡ 0
      → unlike_post reachable now user_id post_id s ≡ read_one now post_id s
  unfolding unlike_post unlike
  unlike_post-none none_there =
      let same = delete_many-none (like_is post_id user_id) s.likes none_there in ground arith
