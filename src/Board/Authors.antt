-- ===== src/Board/Authors.antt =====
-- Changing, deleting and reading a post: update-post, delete-post and get-post of
-- src/board/application.
use estate_server.Base.{
  AppError, Result, Bool-cases, false, outside_failure, ◌&&◌, ◌≢◌, Key, Option-cases, Time, arith,
  delete_many, domain_error, err, find_first, find_first-delete_many, find_first-deleted,
  find_first_sound, inl, inr, is_some, is_some-find_first, no_key, none, not_author, ok,
  post_not_found, refl, some, true, update_many, ◌==◌, ◌||◌, ◌≡◌, ◌⊎◌,
}
use estate_server.Board.Store.{
  BoardState, Post, edit, find_post, post_is, row_is, update_post, delete_post, remove_count,
  get_cached, key_is, is_cached, invalidate_detail, invalidate_list, live_comment_of,
  delete_comment, delete_row, set_text, count_is,
}
use estate_server.Board.Posts.{
  RedisCalls, update_post_case, delete_post_case, get_post, load_detail, load_detail_miss,
  is_authored_by,
}

module _ (redis : RedisCalls) (now : Time) (user_id post_id : Key) (s : BoardState) where
  -- The post and its live comments are marked in the tables.
  abbrev pub marked : BoardState
  marked = record s {
    comments = update_many (live_comment_of post_id) (delete_comment now) s.comments;
    posts = update_many (row_is post_id) (delete_row now) s.posts;
  }

  -- What Redis derived from them is dropped as well, as far as the cached copy of the post, that of
  -- the list, and the counter.
  abbrev pub without_detail : BoardState
  without_detail = record marked { details = delete_many (key_is post_id) s.details }

  abbrev pub without_list : Post → BoardState
  without_list p = record without_detail { lists = delete_many (key_is p.building_id) s.lists }

  abbrev pub after_delete : Post → BoardState
  after_delete p = record (without_list p) { counters = delete_many (count_is post_id) s.counters }

  -- The first deletion in Redis that throws ends the request, with what was done so far.
  abbrev pub IsDeletedBy : Post → Result (Unit {0}) × BoardState → Type 0
  IsDeletedBy p r =
      (((redis.detail_up && redis.list_up && redis.count_up) ≡ true)
        × (r ≡ (ok tt, after_delete p)))
      ⊎ (((redis.detail_up && redis.list_up) ≡ true)
          × (redis.count_up ≡ false)
          × (r ≡ (err outside_failure, without_list p)))
      ⊎ ((redis.detail_up ≡ true)
          × (redis.list_up ≡ false)
          × (r ≡ (err outside_failure, without_detail)))
      ⊎ ((redis.detail_up ≡ false) × (r ≡ (err outside_failure, marked)))

  row_is-found :
      {p : Post}
      → find_post post_id s ≡ some p
      → is_some (find_first (row_is post_id) s.posts) ≡ true
  unfolding find_post
  row_is-found {p} e =
      is_some-find_first (post_is post_id) (row_is post_id) s.posts e
        (let mine = find_first_sound (post_is post_id) s.posts e in ground arith)

  delete_post-mine :
      {p : Post}
      → find_post post_id s ≡ some p
      → p.author_id ≡ user_id
      → IsDeletedBy p (delete_post_case redis now user_id post_id s)
  unfolding delete_post_case delete_post invalidate_detail invalidate_list remove_count
  delete_post-mine {p} e mine =
      let there = row_is-found e in
      elim (Bool-cases redis.detail_up) [
        | inr no_detail ↦ inr (inr (inr (no_detail, ground arith)))
        | inl detail ↦ elim (Bool-cases redis.list_up) [
          | inr no_list ↦ inr (inr (inl (detail, no_list, ground arith)))
          | inl list ↦ elim (Bool-cases redis.count_up) [
            | inr no_count ↦ inr (inl (ground arith, no_count, ground arith))
            | inl count ↦ inl (ground arith, ground arith)
          ]
        ]
      ]

  -- Deleting a post either is asked by the author of a post that is there, and then it marks the
  -- post and its live comments as deleted, drops the cached copy of the post, that of the list and
  -- the like counter one after the other, and succeeds if Redis takes all three, or fails at the
  -- first that Redis does not take with what was done before it; or it fails and changes nothing.
  pub delete_post_authorised :
      ((p : Post) × (find_post post_id s ≡ some p)
        × (p.author_id ≡ user_id)
        × IsDeletedBy p (delete_post_case redis now user_id post_id s))
      ⊎ (((find_post post_id s ≡ none)
            × (delete_post_case redis now user_id post_id s ≡ (err post_not_found, s)))
          ⊎ ((p : Post) × (find_post post_id s ≡ some p)
              × (p.author_id ≢ user_id)
              × (delete_post_case redis now user_id post_id s ≡ (err not_author, s))))
  unfolding delete_post_case
  delete_post_authorised = elim (Option-cases (find_post post_id s)) [
    | inl missing ↦ inr (inl (missing, ground arith))
    | inr (p, e) ↦ elim (Bool-cases (is_authored_by user_id p)) [
      | inl mine ↦
          let mine : p.author_id ≡ user_id = ground arith in
          inl (p, e, mine, delete_post-mine e mine)
      | inr foreign ↦ inr (inr (p, e, (λ same. ground arith), ground arith))
    ]
  ]

  find_post-marked : find_post post_id marked ≡ none
  unfolding find_post
  find_post-marked =
      find_first-deleted (post_is post_id) (row_is post_id) (delete_row now) s.posts
        (λ x. ground arith)

get_post-missing :
    (now : Time) (reader post_id : Key) (s : BoardState)
    → get_cached now post_id s.details ≡ none
    → find_post post_id s ≡ none
    → (get_post now reader post_id s).0 ≡ err post_not_found
unfolding get_post load_detail load_detail_miss
get_post-missing now reader post_id s cold gone = ground arith

-- After its author has deleted a post that was there, and Redis has taken the deletion of its
-- cached copy, reading it is answered with POST_NOT_FOUND to every reader at every time, whatever
-- the cache held, and whether or not Redis has taken the deletions that come after.
pub deleted_not_served :
    (redis : RedisCalls) (now now' : Time) (user_id reader post_id : Key) (s : BoardState)
    {p : Post}
    → redis.detail_up ≡ true
    → find_post post_id s ≡ some p
    → p.author_id ≡ user_id
    → (get_post now' reader post_id (delete_post_case redis now user_id post_id s).1).0
      ≡ err post_not_found
unfolding get_cached find_post
deleted_not_served redis now now' user_id reader post_id s {p} up e mine =
    let cold =
      find_first-delete_many (is_cached post_id now') (key_is post_id) s.details
        (λ c h. ground arith) in
    let gone = find_post-marked redis now user_id post_id s in
    let missing = get_post-missing now' reader post_id in
    elim (delete_post-mine redis now user_id post_id s e mine) [
      | inl (up', r) ↦
          rw r (missing (after_delete redis now user_id post_id s p) (rw cold refl) gone)
      | inr (inl (up', down, r)) ↦
          rw r (missing (without_list redis now user_id post_id s p) (rw cold refl) gone)
      | inr (inr (inl (up', down, r))) ↦
          rw r (missing (without_detail redis now user_id post_id s) (rw cold refl) gone)
      | inr (inr (inr (down, r))) ↦ absurd (ground arith)
    ]

module _ (redis : RedisCalls) (user_id post_id title content : Key) (s : BoardState) where
  abbrev pub after_update : Post → BoardState
  after_update p = record s {
    posts =
        update_many (row_is post_id) (set_text (record p { title = title; content = content }))
          s.posts;
    details = delete_many (key_is post_id) s.details;
    lists = delete_many (key_is p.building_id) s.lists;
  }

  -- Updating a post either is asked by the author of a post that is there, and then it writes the
  -- title and the content, and drops the cached copies if Redis takes it, or fails otherwise, after
  -- the write; or it fails and changes nothing.
  pub update_post_authorised :
      ((p : Post) × (find_post post_id s ≡ some p)
        × (p.author_id ≡ user_id)
        × ((update_post_case redis user_id post_id title content s).1.posts
            ≡ (after_update p).posts)
        × ((((redis.detail_up && redis.list_up) ≡ true)
              × ((update_post_case redis user_id post_id title content s).1 ≡ after_update p))
            ⊎ ((update_post_case redis user_id post_id title content s).0 ≡ err outside_failure)))
      ⊎ ((e : AppError) × (update_post_case redis user_id post_id title content s ≡ (err e, s)))
  unfolding update_post_case update_post edit find_post invalidate_detail invalidate_list
  update_post_authorised = elim (Option-cases (find_post post_id s)) [
    | inl missing ↦ inr (post_not_found, ground arith)
    | inr (p, e) ↦ elim (Bool-cases (is_authored_by user_id p)) [
      | inr foreign ↦ inr (not_author, ground arith)
      | inl mine ↦ elim (Bool-cases (title == no_key || content == no_key)) [
        | inl blank ↦ inr (domain_error, ground arith)
        | inr filled ↦
            let own = find_first_sound (post_is post_id) s.posts e in
            let there = row_is-found redis 0 user_id post_id s e in
            let mine : p.author_id ≡ user_id = ground arith in
            elim (Bool-cases redis.detail_up) [
              | inr down ↦ inl (p, e, mine, ground arith, inr (ground arith))
              | inl detail ↦ elim (Bool-cases redis.list_up) [
                | inr down ↦ inl (p, e, mine, ground arith, inr (ground arith))
                | inl list ↦ inl (p, e, mine, ground arith, inl (ground arith, ground arith))
              ]
            ]
      ]
    ]
  ]
