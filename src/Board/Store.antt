-- ===== src/Board/Store.antt =====
-- src/board/infrastructure: the tables of posts, comments and likes with their Prisma repositories,
-- redis-like-counter.ts and redis-board-cache.ts. The entities stand in `Entities`.
mod Entities
unfoldable pub use Entities.*
use estate_server.Base.{
  Action, Bool, Key, List, Option, Time, [], count_where, delete_many, find_first, find_many,
  get_or, gets, if◌then◌else◌, is_key, is_none, is_some, ltb, map, modify, no_key, ok, or_raise,
  pure, record_not_found, some, update_many, ℕ, ◌&&◌, ◌*◌, ◌++◌, ◌+◌, ◌-◌, ◌==◌, ◌>>=◌, ◌>>◌, ◌∷◌,
}
use mathlib.Core.Option
use estate_server.Events.{DomainEvent}
use estate_server.Property.Store.{PropertyState}

pub record BoardState : Type 0 where
  pub property : PropertyState
  pub posts : List Post
  pub comments : List Comment
  pub likes : List PostLike
  pub events : List DomainEvent
  pub counters : List LikeCount
  pub details : List (Cached PostDetail)
  pub lists : List (Cached (List PostSummary))
  pub next_id : Key
  pub next_uuid : Key

abbrev pub post_is : Key → Post → Bool
post_is id p = is_key p.id id && is_none p.deleted_at

unfoldable pub find_post : Key → BoardState → Option Post
find_post id s = find_first (post_is id) s.posts

unfoldable pub save_post : Post → Action BoardState Post
save_post p = do
  row ← gets (λ s. record p { id = some s.next_id })
  modify (λ s. record s { posts = s.posts ++ row ∷ []; next_id = s.next_id + 1 })
  pure row

abbrev pub row_is : Key → Post → Bool
row_is id p = is_key p.id id

abbrev pub set_text : Post → Post → Post
set_text p row = record row { title = p.title; content = p.content }

-- `where: { id }`, whether soft deleted or not; no such row is P2025.
unfoldable pub update_post : Post → Action BoardState Post
update_post p = do
  found ← gets (λ s. find_first (row_is (get_or p.id no_key)) s.posts)
  row ← or_raise found record_not_found
  modify (λ s. record s { posts = update_many (row_is (get_or p.id no_key)) (set_text p) s.posts })
  pure (set_text p row)

abbrev pub live_comment_of : Key → Comment → Bool
live_comment_of post_id c = c.post_id == post_id && is_none c.deleted_at

abbrev pub delete_comment : Time → Comment → Comment
delete_comment now c = record c { deleted_at = some now }

abbrev pub delete_row : Time → Post → Post
delete_row now p = record p { deleted_at = some now }

-- `PostRepository.delete`: one transaction over the post and its comments.
unfoldable pub delete_post : Time → Key → Action BoardState (Unit {0})
delete_post now id = do
  found ← gets (λ s. find_first (row_is id) s.posts)
  row ← or_raise found record_not_found
  modify (λ s. record s {
    comments = update_many (live_comment_of id) (delete_comment now) s.comments;
    posts = update_many (row_is id) (delete_row now) s.posts;
  })

unfoldable pub save_comment : Comment → Action BoardState Comment
save_comment c = do
  row ← gets (λ s. record c { id = some s.next_id })
  modify (λ s. record s { comments = s.comments ++ row ∷ []; next_id = s.next_id + 1 })
  pure row

abbrev pub like_is : Key → Key → PostLike → Bool
like_is post_id user_id l = l.post_id == post_id && l.user_id == user_id

abbrev pub like_of : Key → PostLike → Bool
like_of post_id l = l.post_id == post_id

-- `createMany` with `skipDuplicates`: the result is whether a row was inserted.
unfoldable pub like : Key → Key → Action BoardState Bool
like post_id user_id s =
    let newly = is_none (find_first (like_is post_id user_id) s.likes) in
    (
      ok newly,
      record s {
        likes =
            if newly
            then s.likes ++ record { post_id = post_id; user_id = user_id } ∷ []
            else s.likes;
      },
    )

-- `deleteMany`: the result is whether exactly one row was deleted.
unfoldable pub unlike : Key → Key → Action BoardState Bool
unlike post_id user_id s = (
  ok (count_where (like_is post_id user_id) s.likes == 1),
  record s { likes = delete_many (like_is post_id user_id) s.likes },
)

unfoldable pub count_by_post : Key → BoardState → ℕ
count_by_post post_id s = count_where (like_of post_id) s.likes

unfoldable pub has_liked : Key → Key → BoardState → Bool
has_liked post_id user_id s = is_some (find_first (like_is post_id user_id) s.likes)

abbrev pub like_ttl : Time
like_ttl = 3600000

abbrev pub counter_is : Key → Time → LikeCount → Bool
counter_is post_id now c = c.post_id == post_id && ltb now c.expires_at

-- INCRBY_IF_EXISTS with 1, and with -1 and its floor at 0. The expiry stays.
abbrev pub add_one : LikeCount → LikeCount
add_one c = record c { value = c.value + 1 }

abbrev pub sub_one : LikeCount → LikeCount
sub_one c = record c { value = if c.value == 0 then 0 else c.value - 1 }

unfoldable pub increment : Time → Key → BoardState → BoardState
increment now post_id s = record s {
  counters = update_many (counter_is post_id now) add_one s.counters;
}

unfoldable pub decrement : Time → Key → BoardState → BoardState
decrement now post_id s = record s {
  counters = update_many (counter_is post_id now) sub_one s.counters;
}

-- `getMany` of one id.
unfoldable pub get_count : Time → Key → BoardState → Option ℕ
get_count now post_id s = Option.map (λ c. c.value) (find_first (counter_is post_id now) s.counters)

abbrev pub count_is : Key → LikeCount → Bool
count_is post_id c = c.post_id == post_id

-- `SET … EX … NX`: a key that is alive is not overwritten; a key that has expired is gone.
unfoldable pub backfill : Time → Key → ℕ → BoardState → BoardState
backfill now post_id count s = record s {
  counters =
      if is_some (find_first (counter_is post_id now) s.counters)
      then s.counters
      else delete_many (count_is post_id) s.counters
        ++ record { post_id = post_id; value = count; expires_at = now + like_ttl } ∷ [];
}

unfoldable pub remove_count : Key → BoardState → BoardState
remove_count post_id s = record s { counters = delete_many (count_is post_id) s.counters }

-- CACHE_TTL_SEC
abbrev pub cache_ttl : Time
cache_ttl = 120000

module _ {A : Type 0} where
  abbrev pub key_is : Key → Cached A → Bool
  key_is key c = c.key == key

  abbrev pub is_cached : Key → Time → Cached A → Bool
  is_cached key now c = c.key == key && ltb now c.expires_at

  -- `GET`
  unfoldable pub get_cached : Time → Key → List (Cached A) → Option A
  get_cached now key cache = Option.map (λ c. c.value) (find_first (is_cached key now) cache)

  -- `SET` with `EX`
  unfoldable pub set_cached : Time → Key → A → List (Cached A) → List (Cached A)
  set_cached now key value cache =
      delete_many (key_is key) cache
      ++ record { key = key; value = value; expires_at = now + cache_ttl } ∷ []

unfoldable pub invalidate_detail : Key → BoardState → BoardState
invalidate_detail post_id s = record s { details = delete_many (key_is post_id) s.details }

unfoldable pub invalidate_list : Key → BoardState → BoardState
invalidate_list building_id s = record s { lists = delete_many (key_is building_id) s.lists }

-- `findByPost`: the oldest first.
unfoldable pub find_comments : Key → BoardState → List Comment
find_comments post_id s = find_many (live_comment_of post_id) s.comments
