-- ===== src/Board/Listing.antt =====
-- The posts of a building: src/board/application/list-posts.use-case.ts, `readMany` of
-- like-count-reader.ts, and the queries of src/board/infrastructure over several posts.
use mathlib.Core.List.{reverse}
use estate_server.Base.{
  Action, Bool, Key, List, Time, [], find_many, get_or, gets, if◌then◌else◌, includes, is_empty,
  is_none, lookup, map, map_of, map_where, modify, no_key, none, ok, pure, some, ℕ, ◌&&◌, ◌++◌,
  ◌==◌, ◌>>=◌, ◌>>◌, ◌∷◌,
}
use estate_server.Board.Store.{
  BoardState, Post, PostLike, PostSummary, count_by_post, get_count, backfill, get_cached,
  set_cached,
}
use estate_server.Board.Posts.{authorize}

-- `getMany`, where Redis answers for every key.
unfoldable pub get_many : Time → List Key → BoardState → List (Key × ℕ)
get_many now post_ids s = map_where (λ id. get_count now id s) post_ids

-- `countByPosts`: a post without a like has no entry.
unfoldable pub count_by_posts : List Key → BoardState → List (Key × ℕ)
count_by_posts post_ids s =
    map_where (λ id. if count_by_post id s == 0 then none else some (count_by_post id s)) post_ids

-- `backfill` of several counters, in one pipeline.
unfoldable pub backfill_all : Time → List (Key × ℕ) → BoardState → BoardState
backfill_all now [] s = s
backfill_all now ((id, n) ∷ entries) s = backfill_all now entries (backfill now id n s)

abbrev pub is_missed : List (Key × ℕ) → Key → Bool
is_missed cached id = is_none (lookup id cached)

abbrev pub count_of : List (Key × ℕ) → Key → ℕ
count_of counts id = get_or (lookup id counts) 0

unfoldable pub rebuild : Time → List (Key × ℕ) → List Key → Action BoardState (List (Key × ℕ))
rebuild now cached missed = do
  counted ← gets (count_by_posts missed)
  let rebuilt = map_of (count_of counted) missed
  modify (backfill_all now rebuilt)
  pure (rebuilt ++ cached)

-- `LikeCountReader.readMany`; of a key in both maps the rebuilt entry counts.
unfoldable pub read_many : Time → List Key → Action BoardState (List (Key × ℕ))
read_many now post_ids = do
  cached ← gets (get_many now post_ids)
  let missed = find_many (is_missed cached) post_ids
  if is_empty missed then pure cached else rebuild now cached missed

abbrev pub like_by : Key → List Key → PostLike → Bool
like_by user_id post_ids l = l.user_id == user_id && includes l.post_id post_ids

-- `likedPostIds`
unfoldable pub liked_post_ids : Key → List Key → BoardState → List Key
liked_post_ids user_id post_ids s =
    map (λ l. l.post_id) (find_many (like_by user_id post_ids) s.likes)

abbrev pub post_of : Key → Post → Bool
post_of building_id p = p.building_id == building_id && is_none p.deleted_at

-- `findByBuilding`: the newest first, which is the order of the table turned round.
unfoldable pub find_by_building : Key → BoardState → List Post
find_by_building building_id s = reverse (find_many (post_of building_id) s.posts)

abbrev pub summary_of : Post → PostSummary
summary_of p = record {
  id = get_or p.id no_key;
  category = p.category;
  title = p.title;
  author_id = p.author_id;
}

-- `loadSummaries`
unfoldable pub load_summaries : Time → Key → Action BoardState (List PostSummary)
load_summaries now building_id s = elim (get_cached now building_id s.lists) [
  | some cached ↦ (ok cached, s)
  | none ↦
      let summaries = map summary_of (find_by_building building_id s) in
      (ok summaries, record s { lists = set_cached now building_id summaries s.lists })
]

-- PostSummaryView
pub record PostSummaryView : Type 0 where
  pub summary : PostSummary
  pub like_count : ℕ
  pub liked_by_me : Bool

abbrev pub view_of : List (Key × ℕ) → List Key → PostSummary → PostSummaryView
view_of counts liked p = record {
  summary = p;
  like_count = count_of counts p.id;
  liked_by_me = includes p.id liked;
}

-- The likes of the posts, for a user.
unfoldable pub decorate : Time → Key → List PostSummary → Action BoardState (List PostSummaryView)
decorate now user_id summaries = do
  let post_ids = map (λ p. p.id) summaries
  counts ← read_many now post_ids
  liked ← gets (liked_post_ids user_id post_ids)
  pure (map (view_of counts liked) summaries)

-- `ListPostsUseCase.execute`
unfoldable pub list_posts : Time → Key → Key → Action BoardState (List PostSummaryView)
list_posts now user_id building_id = do
  authorize user_id building_id
  summaries ← load_summaries now building_id
  decorate now user_id summaries
