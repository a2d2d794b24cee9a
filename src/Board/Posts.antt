-- ===== src/Board/Posts.antt =====
-- src/board/application: create-post.use-case.ts, update-post.use-case.ts, delete-post.use-case.ts,
-- create-comment.use-case.ts and get-post.use-case.ts.
use estate_server.Base.{
  true, false, Action, Bool, Key, List, Option, Result, Time, get_or, gets, map, modify, no_key,
  err, none, not, outside_failure, not_author, not_building_member, or_raise, post_not_found, pure,
  raise_if, some, transaction, ℕ, ◌==◌, ◌>>=◌, ◌>>◌,
}
use estate_server.Events.{
  DomainEvent, Category, post_created, comment_created, post, comment, of_post, of_comment,
}
use estate_server.Property.Store.{is_member}
use estate_server.Board.Store.{
  BoardState, Post, Comment, CommentView, PostDetail, create_post, edit, create_comment, find_post,
  save_post, update_post, delete_post, save_comment, find_comments, has_liked, remove_count,
  get_cached, set_cached, invalidate_detail, invalidate_list,
}
use estate_server.Board.Likes.{add_event, read_one, rollback}

-- Which of the deletions in Redis that follow a write answer; the others throw, and nothing catches
-- it. (A deletion that throws has changed nothing.)
pub record RedisCalls : Type 0 where
  pub detail_up : Bool
  pub list_up : Bool
  pub count_up : Bool

abbrev pub when_up : Bool → (BoardState → BoardState) → Action BoardState (Unit {0})
when_up true f = modify f
when_up false f = λ s. (err outside_failure, s)

-- A value that is a result, as a step that keeps the state.
abbrev pub lift : {A : Type 0} → Result A → Action BoardState A
lift r s = (r, s)

abbrev pub post_event : Time → Key → Post → Key → DomainEvent
post_event now user_id created event_id = record {
  event_id = event_id;
  event_type = post_created;
  occurred_at = now;
  actor_id = some user_id;
  entity_type = post;
  entity_id = get_or created.id no_key;
  payload = of_post created.building_id created.category created.title;
}

-- `CreatePostUseCase.execute`
unfoldable pub create_post_case :
    RedisCalls → Time → Key → Key → Option Category → Key → Key → Action BoardState Post
create_post_case redis now user_id building_id category title content = do
  member ← gets (λ s. is_member user_id building_id s.property)
  raise_if (not member) not_building_member
  p ← lift (create_post building_id user_id category title content)
  saved ←
      transaction rollback
        (do created ← save_post p; add_event (post_event now user_id created); pure created)
  when_up redis.list_up (invalidate_list building_id)
  pure saved

abbrev pub comment_event : Time → Key → Key → Comment → Key → DomainEvent
comment_event now user_id building_id created event_id = record {
  event_id = event_id;
  event_type = comment_created;
  occurred_at = now;
  actor_id = some user_id;
  entity_type = comment;
  entity_id = get_or created.id no_key;
  payload = of_comment created.post_id building_id;
}

-- `CreateCommentUseCase.execute`
unfoldable pub create_comment_case : RedisCalls → Time → Key → Key → Key → Action BoardState Comment
create_comment_case redis now user_id post_id content = do
  found ← gets (find_post post_id)
  p ← or_raise found post_not_found
  member ← gets (λ s. is_member user_id p.building_id s.property)
  raise_if (not member) not_building_member
  saved ← transaction rollback (do
    c ← lift (create_comment post_id user_id content)
    created ← save_comment c
    add_event (comment_event now user_id p.building_id created)
    pure created)
  when_up redis.detail_up (invalidate_detail post_id)
  pure saved

-- `Post.isAuthoredBy`
abbrev pub is_authored_by : Key → Post → Bool
is_authored_by user_id p = p.author_id == user_id

-- `UpdatePostUseCase.execute`
unfoldable pub update_post_case : RedisCalls → Key → Key → Key → Key → Action BoardState Post
update_post_case redis user_id post_id title content = do
  found ← gets (find_post post_id)
  p ← or_raise found post_not_found
  raise_if (not (is_authored_by user_id p)) not_author
  edited ← lift (edit title content p)
  changed ← update_post edited
  when_up redis.detail_up (invalidate_detail post_id)
  when_up redis.list_up (invalidate_list p.building_id)
  pure changed

-- `DeletePostUseCase.execute`
unfoldable pub delete_post_case : RedisCalls → Time → Key → Key → Action BoardState (Unit {0})
delete_post_case redis now user_id post_id = do
  found ← gets (find_post post_id)
  p ← or_raise found post_not_found
  raise_if (not (is_authored_by user_id p)) not_author
  delete_post now post_id
  when_up redis.detail_up (invalidate_detail post_id)
  when_up redis.list_up (invalidate_list p.building_id)
  when_up redis.count_up (remove_count post_id)

-- PostDetailView
pub record PostDetailView : Type 0 where
  pub detail : PostDetail
  pub like_count : ℕ
  pub liked_by_me : Bool

abbrev pub comment_view : Comment → CommentView
comment_view c = record { id = get_or c.id no_key; author_id = c.author_id; content = c.content }

abbrev pub detail_of : Post → List Comment → PostDetail
detail_of p comments = record {
  id = get_or p.id no_key;
  building_id = p.building_id;
  category = p.category;
  title = p.title;
  content = p.content;
  author_id = p.author_id;
  comments = map comment_view comments;
}

-- `authorize`
abbrev pub authorize : Key → Key → Action BoardState (Unit {0})
authorize user_id building_id = do
  member ← gets (λ s. is_member user_id building_id s.property)
  raise_if (not member) not_building_member

-- `loadDetail` on a miss of the cache.
unfoldable pub load_detail_miss : Time → Key → Key → Action BoardState PostDetail
load_detail_miss now user_id post_id = do
  found ← gets (find_post post_id)
  p ← or_raise found post_not_found
  authorize user_id p.building_id
  comments ← gets (find_comments post_id)
  modify (λ s. record s { details = set_cached now post_id (detail_of p comments) s.details })
  pure (detail_of p comments)

unfoldable pub load_detail_hit : Key → PostDetail → Action BoardState PostDetail
load_detail_hit user_id cached = do authorize user_id cached.building_id; pure cached

unfoldable pub load_detail : Time → Key → Key → Action BoardState PostDetail
load_detail now user_id post_id s = elim (get_cached now post_id s.details) [
  | some cached ↦ load_detail_hit user_id cached s
  | none ↦ load_detail_miss now user_id post_id s
]

-- `GetPostUseCase.execute`
unfoldable pub get_post : Time → Key → Key → Action BoardState PostDetailView
get_post now user_id post_id = do
  detail ← load_detail now user_id post_id
  count ← read_one now post_id
  liked ← gets (has_liked post_id user_id)
  pure (record { detail = detail; like_count = count; liked_by_me = liked })
