-- ===== src/Board/Likes.antt =====
-- src/board/application: like-count-reader.ts, like-post.use-case.ts and unlike-post.use-case.ts.
use estate_server.Base.{
  Action, Bool, Key, Time, [], false, gets, if◌then◌else◌, modify, none, not, not_building_member,
  ok, or_raise, post_not_found, pure, raise_if, some, transaction, true, ℕ, ◌&&◌, ◌++◌, ◌+◌, ◌>>=◌,
  ◌>>◌, ◌∷◌,
}
use estate_server.Events.{DomainEvent, like_created, post, of_like}
use estate_server.Property.Store.{is_member}
use estate_server.Board.Store.{
  BoardState, find_post, like, unlike, count_by_post, increment, decrement, get_count, backfill,
}

-- A rollback restores the tables; Redis and the fresh values are not part of it.
abbrev pub rollback : BoardState → BoardState → BoardState
rollback before after = record after {
  property = before.property;
  posts = before.posts;
  comments = before.comments;
  likes = before.likes;
  events = before.events;
}

-- `LikeCountReader.readOne`, that is `readMany` of one id: the counter, or on a miss the count of
-- the rows, which is then put into the counter.
unfoldable pub read_one : Time → Key → Action BoardState ℕ
read_one now post_id s = elim (get_count now post_id s) [
  | some n ↦ (ok n, s)
  | none ↦ (ok (count_by_post post_id s), backfill now post_id (count_by_post post_id s) s)
]

-- `outbox.add` of an event with a new id.
unfoldable pub add_event : (Key → DomainEvent) → Action BoardState (Unit {0})
add_event event =
    modify
      (λ s. record s { events = s.events ++ event s.next_uuid ∷ []; next_uuid = s.next_uuid + 1 })

abbrev pub when : Bool → Action BoardState (Unit {0}) → Action BoardState (Unit {0})
when true m = m
when false m = pure tt

abbrev pub like_event : Time → Key → Key → Key → Key → DomainEvent
like_event now user_id post_id building_id event_id = record {
  event_id = event_id;
  event_type = like_created;
  occurred_at = now;
  actor_id = some user_id;
  entity_type = post;
  entity_id = post_id;
  payload = of_like post_id building_id;
}

-- `LikePostUseCase.execute`, for a count; `reachable` says whether Redis takes the increment, whose
-- failure is ignored.
unfoldable pub like_post : Bool → Time → Key → Key → Action BoardState ℕ
like_post reachable now user_id post_id = do
  found ← gets (find_post post_id)
  p ← or_raise found post_not_found
  member ← gets (λ s. is_member user_id p.building_id s.property)
  raise_if (not member) not_building_member
  newly_liked ← transaction rollback (do
    newly ← like post_id user_id
    when newly (add_event (like_event now user_id post_id p.building_id))
    pure newly)
  modify (λ s. if newly_liked && reachable then increment now post_id s else s)
  read_one now post_id

-- `UnlikePostUseCase.execute`
unfoldable pub unlike_post : Bool → Time → Key → Key → Action BoardState ℕ
unlike_post reachable now user_id post_id = do
  found ← gets (find_post post_id)
  p ← or_raise found post_not_found
  member ← gets (λ s. is_member user_id p.building_id s.property)
  raise_if (not member) not_building_member
  removed ← transaction rollback (unlike post_id user_id)
  modify (λ s. if removed && reachable then decrement now post_id s else s)
  read_one now post_id
