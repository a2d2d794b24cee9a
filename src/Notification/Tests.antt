-- ===== src/Notification/Tests.antt =====
-- A like of the post of another user, and what the user is then told.
use estate_server.Base.{
  All, Bool, Key, List, Time, arith, count_where, [], none, refl, some, true, ◌∷◌, ◌≡◌,
}
use estate_server.Events.{DomainEvent, like_created, post, free, of_like}
use estate_server.Property.Store.{PropertyState}
use estate_server.Board.Store.{BoardState, Post}
use estate_server.Notification.Store.{
  Content, NotificationState, build_content, is_unread, post_liked, new_like, like_on_yours,
}
use estate_server.Notification.Recipients.{resolve}
use estate_server.Notification.Cases.{handle_event, unread_count}
use estate_server.Notification.Fanout.{IsTold, handle_event_once}
use estate_server.Notification.Unread.{IsValid}
use estate_server.Notification.Totals.{
  Call, handled, read_one, counted_for, run_calls, unread_exact,
}

abbrev tables : PropertyState
tables = record {
  buildings = [];
  units = [];
  leases = [];
  invites = [];
  events = [];
  next_id = 4;
  next_uuid = 50;
  draws = 0;
}

abbrev the_post : Post
the_post = record {
  id = some 2;
  building_id = 1;
  author_id = 10;
  category = free;
  title = 200;
  content = 201;
  deleted_at = none;
}

abbrev board : BoardState
board = record {
  property = tables;
  posts = the_post ∷ [];
  comments = [];
  likes = [];
  events = [];
  counters = [];
  details = [];
  lists = [];
  next_id = 4;
  next_uuid = 50;
}

abbrev state : NotificationState
state = record {
  board = board;
  rooms = [];
  notifications = [];
  unread = [];
  pushed = [];
  next_id = 1;
}

abbrev event : DomainEvent
event = record {
  event_id = 60;
  event_type = like_created;
  occurred_at = 5;
  actor_id = some 11;
  entity_type = post;
  entity_id = 2;
  payload = of_like 2 1;
}

abbrev content : Content
content = record {
  type_ = post_liked;
  title = new_like;
  body = like_on_yours;
  entity_type = post;
  entity_id = 2;
  building_id = some 1;
}

abbrev clip : Key → Key
clip k = k

abbrev up : Key → Bool
up id = true

built : build_content clip event ≡ some content
unfolding build_content
built = refl

handle_event_once_example :
    All (IsTold 60 (handle_event clip up 5 event state)) (resolve event board [])
    × (handle_event clip up 6 event (handle_event clip up 5 event state)
        ≡ handle_event clip up 5 event state)
handle_event_once_example = handle_event_once clip up up 5 6 event state built

abbrev calls : List (Time × Call)
calls =
    (5, counted_for 10)
    ∷ (6, handled up event)
    ∷ (6, handled up event)
    ∷ (7, handled up (record event { event_id = 61 }))
    ∷ (8, read_one 10 1)
    ∷ []

state-IsValid : IsValid 0 state
unfolding count_where
state-IsValid = record { counted = tt; fresh = tt; unique = λ k. omega arith }

unread_exact_example :
    (unread_count 9 10 (run_calls clip calls state)).0
    ≡ count_where (is_unread 10) (run_calls clip calls state).notifications
unread_exact_example =
    unread_exact clip 0 9 calls 10 state state-IsValid
      (omega arith, (omega arith, (omega arith, (omega arith, (omega arith, omega arith)))))
