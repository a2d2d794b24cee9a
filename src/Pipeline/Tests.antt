-- ===== src/Pipeline/Tests.antt =====
-- A like on its way from the outbox to the audit log and to the author of the post.
use estate_server.Base.{
  All, find_many, Key, List, Option, [], arith, count_where, find_first, has_key, inl, map, none,
  refl, some, true, ◌∷◌, ◌≡◌, ◌≤◌,
}
use estate_server.Events.{DomainEvent, like_created, post, free, of_like}
use estate_server.Property.Store.{PropertyState}
use estate_server.Board.Store.{BoardState, Post}
use estate_server.Notification.Store.{
  Content, NotificationState, build_content, is_notice, post_liked, new_like, like_on_yours,
}
use estate_server.Notification.Recipients.{resolve}
use estate_server.Outbox.Store.{
  OutboxRow, Config, row_is, row_of, tick, fetch_pending, relay_rows, relay_row,
}
use estate_server.Outbox.Draining.{open_row}
use estate_server.Audit.Log.{Delivery, deliver_all}
use estate_server.Audit.Deliveries.{id_of, answered, events_of}
use estate_server.Pipeline.Published.{emitted}
use estate_server.Pipeline.Order.{emitted_exact, open_rows, payload_of}
use estate_server.Pipeline.Audited.{Delivers, pending_event_audited}
use estate_server.Pipeline.Informed.{AtMostOnce, Consumption, consumed, consume_all}
use estate_server.Pipeline.Told.{pending_event_told}

abbrev cfg : Config
cfg = record { max_attempts = 3; base_ms = 1000; cap_ms = 60000 }

abbrev liked : DomainEvent
liked = record {
  event_id = 60;
  event_type = like_created;
  occurred_at = 5;
  actor_id = some 11;
  entity_type = post;
  entity_id = 2;
  payload = of_like 2 1;
}

abbrev waiting : OutboxRow
waiting = row_of none 1 liked

abbrev outbox : List OutboxRow
outbox = waiting ∷ []

abbrev accept : OutboxRow → Option Key
accept row = none

one_row : (k : Key) → count_where (row_is k) outbox ≤ 1
unfolding count_where
one_row k = ground arith

handed_over : emitted cfg accept 10 (7 ∷ []) outbox ≡ liked ∷ []
unfolding emitted tick fetch_pending relay_rows relay_row find_many
handed_over = refl

abbrev second : DomainEvent
second = record liked { event_id = 61 }

abbrev queue : List OutboxRow
queue = waiting ∷ row_of none 2 second ∷ []

queue_distinct : (k : Key) → count_where (row_is k) queue ≤ 1
unfolding count_where
queue_distinct k = ground arith

queue_room : count_where open_row queue ≤ 2
unfolding count_where
queue_room = omega arith

emitted_exact_example : emitted cfg accept 1 (7 ∷ 8 ∷ []) queue ≡ map payload_of (open_rows queue)
emitted_exact_example =
    emitted_exact cfg accept (λ row. refl) 1 1 (7 ∷ 8 ∷ []) queue queue_distinct
      ((λ now late. refl), ((λ now late. refl), tt)) (omega arith, (omega arith, tt)) queue_room

abbrev twice : List Delivery
twice =
    record { up = true; now = 20; event = liked }
    ∷ record { up = true; now = 30; event = liked }
    ∷ []

audit-Delivers : Delivers (emitted cfg accept 10 (7 ∷ []) outbox) (answered twice)
audit-Delivers =
    rw handed_over
      (record { at_least_once = (inl refl, tt); nothing_else = (inl refl, (inl refl, tt)) })

room : count_where open_row outbox ≤ 10
unfolding count_where
room = omega arith

pending_event_audited_example :
    let logged = events_of (deliver_all twice (record { logs = []; next_id = 1 })).logs in
    (count_where (has_key id_of 60) logged ≡ 1)
    × (find_first (has_key id_of 60) logged ≡ some liked)
pending_event_audited_example =
    pending_event_audited cfg accept (λ row. refl) 10 1 (7 ∷ []) outbox waiting one_row
      ((λ now late. refl), tt) (omega arith, tt) room (inl refl) refl ((λ same. refl), tt) twice 1
      audit-Delivers

abbrev tables : PropertyState
tables = record {
  buildings = [];
  units = [];
  leases = [];
  invites = [];
  events = [];
  next_id = 4;
  next_uuid = 50;
  draws = 0;
}

abbrev the_post : Post
the_post = record {
  id = some 2;
  building_id = 1;
  author_id = 10;
  category = free;
  title = 200;
  content = 201;
  deleted_at = none;
}

abbrev board : BoardState
board = record {
  property = tables;
  posts = the_post ∷ [];
  comments = [];
  likes = [];
  events = [];
  counters = [];
  details = [];
  lists = [];
  next_id = 4;
  next_uuid = 50;
}

abbrev inbox : NotificationState
inbox = record {
  board = board;
  rooms = [];
  notifications = [];
  unread = [];
  pushed = [];
  next_id = 1;
}

abbrev content : Content
content = record {
  type_ = post_liked;
  title = new_like;
  body = like_on_yours;
  entity_type = post;
  entity_id = 2;
  building_id = some 1;
}

abbrev clip : Key → Key
clip k = k

built : build_content clip liked ≡ some content
unfolding build_content
built = refl

abbrev deliveries : List Consumption
deliveries =
    record { relayed = λ k. true; now = 20; event = liked }
    ∷ record { relayed = λ k. true; now = 30; event = liked }
    ∷ []

told-Delivers : Delivers (emitted cfg accept 10 (7 ∷ []) outbox) (consumed deliveries)
told-Delivers =
    rw handed_over
      (record { at_least_once = (inl refl, tt); nothing_else = (inl refl, (inl refl, tt)) })

inbox-AtMostOnce : AtMostOnce inbox
unfolding count_where
inbox-AtMostOnce k u = omega arith

pending_event_told_example :
    All
      (λ u. count_where (is_notice 60 u) (consume_all clip deliveries inbox).notifications ≡ 1)
      (resolve liked board [])
pending_event_told_example =
    pending_event_told cfg accept (λ row. refl) 10 1 (7 ∷ []) outbox waiting one_row
      ((λ now late. refl), tt) (omega arith, tt) room (inl refl) refl ((λ same. refl), tt) clip
      deliveries inbox refl built told-Delivers inbox-AtMostOnce
