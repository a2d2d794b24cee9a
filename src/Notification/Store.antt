-- ===== src/Notification/Store.antt =====
-- src/notification/domain/notification.entity.ts and notification-content.ts, and the repository
-- and the counters of src/notification/infrastructure.
use estate_server.Base.{
  Bool, Key, List, Option, Time, [], count_where, delete_many, find_first, find_many, if◌then◌else◌,
  is_none, is_some, ltb, none, some, sort_newest, take_rows, update_many, ℕ, ◌&&◌, ◌++◌, ◌+◌, ◌-◌,
  ◌==◌, ◌∷◌,
}
use mathlib.Core.Option
use estate_server.Base.Int.{ℤ}
use estate_server.Events.{
  EntityType, post, message, DomainEvent, of_post, of_comment, of_like, of_message,
}
use estate_server.Board.Store.{BoardState}

-- NotificationType
pub data NotificationType : Type 0 where
  message_received comment_added post_added post_liked : NotificationType

-- The fixed titles and bodies, and a text that an event brings.
pub data Text : Type 0 where
  new_message new_comment new_like new_post : Text
  comment_on_yours like_on_yours : Text
  text : Key → Text

-- NotificationContent
pub record Content : Type 0 where
  pub type_ : NotificationType
  pub title : Text
  pub body : Text
  pub entity_type : EntityType
  pub entity_id : Key
  pub building_id : Option Key

-- `buildContent`; `clip` is `slice(0, 50)`. An event has the payload of its type, as all that make
-- events write it.
unfoldable pub build_content : (Key → Key) → DomainEvent → Option Content
build_content clip event = elim event.payload [
  | of_message m ↦ some (record {
    type_ = message_received;
    title = new_message;
    body = text (clip m.content);
    entity_type = message;
    entity_id = m.room_id;
    building_id = none;
  })
  | of_comment post_id building_id ↦ some (record {
    type_ = comment_added;
    title = new_comment;
    body = comment_on_yours;
    entity_type = post;
    entity_id = post_id;
    building_id = some building_id;
  })
  | of_like post_id building_id ↦ some (record {
    type_ = post_liked;
    title = new_like;
    body = like_on_yours;
    entity_type = post;
    entity_id = post_id;
    building_id = some building_id;
  })
  | of_post building_id category title ↦ some (record {
    type_ = post_added;
    title = new_post;
    body = text title;
    entity_type = post;
    entity_id = event.entity_id;
    building_id = some building_id;
  })
  | _ ↦ none
]

-- A row of the table Notification, all that the entity holds.
pub record Notification : Type 0 where
  pub id : Key
  pub recipient_id : Key
  pub content : Content
  pub event_id : Key
  pub read_at : Option Time
  pub created_at : Time

-- A key `notif:unread:{userId}` in Redis.
pub record UnreadCount : Type 0 where
  pub user_id : Key
  pub value : ℕ
  pub expires_at : Time

pub record ChatRoom : Type 0 where
  pub id : Key
  pub owner_id : Key
  pub tenant_id : Key

-- `pushed` are the notifications that were given to the relay.
pub record NotificationState : Type 0 where
  pub board : BoardState
  pub rooms : List ChatRoom
  pub notifications : List Notification
  pub unread : List UnreadCount
  pub pushed : List Key
  pub next_id : Key

abbrev pub is_notice : Key → Key → Notification → Bool
is_notice event_id user_id n = n.event_id == event_id && n.recipient_id == user_id

-- `saveIfNew`: the pair of event and recipient is unique, a second row is refused (P2002).
unfoldable pub save_if_new :
    Time → Key → Content → Key → NotificationState → Option Key × NotificationState
save_if_new now user_id content event_id s =
    elim (find_first (is_notice event_id user_id) s.notifications) [
      | some n ↦ (none, s)
      | none ↦ (
        some s.next_id,
        record s {
          notifications =
              s.notifications
              ++ record {
                id = s.next_id;
                recipient_id = user_id;
                content = content;
                event_id = event_id;
                read_at = none;
                created_at = now;
              }
                ∷ [];
          next_id = s.next_id + 1;
        },
      )
    ]

abbrev pub is_unread : Key → Notification → Bool
is_unread user_id n = n.recipient_id == user_id && is_none n.read_at

abbrev pub set_read : Time → Notification → Notification
set_read now n = record n { read_at = some now }

unfoldable pub mark_all_read : Time → Key → NotificationState → NotificationState
mark_all_read now user_id s = record s {
  notifications = update_many (is_unread user_id) (set_read now) s.notifications;
}

abbrev pub is_unread_one : Key → Key → Notification → Bool
is_unread_one user_id id n = n.id == id && is_unread user_id n

unfoldable pub mark_one_read : Time → Key → Key → NotificationState → Bool × NotificationState
mark_one_read now user_id id s = (
  count_where (is_unread_one user_id id) s.notifications == 1,
  record s {
    notifications = update_many (is_unread_one user_id id) (set_read now) s.notifications;
  },
)

unfoldable pub count_unread : Key → NotificationState → ℕ
count_unread user_id s = count_where (is_unread user_id) s.notifications

abbrev pub unread_is : Key → Time → UnreadCount → Bool
unread_is user_id now c = c.user_id == user_id && ltb now c.expires_at

abbrev pub of_owner : Key → UnreadCount → Bool
of_owner user_id c = c.user_id == user_id

abbrev pub unread_up : UnreadCount → UnreadCount
unread_up c = record c { value = c.value + 1 }

abbrev pub unread_down : UnreadCount → UnreadCount
unread_down c = record c { value = if c.value == 0 then 0 else c.value - 1 }

-- INCR_IF_EXISTS and DECR_IF_EXISTS, with the floor at 0. The expiry stays.
unfoldable pub unread_increment : Time → Key → NotificationState → NotificationState
unread_increment now user_id s = record s {
  unread = update_many (unread_is user_id now) unread_up s.unread;
}

unfoldable pub unread_decrement : Time → Key → NotificationState → NotificationState
unread_decrement now user_id s = record s {
  unread = update_many (unread_is user_id now) unread_down s.unread;
}

unfoldable pub get_unread : Time → Key → NotificationState → Option ℕ
get_unread now user_id s = Option.map (λ c. c.value) (find_first (unread_is user_id now) s.unread)

-- UNREAD_COUNT_TTL_SEC
abbrev pub unread_ttl : Time
unread_ttl = 3600000

-- `SET … EX … NX`
unfoldable pub unread_backfill : Time → Key → ℕ → NotificationState → NotificationState
unread_backfill now user_id count s = record s {
  unread =
      if is_some (find_first (unread_is user_id now) s.unread)
      then s.unread
      else delete_many (of_owner user_id) s.unread
        ++ record { user_id = user_id; value = count; expires_at = now + unread_ttl } ∷ [];
}

unfoldable pub unread_reset : Key → NotificationState → NotificationState
unread_reset user_id s = record s { unread = delete_many (of_owner user_id) s.unread }

abbrev pub is_for : Key → Notification → Bool
is_for user_id n = n.recipient_id == user_id

abbrev pub made_at : Notification → Time
made_at n = n.created_at

-- `listForUser`: the newest first.
unfoldable pub list_for_user : Key → ℤ → NotificationState → List Notification
list_for_user user_id limit s =
    take_rows limit (sort_newest made_at (find_many (is_for user_id) s.notifications))
