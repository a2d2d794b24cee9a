-- ===== src/Chat/Cases.antt =====
-- src/chat/application, the history request of src/chat/interface/chat.controller.ts, and the
-- worker of src/chat/infrastructure/chat-persistence.controller.ts.
use estate_server.Base.{
  Action, Bool, Key, List, Option, Result, Time, [], chat_building_not_found, get_or, gets,
  if◌then◌else◌, map, min, modify, no_key, none, not, not_room_participant, or_raise,
  outside_failure, pure, raise_if, room_not_found, some, sort_newest, tenant_not_member, ℕ, ◌&&◌,
  ◌++◌, ◌+◌, ◌==◌, ◌>>=◌, ◌>>◌, ◌∷◌,
}
use estate_server.Base.Int.{ℤ, pos, negsuc}
use estate_server.Events.{ChatMessage, DomainEvent, Payload, message_sent, message, of_message}
use estate_server.Property.Store.{find_building, is_member}
use estate_server.Chat.Store.{
  ChatRoom, ChatState, create_room, is_participant, create_message, find_room,
  find_by_building_and_tenant, find_by_participant, save_room, persist, find_recent, push_recent,
  get_recent, recent_limit,
}

-- A value that is a result, as a step that keeps the state.
abbrev pub lift : {A : Type 0} → Result A → Action ChatState A
lift r s = (r, s)

unfoldable pub ensure : Key → Key → Key → Option ChatRoom → Action ChatState ChatRoom
ensure building_id owner_id tenant_id (some room) = pure room
ensure building_id owner_id tenant_id none = do
  draft ← lift (create_room building_id owner_id tenant_id)
  save_room draft

-- `EnsureRoomUseCase.execute`
unfoldable pub ensure_room : Key → Key → Key → Action ChatState ChatRoom
ensure_room user_id building_id tenant_id = do
  found ← gets (λ s. find_building building_id s.property)
  building ← or_raise found chat_building_not_found
  raise_if (not (building.owner_id == user_id) && not (user_id == tenant_id)) not_room_participant
  member ← gets (λ s. is_member tenant_id building_id s.property)
  raise_if (not member) tenant_not_member
  existing ← gets (find_by_building_and_tenant building_id tenant_id)
  ensure building_id building.owner_id tenant_id existing

-- What answers when a message is sent: the channel of the sockets, the cache, and the broker.
pub record Outside : Type 0 where
  pub relay_up : Bool
  pub cache_up : Bool
  pub broker_up : Bool

abbrev pub message_event : ChatMessage → Key → DomainEvent
message_event m event_id = record {
  event_id = event_id;
  event_type = message_sent;
  occurred_at = m.created_at;
  actor_id = some m.sender_id;
  entity_type = message;
  entity_id = m.room_id;
  payload = of_message m;
}

-- `KafkaEventPublisher.publish`: what the broker refuses is logged and lost.
unfoldable pub publish : Bool → (Key → DomainEvent) → Action ChatState (Unit {0})
publish broker_up event = modify (λ s. record s {
  published = if broker_up then s.published ++ event s.next_uuid ∷ [] else s.published;
  next_uuid = s.next_uuid + 1;
})

-- `SendMessageUseCase.execute`
unfoldable pub send_message : Outside → Time → Key → Key → Key → Action ChatState ChatMessage
send_message outside now user_id room_id content = do
  found ← gets (find_room room_id)
  room ← or_raise found room_not_found
  raise_if (not (is_participant user_id room)) not_room_participant
  m ← create_message now room_id user_id content
  raise_if (not outside.relay_up) outside_failure
  modify (λ s. record s { relayed = s.relayed ++ m ∷ [] })
  raise_if (not outside.cache_up) outside_failure
  modify (push_recent now m)
  publish outside.broker_up (message_event m)
  pure m

-- `cached.length > 0`
abbrev pub or_else_rows : List ChatMessage → List ChatMessage → List ChatMessage
or_else_rows [] rows = rows
or_else_rows (m ∷ ms) rows = m ∷ ms

-- `GetMessagesUseCase.execute`
unfoldable pub get_messages : Time → Key → Key → ℤ → Action ChatState (List ChatMessage)
get_messages now user_id room_id limit = do
  found ← gets (find_room room_id)
  room ← or_raise found room_not_found
  raise_if (not (is_participant user_id room)) not_room_participant
  cached ← gets (get_recent now room_id limit)
  rows ← gets (find_recent room_id limit)
  pure (or_else_rows cached rows)

-- `Math.min(Number(limit) || RECENT_LIMIT, RECENT_LIMIT)` of the query parameter, `none` where it is
-- missing or no number. (Of the numbers, the integers.)
abbrev pub limit_of : Option ℤ → ℤ
limit_of none = pos recent_limit
limit_of (some (pos n)) = pos (if n == 0 then recent_limit else min n recent_limit)
limit_of (some (negsuc n)) = negsuc n

-- `ChatController.messages`
unfoldable pub read_history : Time → Key → Key → Option ℤ → Action ChatState (List ChatMessage)
read_history now user_id room_id query = get_messages now user_id room_id (limit_of query)

-- RoomSummary
pub record RoomSummary : Type 0 where
  pub room : ChatRoom
  pub last_message : Option ChatMessage

abbrev pub first_of : List ChatMessage → Option ChatMessage
first_of [] = none
first_of (m ∷ ms) = some m

-- `lastMessage`
unfoldable pub last_message_of : Time → Key → ChatState → Option ChatMessage
last_message_of now room_id s =
    first_of (or_else_rows (get_recent now room_id (pos 1) s) (find_recent room_id (pos 1) s))

-- The time of the last message; a room without one comes last.
abbrev pub recency : RoomSummary → ℕ
recency r = elim r.last_message [ none ↦ 0 | some m ↦ m.created_at + 1 ]

-- `ListRoomsUseCase.execute`. Every row has an id, so the check for one that has none is left out.
unfoldable pub list_rooms : Time → Key → ChatState → List RoomSummary
list_rooms now user_id s = sort_newest recency (
    map
      (λ (r : ChatRoom). record {
        room = r;
        last_message = last_message_of now (get_or r.id no_key) s;
      })
      (find_by_participant user_id s))

abbrev pub persist_payload : Payload → Action ChatState (Unit {0})
persist_payload (of_message m) = persist m
persist_payload _ = pure tt

-- `onMessageSent`: one delivery of an event of chat-events to the worker.
unfoldable pub on_message_sent : DomainEvent → Action ChatState (Unit {0})
on_message_sent event = persist_payload event.payload
