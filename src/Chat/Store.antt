-- ===== src/Chat/Store.antt =====
-- src/chat/domain and src/chat/infrastructure: the entities, the Prisma repositories and
-- redis-message-cache.ts.
use estate_server.Base.{
  Action, Bool, Key, List, Option, Result, Time, [], delete_many, domain_error, err, find_first,
  find_many, gets, if◌then◌else◌, is_key, is_some, length, ltb, modify, no_key, none, ok,
  outside_failure, pure, raise_if, some, sort_newest, take, take_rows, unique_violation, ℕ, ◌&&◌,
  ◌++◌, ◌+◌, ◌-◌, ◌==◌, ◌>>=◌, ◌>>◌, ◌||◌, ◌∷◌,
}
use estate_server.Base.Int.{ℤ, pos, negsuc}
use estate_server.Events.{ChatMessage, DomainEvent}
use estate_server.Property.Store.{PropertyState}

-- ChatRoom. A row is the entity with the id set.
pub record ChatRoom : Type 0 where
  pub id : Option Key
  pub building_id : Key
  pub owner_id : Key
  pub tenant_id : Key

-- `ChatRoom.create`
unfoldable pub create_room : Key → Key → Key → Result ChatRoom
create_room building_id owner_id tenant_id =
    if building_id == no_key || owner_id == no_key || tenant_id == no_key
    then err domain_error
    else ok (record {
      id = none;
      building_id = building_id;
      owner_id = owner_id;
      tenant_id = tenant_id;
    })

unfoldable pub is_participant : Key → ChatRoom → Bool
is_participant user_id r = r.owner_id == user_id || r.tenant_id == user_id

-- A key `chat:room:{roomId}:recent` in Redis, the newest message first.
pub record Recent : Type 0 where
  pub room_id : Key
  pub messages : List ChatMessage
  pub expires_at : Time

-- `messages` is the table Message, whose rows, entities and payloads have the same fields;
-- `relayed` are the messages that went out to the sockets, `published` the events that the broker
-- has taken. `next_id` is the next `cuid()`, `next_uuid` the next `randomUUID()`.
pub record ChatState : Type 0 where
  pub property : PropertyState
  pub rooms : List ChatRoom
  pub messages : List ChatMessage
  pub recents : List Recent
  pub relayed : List ChatMessage
  pub published : List DomainEvent
  pub next_id : Key
  pub next_uuid : Key

-- `Message.create`
unfoldable pub create_message : Time → Key → Key → Key → Action ChatState ChatMessage
create_message now room_id sender_id content = do
  raise_if (content == no_key) domain_error
  id ← gets (λ s. s.next_uuid)
  modify (λ s. record s { next_uuid = s.next_uuid + 1 })
  pure (record {
    room_id = room_id;
    message_id = id;
    sender_id = sender_id;
    content = content;
    created_at = now;
  })

abbrev pub room_is : Key → ChatRoom → Bool
room_is id r = is_key r.id id

abbrev pub is_room_of : Key → Key → ChatRoom → Bool
is_room_of building_id tenant_id r = r.building_id == building_id && r.tenant_id == tenant_id

unfoldable pub find_room : Key → ChatState → Option ChatRoom
find_room id s = find_first (room_is id) s.rooms

unfoldable pub find_by_building_and_tenant : Key → Key → ChatState → Option ChatRoom
find_by_building_and_tenant building_id tenant_id s =
    find_first (is_room_of building_id tenant_id) s.rooms

unfoldable pub find_by_participant : Key → ChatState → List ChatRoom
find_by_participant user_id s = find_many (is_participant user_id) s.rooms

-- The pair of building and tenant is unique: a second row is refused (P2002).
unfoldable pub save_room : ChatRoom → Action ChatState ChatRoom
save_room r = do
  taken ← gets (λ s. is_some (find_first (is_room_of r.building_id r.tenant_id) s.rooms))
  raise_if taken unique_violation
  row ← gets (λ s. record r { id = some s.next_id })
  modify (λ s. record s { rooms = s.rooms ++ row ∷ []; next_id = s.next_id + 1 })
  pure row

abbrev pub message_is : Key → ChatMessage → Bool
message_is id m = m.message_id == id

-- `persist`: a message that is there already (P2002) is left alone; one of an unknown room is
-- refused by the foreign key, and thrown on so that it is delivered again.
unfoldable pub persist : ChatMessage → Action ChatState (Unit {0})
persist m s = elim (find_first (message_is m.message_id) s.messages) [
  | some row ↦ (ok tt, s)
  | none ↦
      if is_some (find_first (room_is m.room_id) s.rooms)
      then (ok tt, record s { messages = s.messages ++ m ∷ [] })
      else (err outside_failure, s)
]

abbrev pub is_in_room : Key → ChatMessage → Bool
is_in_room room_id m = m.room_id == room_id

abbrev pub sent_at : ChatMessage → Time
sent_at m = m.created_at

unfoldable pub find_recent : Key → ℤ → ChatState → List ChatMessage
find_recent room_id limit s =
    take_rows limit (sort_newest sent_at (find_many (is_in_room room_id) s.messages))

-- RECENT_LIMIT
abbrev pub recent_limit : ℕ
recent_limit = 50

-- RECENT_TTL_SEC
abbrev pub recent_ttl : Time
recent_ttl = 86400000

abbrev pub is_recent_of : Key → Recent → Bool
is_recent_of room_id r = r.room_id == room_id

abbrev pub is_live_recent : Time → Key → Recent → Bool
is_live_recent now room_id r = r.room_id == room_id && ltb now r.expires_at

-- The list at the room's key: an empty one where there is no key.
unfoldable pub recent_list : Time → Key → ChatState → List ChatMessage
recent_list now room_id s = elim (find_first (is_live_recent now room_id) s.recents) [
  | none ↦ []
  | some r ↦ r.messages
]

-- `push`: LPUSH, LTRIM to the limit, and EXPIRE.
unfoldable pub push_recent : Time → ChatMessage → ChatState → ChatState
unfolding recent_list
push_recent now m s = record s {
  recents =
      delete_many (is_recent_of m.room_id) s.recents
      ++ record {
        room_id = m.room_id;
        messages = take recent_limit (m ∷ recent_list now m.room_id s);
        expires_at = now + recent_ttl;
      }
        ∷ [];
}

-- `LRANGE 0 (limit - 1)`: the limit 0 ends at the last member, a negative one before it.
abbrev pub lrange : {A : Type 0} → ℤ → List A → List A
lrange (pos n) xs = if n == 0 then xs else take n xs
lrange (negsuc n) xs = take (length xs - (n + 1)) xs

-- `getRecent`
unfoldable pub get_recent : Time → Key → ℤ → ChatState → List ChatMessage
get_recent now room_id limit s = lrange limit (recent_list now room_id s)
