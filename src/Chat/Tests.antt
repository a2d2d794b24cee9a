-- ===== src/Chat/Tests.antt =====
-- One room of a landlord (10) and a tenant (20).
use mathlib.Core.Option
use estate_server.Base.{
  All, Key, Option, includes, map, update_many, if◌then◌else◌, ◌==◌, List, [], arith, count_where,
  find_first, min, none, ok, refl, some, take, true, ◌+◌, ◌∷◌, ◌≡◌,
}
use estate_server.Events.{ChatMessage, DomainEvent}
use estate_server.Base.Int.{pos}
use estate_server.Property.Entities.{Building, HouseUnit, Lease, active}
use estate_server.Property.Store.{PropertyState, find_building, is_member}
use estate_server.Chat.Store.{
  create_message, ChatRoom, ChatState, create_room, save_room, find_by_building_and_tenant,
  is_participant, find_room, message_is, push_recent, get_recent, recent_list,
}
use estate_server.Chat.Cases.{
  Outside, ensure_room, ensure, publish, send_message, read_history, message_event,
}
use estate_server.Chat.Gateway.{handle_connection, on_join, on_message}
use estate_server.Chat.Hub.{
  Client, Hub, HubEvent, connect, disconnect, join, send, heard, send_from, hear_at, relay_to, step,
  steps,
}
use estate_server.Chat.Privacy.{MaySee}
use estate_server.Chat.Audience.{only_participants_receive}
use estate_server.Chat.Recent.{pushes, newest_first, get_recent_refines, history_after_silence}
use estate_server.Chat.Delivery.{accepted, consume, persisted_once}

abbrev building : Building
building = record { id = some 1; owner_id = 10; name = 100; address = 101; deleted_at = none }

abbrev flat : HouseUnit
flat = record { id = some 2; building_id = 1; name = 102; floor = pos 3; deleted_at = none }

abbrev tenancy : Lease
tenancy = record { id = some 3; unit_id = 2; tenant_id = 20; status = active; ended_at = none }

abbrev property : PropertyState
property = record {
  buildings = building ∷ [];
  units = flat ∷ [];
  leases = tenancy ∷ [];
  invites = [];
  events = [];
  next_id = 4;
  next_uuid = 50;
  draws = 0;
}

abbrev room : ChatRoom
room = record { id = some 5; building_id = 1; owner_id = 10; tenant_id = 20 }

abbrev empty : ChatState
empty = record {
  property = property;
  rooms = [];
  messages = [];
  recents = [];
  relayed = [];
  published = [];
  next_id = 5;
  next_uuid = 60;
}

abbrev ready : ChatState
ready = record empty { rooms = room ∷ []; next_id = 6 }

abbrev hello : ChatMessage
hello = record { room_id = 5; message_id = 60; sender_id = 20; content = 7; created_at = 1000 }

abbrev answer : ChatMessage
answer = record { room_id = 5; message_id = 61; sender_id = 10; content = 8; created_at = 2000 }

get_recent_refines_example :
    get_recent 3000 5 (pos 1) (pushes ((1000, hello) ∷ (2000, answer) ∷ []) ready)
    ≡ take 1 (newest_first ((1000, hello) ∷ (2000, answer) ∷ []) (recent_list 1000 5 ready))
get_recent_refines_example =
    get_recent_refines 5 3000 ((2000, answer) ∷ []) 1000 hello ready 1 refl
      (refl, omega arith, omega arith) (omega arith) (omega arith)

-- The table has an older message, which the cache has lost.
abbrev silent : ChatState
silent = record ready { messages = hello ∷ [] }

history_after_silence_example :
    (read_history 90000000 20 5 (some (pos 0)) (push_recent 90000000 answer silent)).0
    ≡ ok (answer ∷ [])
unfolding find_room find_first is_participant recent_list
history_after_silence_example =
    history_after_silence 90000000 90000000 20 5 0 answer silent refl refl refl refl (omega arith)

abbrev working : Outside
working = record { relay_up = true; cache_up = true; broker_up = true }

-- The tenant's socket on one instance, the landlord's on another, and a stranger's.
abbrev verify : Key → Option (Option Key)
verify token =
    if token == 110
    then some (some 10)
    else if token == 120
    then some (some 20)
    else if token == 130
    then some (some 30)
    else none

abbrev evening : List HubEvent
evening =
    connect 1 7 (some 120)
    ∷ connect 2 8 (some 110)
    ∷ connect 3 8 (some 130)
    ∷ join 1 5
    ∷ join 2 5
    ∷ join 3 5
    ∷ send 1 working 1000 5 7
    ∷ heard 7 0
    ∷ heard 8 0
    ∷ disconnect 1
    ∷ []

abbrev night : Hub
night = steps verify evening (record { clients = []; chat = ready })

heard_by_two :
    map (λ (c : Client). c.received) night.clients ≡ (hello ∷ []) ∷ (hello ∷ []) ∷ [] ∷ []
unfolding steps step handle_connection on_join on_message send_from hear_at relay_to send_message
    create_message publish push_recent recent_list update_many find_first find_room is_participant
    includes
heard_by_two = refl

only_participants_receive_example :
    All (λ (c : Client). All (MaySee night.chat c.socket.user_id) c.received) night.clients
only_participants_receive_example =
    only_participants_receive verify evening ready (record { relayed = tt; cached = tt })

ensured : (ensure_room 20 1 20 empty).0 ≡ ok room
unfolding ensure_room ensure find_building is_member find_by_building_and_tenant find_first
    create_room save_room
ensured = refl

ensured_by_landlord : (ensure_room 10 1 20 empty).0 ≡ ok room
unfolding ensure_room ensure find_building is_member find_by_building_and_tenant find_first
    create_room save_room
ensured_by_landlord = refl

abbrev twice : List DomainEvent
twice = message_event hello 90 ∷ message_event hello 90 ∷ []

persisted_once_example :
    let stored = (consume twice ready).messages in
    (count_where (message_is 60) stored
      ≡ min 1 (
          count_where (message_is 60) ready.messages
          + count_where (message_is 60) (accepted ready.rooms twice)))
    × (find_first (message_is 60) stored
        ≡ Option.or_else
            (find_first (message_is 60) ready.messages)
            (find_first (message_is 60) (accepted ready.rooms twice)))
unfolding count_where
persisted_once_example = persisted_once twice ready 60 (omega arith)
