-- ===== src/Chat/Hub.antt =====
-- All the sockets of all instances around src/chat/interface/chat.gateway.ts, and the channel of
-- src/chat/infrastructure/redis-message-relay.ts between the instances.
use estate_server.Base.{
  Bool, Key, List, Option, Time, [], false, find_first, get_elem?, includes, none, some, true,
  update_many, ℕ, ◌&&◌, ◌++◌, ◌==◌, ◌∷◌,
}
use estate_server.Events.{ChatMessage}
use estate_server.Chat.Store.{ChatState}
use estate_server.Chat.Cases.{Outside, ensure_room}
use estate_server.Chat.Gateway.{Socket, handle_connection, on_join, on_message}

-- A socket, the instance that it is connected to, and the events `message` that it was sent.
pub record Client : Type 0 where
  pub id : Key
  pub instance_id : Key
  pub socket : Socket
  pub received : List ChatMessage

-- `chat.relayed` is what was published on the channel.
pub record Hub : Type 0 where
  pub clients : List Client
  pub chat : ChatState

-- What happens at the gateways: a socket comes and goes and sends its events, the message at a place
-- of the channel reaches the subscription of an instance, and a room is asked for over HTTP.
pub data HubEvent : Type 0 where
  connect : (id instance_id : Key) → Option Key → HubEvent
  disconnect : (id : Key) → HubEvent
  join : (id room_id : Key) → HubEvent
  send : (id : Key) → Outside → Time → (room_id content : Key) → HubEvent
  heard : (instance_id : Key) (place : ℕ) → HubEvent
  ensured : (user_id building_id tenant_id : Key) → HubEvent

-- A socket before `handleConnection`.
abbrev pub new_socket : Socket
new_socket = record { user_id = none; joined = []; notices = []; connected = true }

abbrev pub new_client : (Key → Option (Option Key)) → Key → Key → Option Key → Client
new_client verify id instance_id token = record {
  id = id;
  instance_id = instance_id;
  socket = handle_connection verify token new_socket;
  received = [];
}

-- The library lets a socket that is gone leave its rooms.
abbrev pub close : Client → Client
close c = record c { socket = record c.socket { connected = false; joined = [] } }

abbrev pub is_open : Key → Client → Bool
is_open id c = c.id == id && c.socket.connected

abbrev pub joins : Key → ChatState → Client → Client
joins room_id s c = record c { socket = on_join room_id s c.socket }

abbrev pub says : Outside → Time → Key → Key → ChatState → Client → Client
says outside now room_id content s c = record c {
  socket = (on_message outside now room_id content c.socket s).0;
}

-- `server.to(message.roomId)`, on one instance.
abbrev pub hears : Key → ChatMessage → Client → Bool
hears instance_id m c =
    c.instance_id == instance_id && c.socket.connected && includes m.room_id c.socket.joined

-- `emit('message', message)`
abbrev pub receive : ChatMessage → Client → Client
receive m c = record c { received = c.received ++ m ∷ [] }

-- The handler that `onModuleInit` subscribes.
unfoldable pub relay_to : Key → ChatMessage → List Client → List Client
relay_to instance_id m clients = update_many (hears instance_id m) (receive m) clients

-- An event `message` of a socket, if it is there.
unfoldable pub send_from : Option Client → Outside → Time → Key → Key → Hub → Hub
unfolding on_message
send_from none outside now room_id content h = h
send_from (some c) outside now room_id content h = record {
  clients = update_many (is_open c.id) (says outside now room_id content h.chat) h.clients;
  chat = (on_message outside now room_id content c.socket h.chat).1;
}

unfoldable pub hear_at : Key → Option ChatMessage → Hub → Hub
unfolding relay_to
hear_at instance_id none h = h
hear_at instance_id (some m) h = record h { clients = relay_to instance_id m h.clients }

module _ (verify : Key → Option (Option Key)) where
  unfoldable pub step : HubEvent → Hub → Hub
  unfolding handle_connection on_join send_from hear_at ensure_room
  step (connect id instance_id token) h = record h {
    clients = h.clients ++ new_client verify id instance_id token ∷ [];
  }
  step (disconnect id) h = record h { clients = update_many (is_open id) close h.clients }
  step (join id room_id) h = record h {
    clients = update_many (is_open id) (joins room_id h.chat) h.clients;
  }
  step (send id outside now room_id content) h =
      send_from (find_first (is_open id) h.clients) outside now room_id content h
  step (heard instance_id place) h = hear_at instance_id (get_elem? h.chat.relayed place) h
  step (ensured user_id building_id tenant_id) h = record h {
    chat = (ensure_room user_id building_id tenant_id h.chat).1;
  }

  unfoldable pub steps : List HubEvent → Hub → Hub
  unfolding step
  steps [] h = h
  steps (e ∷ es) h = steps es (step e h)
