-- ===== src/Chat/Audience.antt =====
-- Every state that the gateways of src/chat/interface/chat.gateway.ts reach keeps the messages of a
-- room among its participants.
use estate_server.Base.{
  All, All-append, All-get_elem?, All-map, Bool-cases, Key, List, Option, Option-cases, Time, [],
  find_first, get_or, get_elem?, inl, inr, no_key, none, refl, some, ◌==◌, ◌∷◌, ◌≡◌,
}
use estate_server.Events.{ChatMessage}
use estate_server.Chat.Store.{ChatState}
use estate_server.Chat.Cases.{Outside, ensure_room, send_message}
use estate_server.Chat.Gateway.{handle_connection, on_message}
use estate_server.Chat.Access.{IsFromParticipant, IsGenuine, send_message-IsGenuine}
use estate_server.Chat.Growth.{
  Grows, IsFromParticipant-Grows, OnlyRooms, ensure_room-OnlyRooms, same-Grows, send_message-rooms,
}
use estate_server.Chat.Hub.{
  Client, Hub, HubEvent, connect, disconnect, join, send, heard, ensured, new_client, close,
  hear_at, hears, is_open, joins, receive, relay_to, says, send_from, step, steps,
}
use estate_server.Chat.Privacy.{
  IsPrivate, IsSafe, MaySee, grown-IsPrivate, joins-IsPrivate, receive-IsPrivate, says-IsPrivate,
  update-IsPrivate,
}

-- What an event of a socket leaves in the tables.
record Follows (s s' : ChatState) : Type 0 where
  grows : Grows s s'
  genuine : IsGenuine s → IsGenuine s'

on_message-Follows :
    (outside : Outside) (now : Time) (room_id content : Key) (c : Client) (s : ChatState)
    → Follows s (on_message outside now room_id content c.socket s).1
unfolding on_message
on_message-Follows outside now room_id content c s = elim (Option-cases c.socket.user_id) [
  | inl stranger ↦
      rw (on_message, stranger) (record { grows = same-Grows s s refl; genuine = λ g. g })
  | inr (user, known) ↦ elim (Bool-cases (user == no_key)) [
    | inl nobody ↦
        rw (on_message, known, nobody) (record { grows = same-Grows s s refl; genuine = λ g. g })
    | inr somebody ↦
        rw (on_message, known, somebody)
          (record {
            grows =
                same-Grows s (send_message outside now user room_id content s).1
                  (send_message-rooms outside now user room_id content s);
            genuine = send_message-IsGenuine outside now user room_id content s;
          })
  ]
]

OnlyRooms-IsGenuine : (s s' : ChatState) → OnlyRooms s s' → IsGenuine s → IsGenuine s'
OnlyRooms-IsGenuine s s' (grown, relayed, recents) g = record {
  relayed = rw relayed (All-map _ _ s.relayed (IsFromParticipant-Grows s s' grown) g.relayed);
  cached = rw recents (
      All-map _ _ s.recents (λ r ms. All-map _ _ r.messages (IsFromParticipant-Grows s s' grown) ms)
        g.cached);
}

module _ (verify : Key → Option (Option Key)) where
  new_client-IsPrivate :
      (s : ChatState) (id instance_id : Key) (token : Option Key)
      → IsPrivate s (new_client verify id instance_id token)
  unfolding handle_connection
  new_client-IsPrivate s id instance_id token = elim (Option-cases (verify (get_or token no_key))) [
    | inl refused ↦ rw (handle_connection, refused) (record { joined = tt; seen = tt })
    | inr (sub, known) ↦ rw (handle_connection, known) (record { joined = tt; seen = tt })
  ]

  send_from-IsSafe :
      (found : Option Client) (outside : Outside) (now : Time) (room_id content : Key) (h : Hub)
      → IsSafe h
      → IsSafe (send_from found outside now room_id content h)
  unfolding send_from
  send_from-IsSafe none outside now room_id content h safe = safe
  send_from-IsSafe (some c) outside now room_id content h safe =
      let s' = (on_message outside now room_id content c.socket h.chat).1 in
      let f = on_message-Follows outside now room_id content c h.chat in
      let said =
        update-IsPrivate h.chat (is_open c.id) (says outside now room_id content h.chat) h.clients
          (λ k hit p. says-IsPrivate h.chat outside now room_id content k p) safe.clients in
      record {
        clients = grown-IsPrivate h.chat s' _ f.grows said;
        genuine = f.genuine safe.genuine;
      }

  hear_at-IsSafe :
      (instance_id : Key) (m : Option ChatMessage) (h : Hub)
      → ((n : ChatMessage) → m ≡ some n → IsFromParticipant h.chat.rooms n)
      → IsSafe h
      → IsSafe (hear_at instance_id m h)
  unfolding hear_at relay_to
  hear_at-IsSafe instance_id none h genuine safe = safe
  hear_at-IsSafe instance_id (some m) h genuine safe = record {
    clients =
        update-IsPrivate h.chat (hears instance_id m) (receive m) h.clients
          (λ c hit p. receive-IsPrivate h.chat instance_id m c hit (genuine m refl) p) safe.clients;
    genuine = safe.genuine;
  }

  step-IsSafe : (e : HubEvent) (h : Hub) → IsSafe h → IsSafe (step verify e h)
  unfolding step
  step-IsSafe (connect id instance_id token) h safe = record {
    clients =
        All-append (IsPrivate h.chat) h.clients _ safe.clients
          (new_client-IsPrivate h.chat id instance_id token, tt);
    genuine = safe.genuine;
  }
  step-IsSafe (disconnect id) h safe = record {
    clients =
        update-IsPrivate h.chat (is_open id) close h.clients
          (λ c hit p. record { joined = tt; seen = p.seen }) safe.clients;
    genuine = safe.genuine;
  }
  step-IsSafe (join id room_id) h safe = record {
    clients =
        update-IsPrivate h.chat (is_open id) (joins room_id h.chat) h.clients
          (λ c hit p. joins-IsPrivate h.chat room_id c p) safe.clients;
    genuine = safe.genuine;
  }
  step-IsSafe (send id outside now room_id content) h safe =
      send_from-IsSafe (find_first (is_open id) h.clients) outside now room_id content h safe
  step-IsSafe (heard instance_id place) h safe =
      hear_at-IsSafe instance_id (get_elem? h.chat.relayed place) h
        (λ n at. All-get_elem? _ place h.chat.relayed safe.genuine.relayed at) safe
  step-IsSafe (ensured user_id building_id tenant_id) h safe =
      let s' = (ensure_room user_id building_id tenant_id h.chat).1 in
      let only = ensure_room-OnlyRooms user_id building_id tenant_id h.chat in
      record {
        clients = grown-IsPrivate h.chat s' h.clients only.0 safe.clients;
        genuine = OnlyRooms-IsGenuine h.chat s' only safe.genuine;
      }

  steps-IsSafe : (es : List HubEvent) (h : Hub) → IsSafe h → IsSafe (steps verify es h)
  unfolding steps
  steps-IsSafe [] h safe = safe
  steps-IsSafe (e ∷ es) h safe = steps-IsSafe es (step verify e h) (step-IsSafe e h safe)

  -- If no socket is connected yet and every message that was relayed or is cached has a sender who
  -- is a participant of its room, then after any list of connections, events of sockets, deliveries
  -- of the channel and requests for rooms, each socket has been sent only messages whose sender and
  -- whose receiver, the user that its token named, are participants of the room of the message.
  pub only_participants_receive :
      (es : List HubEvent) (s : ChatState)
      → IsGenuine s
      → let h = steps verify es (record { clients = []; chat = s }) in
        All (λ (c : Client). All (MaySee h.chat c.socket.user_id) c.received) h.clients
  only_participants_receive es s genuine =
      let safe =
        steps-IsSafe es (record { clients = []; chat = s })
          (record { clients = tt; genuine = genuine }) in
      All-map _ _ _ (λ c p. p.seen) safe.clients
