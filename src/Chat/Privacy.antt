-- ===== src/Chat/Privacy.antt =====
-- Whom the gateways of src/chat/interface/chat.gateway.ts send the messages of a room.
use estate_server.Base.{
  Result, ok, err, All, All-append, All-map, All-update_many, Bool, Bool-cases, Key, List, Option,
  Option-cases, Time, [], arith, includes, inl, inr, none, no_key, refl, some, true, update_many,
  ◌==◌, ==_iff, ◌∙◌, ◌∷◌, ◌≡◌,
}
use estate_server.Events.{ChatMessage}
use estate_server.Chat.Store.{ChatRoom, ChatState, find_room, is_participant}
use estate_server.Chat.Cases.{Outside, send_message}
use estate_server.Chat.Gateway.{
  IsAdmitted, Socket, join_as, join_of, on_join, on_join-IsAdmitted, on_message, tell_error,
}
use estate_server.Chat.Access.{IsFromParticipant, IsGenuine}
use estate_server.Chat.Growth.{Grows, IsAdmitted-Grows, IsFromParticipant-Grows}
use estate_server.Chat.Hub.{Client, Hub, joins, says, hears, receive}

-- A message that a client may see: its user and its sender are participants of its room.
abbrev pub MaySee : ChatState → Option Key → ChatMessage → Type 0
MaySee s user_id m = IsAdmitted s user_id m.room_id × IsFromParticipant s.rooms m

-- The client has joined, and has received, what is its user's.
pub record IsPrivate (s : ChatState) (c : Client) : Type 0 where
  pub joined : All (IsAdmitted s c.socket.user_id) c.socket.joined
  pub seen : All (MaySee s c.socket.user_id) c.received

pub record IsSafe (h : Hub) : Type 0 where
  pub clients : All (IsPrivate h.chat) h.clients
  pub genuine : IsGenuine h.chat

IsPrivate-Grows : (s s' : ChatState) → Grows s s' → (c : Client) → IsPrivate s c → IsPrivate s' c
IsPrivate-Grows s s' grown c p = record {
  joined =
      All-map _ _ c.socket.joined (λ r a. IsAdmitted-Grows s s' grown c.socket.user_id r a)
        p.joined;
  seen =
      All-map _ _ c.received
        (λ m a. (
          IsAdmitted-Grows s s' grown c.socket.user_id m.room_id a.0,
          IsFromParticipant-Grows s s' grown m a.1,
        ))
        p.seen;
}

-- The socket is still of the same user, in the same rooms.
record Same (k k' : Socket) : Type 0 where
  user : k'.user_id ≡ k.user_id
  rooms : k'.joined ≡ k.joined

join_as-user :
    (user room_id : Key) (found : Option ChatRoom) (k : Socket)
    → (join_as user room_id found k).user_id ≡ k.user_id
join_as-user user room_id none k = refl
join_as-user user room_id (some room) k = elim (Bool-cases (is_participant user room)) [
  | inl member ↦ rw member refl
  | inr outsider ↦ rw outsider refl
]

join_of-user :
    (user_id : Option Key) (room_id : Key) (s : ChatState) (k : Socket)
    → (join_of user_id room_id s k).user_id ≡ k.user_id
join_of-user none room_id s k = refl
join_of-user (some user) room_id s k = elim (Bool-cases (user == no_key)) [
  | inl nobody ↦ rw nobody refl
  | inr somebody ↦ rw somebody (join_as-user user room_id (find_room room_id s) k)
]

on_join-user :
    (room_id : Key) (s : ChatState) (k : Socket) → (on_join room_id s k).user_id ≡ k.user_id
unfolding on_join
on_join-user room_id s k = join_of-user k.user_id room_id s k

tell_error-Same : {A : Type 0} (r : Result A) (k : Socket) → Same k (tell_error r k)
tell_error-Same (ok a) k = record { user = refl; rooms = refl }
tell_error-Same (err e) k = record { user = refl; rooms = refl }

on_message-Same :
    (outside : Outside) (now : Time) (room_id content : Key) (k : Socket) (s : ChatState)
    → Same k (on_message outside now room_id content k s).0
unfolding on_message
on_message-Same outside now room_id content k s = elim (Option-cases k.user_id) [
  | inl stranger ↦ rw (on_message, stranger) (record { user = stranger; rooms = refl })
  | inr (user, known) ↦ elim (Bool-cases (user == no_key)) [
    | inl nobody ↦ rw (on_message, known, nobody) (record { user = known; rooms = refl })
    | inr somebody ↦
        rw (on_message, known, somebody)
          (let t = tell_error-Same (send_message outside now user room_id content s).0 k in
            record { user = t.user ∙ known; rooms = t.rooms })
  ]
]

includes-IsAdmitted :
    (s : ChatState) (user_id : Option Key) (room_id : Key) (rooms : List Key)
    → includes room_id rooms ≡ true
    → All (IsAdmitted s user_id) rooms
    → IsAdmitted s user_id room_id
unfolding includes
includes-IsAdmitted s user_id room_id [] h a = cc
includes-IsAdmitted s user_id room_id (r ∷ rooms) h (a, as_) = elim (Bool-cases (r == room_id)) [
  | inl same ↦ let it = (==_iff r room_id).0 same in rw (← it) a
  | inr other ↦ includes-IsAdmitted s user_id room_id rooms (ground arith) as_
]

-- The room of the client is one that its user may see.
hears-MaySee :
    (s : ChatState) (instance_id : Key) (m : ChatMessage) (c : Client)
    → hears instance_id m c ≡ true
    → IsFromParticipant s.rooms m
    → IsPrivate s c
    → MaySee s c.socket.user_id m
hears-MaySee s instance_id m c heard_it genuine p = (
  includes-IsAdmitted s c.socket.user_id m.room_id c.socket.joined (ground arith) p.joined,
  genuine,
)

-- An update of the clients that keeps each of them private.
pub update-IsPrivate :
    (s : ChatState) (p : Client → Bool) (f : Client → Client) (clients : List Client)
    → ((c : Client) → p c ≡ true → IsPrivate s c → IsPrivate s (f c))
    → All (IsPrivate s) clients
    → All (IsPrivate s) (update_many p f clients)
update-IsPrivate s p f clients keep h =
    All-update_many (IsPrivate s) (IsPrivate s) p f clients
      (λ c private_. elim (Bool-cases (p c)) [
        | inl hit ↦ rw hit (keep c hit private_)
        | inr miss ↦ rw miss private_
      ])
      h

pub joins-IsPrivate :
    (s : ChatState) (room_id : Key) (c : Client) → IsPrivate s c → IsPrivate s (joins room_id s c)
joins-IsPrivate s room_id c p =
    let same = on_join-user room_id s c.socket in
    record {
      joined = rw same (on_join-IsAdmitted room_id s c.socket p.joined);
      seen = rw same p.seen;
    }

pub says-IsPrivate :
    (s : ChatState) (outside : Outside) (now : Time) (room_id content : Key) (c : Client)
    → IsPrivate s c
    → IsPrivate s (says outside now room_id content s c)
says-IsPrivate s outside now room_id content c p =
    let same = on_message-Same outside now room_id content c.socket s in
    record { joined = rw (same.user, same.rooms) p.joined; seen = rw same.user p.seen }

pub receive-IsPrivate :
    (s : ChatState) (instance_id : Key) (m : ChatMessage) (c : Client)
    → hears instance_id m c ≡ true
    → IsFromParticipant s.rooms m
    → IsPrivate s c
    → IsPrivate s (receive m c)
receive-IsPrivate s instance_id m c heard_it genuine p = record {
  joined = p.joined;
  seen =
      All-append (MaySee s c.socket.user_id) c.received (m ∷ []) p.seen
        (hears-MaySee s instance_id m c heard_it genuine p, tt);
}

pub grown-IsPrivate :
    (s s' : ChatState) (clients : List Client)
    → Grows s s'
    → All (IsPrivate s) clients
    → All (IsPrivate s') clients
grown-IsPrivate s s' clients grown h = All-map _ _ clients (λ c p. IsPrivate-Grows s s' grown c p) h
