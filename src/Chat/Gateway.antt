-- ===== src/Chat/Gateway.antt =====
-- src/chat/interface/chat.gateway.ts: the handlers of a socket.
use estate_server.Base.{
  All, All-append, AppError, Bool, Bool-cases, Key, List, Option, Result, Time, [], err, false,
  get_or, if◌then◌else◌, inl, inr, no_key, none, ok, refl, some, true, ◌++◌, ◌==◌, ◌∷◌, ◌≡◌,
}
use estate_server.Chat.Store.{ChatRoom, ChatState, find_room, is_participant}
use estate_server.Chat.Cases.{Outside, send_message}

-- What the client is told by an event `error`.
pub data Notice : Type 0 where
  not_participant : Notice
  refused : AppError → Notice

-- A socket: `client.data.userId`, the rooms it has joined, what it was told, and whether it is
-- connected.
pub record Socket : Type 0 where
  pub user_id : Option Key
  pub joined : List Key
  pub notices : List Notice
  pub connected : Bool

-- `handleConnection`; `verify` throws, or gives the subject of a token, which an onboarding token
-- lacks.
unfoldable pub handle_connection : (Key → Option (Option Key)) → Option Key → Socket → Socket
handle_connection verify token k = elim (verify (get_or token no_key)) [
  | none ↦ record k { connected = false }
  | some sub ↦ record k { user_id = sub }
]

abbrev pub tell : Notice → Socket → Socket
tell n k = record k { notices = k.notices ++ n ∷ [] }

-- `onJoin`, with the user that the socket is of.
abbrev pub join_as : Key → Key → Option ChatRoom → Socket → Socket
join_as user_id room_id none k = tell not_participant k
join_as user_id room_id (some room) k =
    if is_participant user_id room
    then record k { joined = k.joined ++ room_id ∷ [] }
    else tell not_participant k

abbrev pub join_of : Option Key → Key → ChatState → Socket → Socket
join_of none room_id s k = tell not_participant k
join_of (some user_id) room_id s k =
    if user_id == no_key
    then tell not_participant k
    else join_as user_id room_id (find_room room_id s) k

unfoldable pub on_join : Key → ChatState → Socket → Socket
on_join room_id s k = join_of k.user_id room_id s k

-- The `catch` block of `onMessage`.
abbrev pub tell_error : {A : Type 0} → Result A → Socket → Socket
tell_error (ok a) k = k
tell_error (err e) k = tell (refused e) k

-- `onMessage`
unfoldable pub on_message : Outside → Time → Key → Key → Socket → ChatState → Socket × ChatState
on_message outside now room_id content k s = elim k.user_id [
  | none ↦ (k, s)
  | some user_id ↦
      if user_id == no_key
      then (k, s)
      else let (r, s') = send_message outside now user_id room_id content s in (tell_error r k, s')
]

-- The socket is of a participant of the room.
pub record IsAdmitted (s : ChatState) (user_id : Option Key) (room_id : Key) : Type 0 where
  pub user : Key
  pub known : user_id ≡ some user
  pub room : ChatRoom
  pub found : find_room room_id s ≡ some room
  pub member : is_participant user room ≡ true

module _ (room_id : Key) (s : ChatState) (k : Socket)
    (h : All (IsAdmitted s k.user_id) k.joined) where
  join_as-IsAdmitted :
      (user : Key) (found : Option ChatRoom)
      → k.user_id ≡ some user
      → find_room room_id s ≡ found
      → All (IsAdmitted s k.user_id) (join_as user room_id found k).joined
  join_as-IsAdmitted user none known e = h
  join_as-IsAdmitted user (some room) known e = elim (Bool-cases (is_participant user room)) [
    | inr outsider ↦ rw outsider h
    | inl member ↦ rw member (
        All-append (IsAdmitted s k.user_id) k.joined (room_id ∷ []) h
          (record { user = user; known = known; room = room; found = e; member = member }, tt))
  ]

  join_of-IsAdmitted :
      (user_id : Option Key)
      → k.user_id ≡ user_id
      → All (IsAdmitted s k.user_id) (join_of user_id room_id s k).joined
  join_of-IsAdmitted none e = h
  join_of-IsAdmitted (some user) e = elim (Bool-cases (user == no_key)) [
    | inl nobody ↦ rw nobody h
    | inr somebody ↦ rw somebody (join_as-IsAdmitted user (find_room room_id s) e refl)
  ]

  -- A socket joins no room but those that its user is a participant of.
  pub on_join-IsAdmitted : All (IsAdmitted s k.user_id) (on_join room_id s k).joined
  unfolding on_join
  on_join-IsAdmitted = join_of-IsAdmitted k.user_id refl
