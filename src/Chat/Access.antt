-- ===== src/Chat/Access.antt =====
-- Who sends into a room and who reads it: send-message and get-messages of src/chat/application.
use estate_server.Base.{
  All, All-append, All-delete_many, All-take, Bool-cases, Key, List, Option-cases, Time, [], arith,
  delete_many, domain_error, err, false, find_first, find_first-All, find_many, if◌then◌else◌, inl,
  inr, length, length-take-le, min, no_key, none, not_room_participant, ok, outside_failure,
  room_not_found, some, sort_newest, true, ℕ, ◌++◌, ◌+◌, ◌<◌, ◌==◌, ◌∷◌, ◌≡◌, ◌≤◌, ◌⊎◌,
}
use estate_server.Base.Int.{ℤ, pos}
use estate_server.Events.{ChatMessage}
use estate_server.Chat.Store.{
  ChatRoom, ChatState, Recent, is_in_room, sent_at, is_participant, create_message, find_room,
  room_is, push_recent, recent_list, get_recent, find_recent, recent_limit, is_live_recent,
  is_recent_of,
}
use estate_server.Chat.Cases.{
  Outside, send_message, publish, message_event, get_messages, read_history, or_else_rows,
}

-- The sender of a message is a participant of its room.
pub record IsFromParticipant (rooms : List ChatRoom) (m : ChatMessage) : Type 0 where
  pub room : ChatRoom
  pub found : find_first (room_is m.room_id) rooms ≡ some room
  pub member : is_participant m.sender_id room ≡ true

-- Of every message that was relayed or is cached.
pub record IsGenuine (s : ChatState) : Type 0 where
  pub relayed : All (IsFromParticipant s.rooms) s.relayed
  pub cached : All (λ (r : Recent). All (IsFromParticipant s.rooms) r.messages) s.recents

module _ (outside : Outside) (now : Time) (user_id room_id content : Key) (s : ChatState) where
  abbrev sent : ChatMessage
  sent = record {
    room_id = room_id;
    message_id = s.next_uuid;
    sender_id = user_id;
    content = content;
    created_at = now;
  }

  abbrev drawn : ChatState
  drawn = record s { next_uuid = s.next_uuid + 1 }

  abbrev relayed_state : ChatState
  relayed_state = record s { next_uuid = s.next_uuid + 1; relayed = s.relayed ++ sent ∷ [] }

  refused_missing :
      find_room room_id s ≡ none
      → send_message outside now user_id room_id content s ≡ (err room_not_found, s)
  unfolding send_message
  refused_missing e = ground arith

  refused_outsider :
      {room : ChatRoom}
      → find_room room_id s ≡ some room
      → is_participant user_id room ≡ false
      → send_message outside now user_id room_id content s ≡ (err not_room_participant, s)
  unfolding send_message
  refused_outsider e f = ground arith

  module _ (v : IsGenuine s) {room : ChatRoom} (found : find_room room_id s ≡ some room)
      (member : is_participant user_id room ≡ true) where
    genuine : IsFromParticipant s.rooms sent
    unfolding find_room
    genuine = record { room = room; found = found; member = member }

    recent_list-genuine : All (IsFromParticipant s.rooms) (recent_list now room_id s)
    unfolding recent_list
    recent_list-genuine = elim (Option-cases (find_first (is_live_recent now room_id) s.recents)) [
      | inl missing ↦ rw (recent_list, missing) tt
      | inr (r, there) ↦
          rw (recent_list, there)
            (find_first-All (λ (x : Recent). All (IsFromParticipant s.rooms) x.messages)
              (is_live_recent now room_id) s.recents v.cached there)
    ]

    relayed_state-IsGenuine : IsGenuine relayed_state
    relayed_state-IsGenuine = record {
      relayed = All-append _ s.relayed (sent ∷ []) v.relayed (genuine, tt);
      cached = v.cached;
    }

    pushed-IsGenuine : IsGenuine (push_recent now sent relayed_state)
    unfolding push_recent recent_list
    pushed-IsGenuine = record {
      relayed = relayed_state-IsGenuine.relayed;
      cached =
          All-append _ (delete_many (is_recent_of room_id) s.recents) _
            (All-delete_many _ (is_recent_of room_id) s.recents v.cached)
            (
              All-take _ recent_limit (sent ∷ recent_list now room_id s)
                  (genuine, recent_list-genuine),
              tt,
            );
    }

    -- What a participant's message leaves behind, whatever answers.
    send_message-participant :
        (send_message outside now user_id room_id content s ≡ (err domain_error, s))
        ⊎ (send_message outside now user_id room_id content s ≡ (err outside_failure, drawn))
        ⊎ (send_message outside now user_id room_id content s
            ≡ (err outside_failure, relayed_state))
        ⊎ (send_message outside now user_id room_id content s ≡ (
          ok sent,
          (publish outside.broker_up (message_event sent) (push_recent now sent relayed_state)).1,
        ))
    unfolding send_message create_message publish
    send_message-participant = elim (Bool-cases (content == no_key)) [
      | inl blank ↦ inl (ground arith)
      | inr filled ↦ elim (Bool-cases outside.relay_up) [
        | inr down ↦ inr (inl (ground arith))
        | inl up ↦ elim (Bool-cases outside.cache_up) [
          | inr cold ↦ inr (inr (inl (ground arith)))
          | inl warm ↦ inr (inr (inr (ground arith)))
        ]
      ]
    ]

  -- If every message that was relayed or is cached has a sender who is a participant of its
  -- room, then so it is after a message is sent, whoever sends it, whatever the request
  -- answers, and whichever of the outside systems fail.
  pub send_message-IsGenuine :
      IsGenuine s → IsGenuine (send_message outside now user_id room_id content s).1
  unfolding publish
  send_message-IsGenuine v = elim (Option-cases (find_room room_id s)) [
    | inl missing ↦ rw (refused_missing missing) v
    | inr (room, found) ↦ elim (Bool-cases (is_participant user_id room)) [
      | inr outsider ↦ rw (refused_outsider found outsider) v
      | inl member ↦ elim (send_message-participant v found member) [
        | inl e ↦ rw e v
        | inr (inl e) ↦ rw e (record { relayed = v.relayed; cached = v.cached })
        | inr (inr (inl e)) ↦ rw e (relayed_state-IsGenuine v found member)
        | inr (inr (inr e)) ↦
            let p = pushed-IsGenuine v found member in
            rw e (record { relayed = p.relayed; cached = p.cached })
      ]
    ]
  ]

module _ (now : Time) (user_id room_id : Key) (s : ChatState) where
  get_messages-participant :
      (limit : ℤ) {ms : List ChatMessage}
      → (get_messages now user_id room_id limit s).0 ≡ ok ms
      → ((room : ChatRoom) × (find_room room_id s ≡ some room)
          × (is_participant user_id room ≡ true))
        × (ms ≡ or_else_rows (get_recent now room_id limit s) (find_recent room_id limit s))
  unfolding get_messages
  get_messages-participant limit {ms} e = elim (Option-cases (find_room room_id s)) [
    | inl missing ↦ absurd (ground arith)
    | inr (room, found) ↦ elim (Bool-cases (is_participant user_id room)) [
      | inr outsider ↦ absurd (ground arith)
      | inl member ↦ ((room, found, member), ground arith)
    ]
  ]

  length-or_else_rows :
      (n : ℕ) (ms rows : List ChatMessage)
      → length ms ≤ n
      → length rows ≤ n
      → length (or_else_rows ms rows) ≤ n
  length-or_else_rows n [] rows h k = k
  length-or_else_rows n (m ∷ ms) rows h k = h

  pub page-le :
      (k : ℕ)
      → 0 < k
      → k ≤ recent_limit
      → length (or_else_rows (get_recent now room_id (pos k) s) (find_recent room_id (pos k) s))
        ≤ recent_limit
  unfolding get_recent find_recent
  page-le k positive small =
      let some_of : (k == 0) ≡ false = ground arith in
      length-or_else_rows recent_limit (get_recent now room_id (pos k) s)
        (find_recent room_id (pos k) s)
        (rw some_of (omega (arith, length-take-le k (recent_list now room_id s))))
        (omega (
          arith,
          length-take-le k (sort_newest sent_at (find_many (is_in_room room_id) s.messages)),
        ))

  -- If a request for the history of a room with a limit that is not negative answers with
  -- messages, then the room is there, the user who asked is a participant of it, and the
  -- messages are at most fifty.
  pub read_history_bounded :
      (n : ℕ) {ms : List ChatMessage}
      → (read_history now user_id room_id (some (pos n)) s).0 ≡ ok ms
      → ((room : ChatRoom) × (find_room room_id s ≡ some room)
          × (is_participant user_id room ≡ true))
        × (length ms ≤ recent_limit)
  unfolding read_history
  read_history_bounded n {ms} e =
      let k = if n == 0 then recent_limit else min n recent_limit in
      let (room, same) = get_messages-participant (pos k) e in
      (room, rw same (page-le k (ground arith) (ground arith)))
