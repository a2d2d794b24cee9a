-- ===== src/Chat/Delivery.antt =====
-- The worker that writes the messages down: src/chat/infrastructure/chat-persistence.controller.ts.
use mathlib.Core.Option
use mathlib.Core.Path.{subst}
use estate_server.Base.{
  Bool, Bool-cases, Key, List, Option-cases, [], count_where, count_where-keep_all, find_first,
  find_first-keep_all, if◌then◌else◌, inl, inr, is_some, keep_all, keep_once, min, refl, ◌+◌, ◌∙◌,
  ◌∷◌, ◌≡◌, ◌≤◌,
}
use estate_server.Events.{
  ChatMessage, DomainEvent, Payload, of_message, of_post, of_comment, of_like, of_join, of_end,
}
use estate_server.Chat.Store.{ChatRoom, ChatState, room_is, message_is, persist}
use estate_server.Chat.Cases.{on_message_sent, persist_payload}

abbrev pub id_of : ChatMessage → Key
id_of m = m.message_id

abbrev pub is_known : List ChatRoom → ChatMessage → Bool
is_known rooms m = is_some (find_first (room_is m.room_id) rooms)

abbrev accept : List ChatRoom → Payload → List ChatMessage → List ChatMessage
accept rooms (of_message m) rest = if is_known rooms m then m ∷ rest else rest
accept rooms _ rest = rest

-- The messages of events, of the rooms that there are.
abbrev pub accepted : List ChatRoom → List DomainEvent → List ChatMessage
accepted rooms [] = []
accepted rooms (e ∷ es) = accept rooms e.payload (accepted rooms es)

-- Of events that are delivered one after the other.
unfoldable pub consume : List DomainEvent → ChatState → ChatState
consume [] s = s
consume (e ∷ es) s = consume es (on_message_sent e s).1

persist-keep_once :
    (m : ChatMessage) (s : ChatState)
    → (persist m s).1
      ≡ (if is_known s.rooms m then record s { messages = keep_once id_of m s.messages } else s)
unfolding persist keep_once
persist-keep_once m s = elim (Bool-cases (is_known s.rooms m)) [
  | inl known ↦ elim (Option-cases (find_first (message_is m.message_id) s.messages)) [
    | inl e ↦ rw (persist, e, known) refl
    | inr (row, e) ↦ rw (persist, e, known) refl
  ]
  | inr unknown ↦ elim (Option-cases (find_first (message_is m.message_id) s.messages)) [
    | inl e ↦ rw (persist, e, unknown) refl
    | inr (row, e) ↦ rw (persist, e, unknown) refl
  ]
]

-- Nothing but the table of messages changes.
record IsConsumed (s s' : ChatState) (ms : List ChatMessage) : Type 0 where
  rooms : s'.rooms ≡ s.rooms
  messages : s'.messages ≡ keep_all id_of ms s.messages

persist_payload-IsConsumed :
    (p : Payload) (es : List DomainEvent) (s : ChatState)
    → let s' = (persist_payload p s).1 in
      IsConsumed s' (consume es s') (accepted s'.rooms es)
      → IsConsumed s (consume es s') (accept s.rooms p (accepted s.rooms es))
unfolding keep_all
persist_payload-IsConsumed (of_message m) es s h = elim (Bool-cases (is_known s.rooms m)) [
  | inl known ↦
      let same : (persist m s).1 ≡ record s { messages = keep_once id_of m s.messages } =
        persist-keep_once m s ∙ rw known refl in
      let h' = subst (λ t. IsConsumed t (consume es t) (accepted t.rooms es)) same h in
      rw (same, known) (record { rooms = h'.rooms; messages = h'.messages })
  | inr unknown ↦
      let same : (persist m s).1 ≡ s = persist-keep_once m s ∙ rw unknown refl in
      let h' = subst (λ t. IsConsumed t (consume es t) (accepted t.rooms es)) same h in
      rw (same, unknown) h'
]
persist_payload-IsConsumed (of_post b c t) es s h = h
persist_payload-IsConsumed (of_comment i b) es s h = h
persist_payload-IsConsumed (of_like i b) es s h = h
persist_payload-IsConsumed (of_join u) es s h = h
persist_payload-IsConsumed (of_end u t) es s h = h

consume-IsConsumed :
    (es : List DomainEvent) (s : ChatState) → IsConsumed s (consume es s) (accepted s.rooms es)
unfolding consume on_message_sent keep_all
consume-IsConsumed [] s = record { rooms = refl; messages = refl }
consume-IsConsumed (e ∷ es) s =
    persist_payload-IsConsumed e.payload es s
      (consume-IsConsumed es (persist_payload e.payload s).1)

-- If the table of messages has at most one row with an id, then after the worker has consumed
-- any list of events it has one row with the id if it had one or if an event of the list
-- carries such a message of a known room, and none otherwise; and the row is the one it had, or
-- else the first such message of the list.
pub persisted_once :
    (es : List DomainEvent) (s : ChatState) (message_id : Key)
    → count_where (message_is message_id) s.messages ≤ 1
    → let stored = (consume es s).messages in
      (count_where (message_is message_id) stored
        ≡ min 1 (
            count_where (message_is message_id) s.messages
            + count_where (message_is message_id) (accepted s.rooms es)))
      × (find_first (message_is message_id) stored
          ≡ Option.or_else
              (find_first (message_is message_id) s.messages)
              (find_first (message_is message_id) (accepted s.rooms es)))
persisted_once es s message_id h = rw (consume-IsConsumed es s).messages (
  count_where-keep_all id_of message_id (accepted s.rooms es) s.messages h,
  find_first-keep_all id_of message_id (accepted s.rooms es) s.messages,
)
