-- ===== src/Chat/Recent.antt =====
-- The cache of recent messages, src/chat/infrastructure/redis-message-cache.ts, against the list of
-- the messages that were pushed.
use estate_server.Base.{
  Key, List, Time, [], ap, arith, delete_many, false, find_first, find_first-delete_many,
  find_first-last, if◌then◌else◌, min, ok, refl, some, suc, sym, take, take-cons, take-take, true,
  zero, ℕ, ◌+◌, ◌<◌, ◌==◌, ◌∙◌, ◌∷◌, ◌≡◌, ◌≤◌,
}
use estate_server.Base.Int.{ℤ, pos}
use estate_server.Events.{ChatMessage}
use estate_server.Chat.Cases.{read_history, get_messages, limit_of}
use estate_server.Chat.Store.{
  ChatRoom, find_room, is_participant, Recent, ChatState, is_recent_of, is_live_recent, recent_list,
  push_recent, get_recent, lrange, recent_limit, recent_ttl,
}

-- The messages are pushed in order, each at its time.
pub pushes : List (Time × ChatMessage) → ChatState → ChatState
pushes [] s = s
pushes ((now, m) ∷ rest) s = pushes rest (push_recent now m s)

-- The specification: the newest message first.
abbrev pub newest_first : List (Time × ChatMessage) → List ChatMessage → List ChatMessage
newest_first [] old = old
newest_first ((now, m) ∷ rest) old = newest_first rest (m ∷ old)

-- All are for the room, and none comes so late that the key has expired in between; the last is
-- before `now`, within the same bound.
abbrev pub IsInTime : Time → Key → Time → List (Time × ChatMessage) → Type 0
IsInTime last room_id now [] = now < last + recent_ttl
IsInTime last room_id now ((at, m) ∷ rest) =
    (m.room_id ≡ room_id) × (at < last + recent_ttl) × IsInTime at room_id now rest

take-newest_first :
    (n : ℕ) (ps : List (Time × ChatMessage)) (xs ys : List ChatMessage)
    → take n xs ≡ take n ys
    → take n (newest_first ps xs) ≡ take n (newest_first ps ys)
take-newest_first n [] xs ys e = e
take-newest_first n ((now, m) ∷ ps) xs ys e =
    take-newest_first n ps (m ∷ xs) (m ∷ ys) (take-cons n m xs ys e)

recent_list-push_recent :
    (last at : Time) (room_id : Key) (m : ChatMessage) (s : ChatState)
    → m.room_id ≡ room_id
    → at < last + recent_ttl
    → recent_list at room_id (push_recent last m s)
      ≡ take recent_limit (m ∷ recent_list last room_id s)
unfolding push_recent
recent_list-push_recent last at room_id m s e h =
    let r : Recent = record {
      room_id = m.room_id;
      messages = take recent_limit (m ∷ recent_list last m.room_id s);
      expires_at = last + recent_ttl;
    } in
    let gone =
      find_first-delete_many (is_live_recent at room_id) (is_recent_of m.room_id) s.recents
        (λ x k. ground arith) in
    let live : is_live_recent at room_id r ≡ true = ground arith in
    let found : find_first (is_live_recent at room_id) (push_recent last m s).recents ≡ some r =
      find_first-last (is_live_recent at room_id) (delete_many (is_recent_of m.room_id) s.recents) r
        gone live in
    rw (recent_list, found) (ap (λ k. take recent_limit (m ∷ recent_list last k s)) e)

module _ (room_id : Key) (now : Time) where
  pushes-recent :
      (ps : List (Time × ChatMessage)) (last : Time) (old : List ChatMessage) (s : ChatState)
      → ((at : Time)
          → at < last + recent_ttl
          → take recent_limit (recent_list at room_id s) ≡ take recent_limit old)
      → IsInTime last room_id now ps
      → take recent_limit (recent_list now room_id (pushes ps s))
        ≡ take recent_limit (newest_first ps old)
  unfolding pushes
  pushes-recent [] last old s h t = h now t
  pushes-recent ((at, m) ∷ ps) last old s h (mine, soon, t) =
      pushes-recent ps at (m ∷ old) (push_recent at m s)
        (λ at' k.
          ap (take recent_limit) (recent_list-push_recent at at' room_id m s mine k)
          ∙ take-take recent_limit recent_limit (m ∷ recent_list at room_id s) (omega arith)
          ∙ take-cons recent_limit m (recent_list at room_id s) old (h at soon))
        t

  -- If messages are pushed for the room `room_id`, and none of them, nor the reading at
  -- `now`, comes after the key has expired, then reading at most `n` messages, where `n` is
  -- positive and within the limit of the cache, gives the first `n` of the list that has all
  -- of them, the newest first, before what the key held when the first of them came.
  pub get_recent_refines :
      (ps : List (Time × ChatMessage)) (at : Time) (m : ChatMessage) (s : ChatState) (n : ℕ)
      → m.room_id ≡ room_id
      → IsInTime at room_id now ps
      → 0 < n
      → n ≤ recent_limit
      → get_recent now room_id (pos n) (pushes ((at, m) ∷ ps) s)
        ≡ take n (newest_first ((at, m) ∷ ps) (recent_list at room_id s))
  unfolding pushes get_recent
  get_recent_refines ps at m s n mine t some_of most =
      let old = m ∷ recent_list at room_id s in
      let s' = push_recent at m s in
      let cached = recent_list now room_id (pushes ps s') in
      let same : take recent_limit cached ≡ take recent_limit (newest_first ps old) =
        pushes-recent ps at old s'
          (λ at' k.
            ap (take recent_limit) (recent_list-push_recent at at' room_id m s mine k)
            ∙ take-take recent_limit recent_limit old (omega arith))
          t in
      let positive : (n == 0) ≡ false = ground arith in
      rw positive (
        sym (take-take n recent_limit cached most)
        ∙ ap (take n) same
        ∙ take-take n recent_limit (newest_first ps old) most)

get_messages-cached :
    (now : Time) (user_id room_id : Key) (limit : ℤ) (s : ChatState) {room : ChatRoom}
    {m : ChatMessage} {ms : List ChatMessage}
    → find_room room_id s ≡ some room
    → is_participant user_id room ≡ true
    → get_recent now room_id limit s ≡ m ∷ ms
    → (get_messages now user_id room_id limit s).0 ≡ ok (m ∷ ms)
unfolding get_messages
get_messages-cached now user_id room_id limit s {room} found member hit =
    rw (get_messages, found, member, hit) refl

lrange-one : (k : ℕ) (m : ChatMessage) → lrange (pos k) (m ∷ []) ≡ m ∷ []
lrange-one zero m = refl
lrange-one (suc k) m =
    let positive : (suc k == 0) ≡ false = ground arith in rw positive (take-one k)
  where
    take-one : (n : ℕ) → take (suc n) (m ∷ []) ≡ m ∷ []
    take-one zero = refl
    take-one (suc n) = refl

-- If a participant of a room asks for its history with a limit that is not negative, and the
-- last message was pushed at a time when the key of the room held nothing, and has not expired
-- since, then the answer is this message alone, whatever the table of messages has.
pub history_after_silence :
    (now at : Time) (user_id room_id : Key) (n : ℕ) (m : ChatMessage) (s : ChatState)
    {room : ChatRoom}
    → find_room room_id s ≡ some room
    → is_participant user_id room ≡ true
    → m.room_id ≡ room_id
    → recent_list at room_id s ≡ []
    → now < at + recent_ttl
    → (read_history now user_id room_id (some (pos n)) (push_recent at m s)).0 ≡ ok (m ∷ [])
unfolding read_history find_room push_recent get_recent
history_after_silence now at user_id room_id n m s {room} found member mine quiet soon =
    let s' = push_recent at m s in
    let cached : recent_list now room_id s' ≡ m ∷ [] =
      recent_list-push_recent at now room_id m s mine soon
      ∙ ap (λ old. take recent_limit (m ∷ old)) quiet in
    get_messages-cached now user_id room_id (limit_of (some (pos n))) s' found member (
      ap (lrange (limit_of (some (pos n)))) cached
      ∙ lrange-one (if n == 0 then recent_limit else min n recent_limit) m)
