-- ===== src/Http/Conversations.antt =====
-- Who reads the history of a room at GET /chat/rooms/:id/messages.
use estate_server.Base.{
  false, none, min, arith, if◌then◌else◌, ◌==◌, Bool-cases, Key, List, Option, Option-cases, Time,
  ap, err, inl, inr, length, not_room_participant, ok, refl, room_not_found, some, true, ◌>>=◌, ◌≡◌,
  ◌≤◌, ◌⊎◌,
}
use estate_server.Base.Int.{ℤ, pos, negsuc}
use estate_server.Auth.Session.{TokenPayload}
use estate_server.Events.{ChatMessage}
use estate_server.Errors.{exception_of, status_of, to_error_response}
use estate_server.Chat.Store.{
  ChatRoom, ChatState, find_recent, find_room, get_recent, is_participant, recent_limit,
}
use estate_server.Chat.Cases.{get_messages, limit_of, or_else_rows, read_history}
use estate_server.Chat.Access.{page-le}
use estate_server.Http.Bearer.{access, jwt_auth_guard, roles_guard, validate}
use estate_server.Http.Server.{
  Gate, HttpRequest, Response, ServerState, answered, refuse, run_guarded, serve, status,
}
use estate_server.Http.ChatApi.{
  Answer, ChatCall, ChatSite, messages_handler, of_messages, routes, run, run_as, success_of,
}
use estate_server.Http.Guarding.{serve_split}

-- The messages that are cached for the room, or else those of the table, by the limit in effect.
abbrev pub history_of : Time → Key → Option ℤ → ChatState → List ChatMessage
history_of now room_id limit s =
    or_else_rows (get_recent now room_id (limit_of limit) s)
      (find_recent room_id (limit_of limit) s)

-- The answer of the use case: a refusal, or the history; and no change.
read_history-cases :
    (now : Time) (user_id room_id : Key) (limit : Option ℤ) (s : ChatState)
    → ((find_room room_id s ≡ none)
        × (read_history now user_id room_id limit s ≡ (err room_not_found, s)))
      ⊎ ((room : ChatRoom) × (find_room room_id s ≡ some room)
          × (((is_participant user_id room ≡ false)
                × (read_history now user_id room_id limit s ≡ (err not_room_participant, s)))
              ⊎ ((is_participant user_id room ≡ true)
                  × (read_history now user_id room_id limit s
                      ≡ (ok (history_of now room_id limit s), s)))))
unfolding read_history get_messages
read_history-cases now user_id room_id limit s = elim (Option-cases (find_room room_id s)) [
  | inl missing ↦ inl (missing, rw (read_history, get_messages, missing) refl)
  | inr (room, found) ↦ elim (Bool-cases (is_participant user_id room)) [
    | inr outsider ↦
        inr (room, found, inl (outsider, rw (read_history, get_messages, found, outsider) refl))
    | inl member ↦
        inr (room, found, inr (member, rw (read_history, get_messages, found, member) refl))
  ]
]

-- At most fifty messages, unless the query parameter is a negative number.
abbrev pub IsCapped : Option ℤ → List ChatMessage → Type 0
IsCapped (some (negsuc n)) ms = Unit {0}
IsCapped _ ms = length ms ≤ recent_limit

history_of-IsCapped :
    (now : Time) (room_id : Key) (limit : Option ℤ) (s : ChatState)
    → IsCapped limit (history_of now room_id limit s)
history_of-IsCapped now room_id none s =
    page-le now 0 room_id s recent_limit (ground arith) (ground arith)
history_of-IsCapped now room_id (some (pos n)) s =
    page-le now 0 room_id s (if n == 0 then recent_limit else min n recent_limit) (ground arith)
      (ground arith)
history_of-IsCapped now room_id (some (negsuc n)) s = tt

-- The history of a room that is there, for a participant of it.
abbrev pub IsShown : Time → Key → Key → Option ℤ → ChatState → Response Answer → Type 0
IsShown now user_id room_id limit s response =
    (response ≡ answered 200 (of_messages (history_of now room_id limit s)))
    × IsCapped limit (history_of now room_id limit s)
    × ((room : ChatRoom) × (find_room room_id s ≡ some room) × (is_participant user_id room ≡ true))

-- Refused by the rate limit, for want of the room, or of the right to read it.
abbrev pub IsRefused : Key → Key → ChatState → Response Answer → Type 0
IsRefused user_id room_id s response =
    (status response ≡ 429)
    ⊎ ((status response ≡ 404) × (find_room room_id s ≡ none))
    ⊎ ((status response ≡ 403)
        × ((room : ChatRoom) × (find_room room_id s ≡ some room)
            × (is_participant user_id room ≡ false)))

module _ (gate : Gate) (site : ChatSite) (now later : Time) (ip : Option Key) (token : Key)
    (p : TokenPayload) (good : gate.jwt.verify now token ≡ some (access p)) (room_id : Key)
    (limit : Option ℤ) where
  abbrev request : HttpRequest ChatCall
  request = record { ip = ip; bearer = some token; call = messages_handler room_id limit }

  history_run :
      (s : ChatState)
      → let (response, s') = run_guarded gate (routes site) now later request s in
        (IsRefused p.sub room_id s response ⊎ IsShown now p.sub room_id limit s response) × (s' ≡ s)
  unfolding run_guarded jwt_auth_guard roles_guard validate run run_as refuse status status_of
      to_error_response exception_of success_of
  history_run s = elim (read_history-cases now p.sub room_id limit s) [
    | inl (missing, answer) ↦
        rw (run_guarded, jwt_auth_guard, good, ◌>>=◌, answer)
          (inl (inr (inl (refl, missing))), ap (λ r. r.1) answer)
    | inr (room, found, inl (outsider, answer)) ↦
        rw (run_guarded, jwt_auth_guard, good, ◌>>=◌, answer)
          (inl (inr (inr (refl, (room, found, outsider)))), ap (λ r. r.1) answer)
    | inr (room, found, inr (member, answer)) ↦
        rw (run_guarded, jwt_auth_guard, good, ◌>>=◌, answer)
          (
            inr (refl, history_of-IsCapped now room_id limit s, (room, found, member)),
            ap (λ r. r.1) answer,
          )
  ]

  -- If the bearer token verifies as an access token, then GET /chat/rooms/:id/messages, with any
  -- integer as its limit or none, changes no table, and is refused with 429, with 404 where the
  -- room is not there, or with 403 where the user of the token is no participant of it; or the room
  -- is there, the user is a participant of it, and the answer is 200 with the messages that are
  -- cached for the room, or else those of the table, by the limit in effect, which are at most
  -- fifty unless the limit is negative.
  pub history_for_participants :
      (s : ServerState ChatState)
      → let (response, s') =
          serve gate
            (routes site)
            now
            later
            (record { ip = ip; bearer = some token; call = messages_handler room_id limit })
            s in
        (IsRefused p.sub room_id s.tables response
          ⊎ IsShown now p.sub room_id limit s.tables response)
        × (s'.tables ≡ s.tables)
  unfolding status
  history_for_participants s =
      let ran = history_run s.tables in
      elim (serve_split gate (routes site) now later request s) [
        | inl (e, limited, code, kept) ↦ rw (limited, kept) (inl (inl code), refl)
        | inr (answer, kept) ↦ rw (answer, kept) ran
      ]
