-- ===== src/Chat/Growth.antt =====
-- That rooms are only added, whatever is done over src/chat/application, and so a participant of a
-- room stays one.
use estate_server.Base.{
  Bool-cases, Key, List, Option, Option-cases, Time, [], find_first, find_first-append, inl, inr,
  is_some, no_key, none, not, refl, some, sym, ◌&&◌, ◌++◌, ◌==◌, ◌||◌, ◌∙◌, ◌∷◌, ◌≡◌,
}
use mathlib.Core.Option
use mathlib.Core.List.{append-nil}
use estate_server.Events.{ChatMessage}
use estate_server.Property.Store.{find_building, is_member}
use estate_server.Chat.Store.{
  ChatRoom, ChatState, create_message, create_room, find_by_building_and_tenant, find_room,
  is_participant, is_room_of, push_recent, room_is, save_room,
}
use estate_server.Chat.Cases.{Outside, ensure, ensure_room, publish, send_message}
use estate_server.Chat.Gateway.{IsAdmitted}
use estate_server.Chat.Access.{IsFromParticipant}

abbrev pub Grows : ChatState → ChatState → Type 0
Grows s s' = (extra : List ChatRoom) × (s'.rooms ≡ s.rooms ++ extra)

pub same-Grows : (s s' : ChatState) → s'.rooms ≡ s.rooms → Grows s s'
same-Grows s s' e = ([], e ∙ sym (append-nil s.rooms))

module _ (s s' : ChatState) (grown : Grows s s') where
  found-Grows :
      (id : Key) {room : ChatRoom}
      → find_first (room_is id) s.rooms ≡ some room
      → find_first (room_is id) s'.rooms ≡ some room
  unfolding Option.or_else
  found-Grows id found = rw (grown.1, find_first-append (room_is id) s.rooms grown.0, found) refl

  pub IsAdmitted-Grows :
      (user_id : Option Key) (room_id : Key)
      → IsAdmitted s user_id room_id
      → IsAdmitted s' user_id room_id
  unfolding find_room
  IsAdmitted-Grows user_id room_id a = record {
    user = a.user;
    known = a.known;
    room = a.room;
    found = found-Grows room_id a.found;
    member = a.member;
  }

  pub IsFromParticipant-Grows :
      (m : ChatMessage) → IsFromParticipant s.rooms m → IsFromParticipant s'.rooms m
  IsFromParticipant-Grows m f = record {
    room = f.room;
    found = found-Grows m.room_id f.found;
    member = f.member;
  }

pub send_message-rooms :
    (outside : Outside) (now : Time) (user_id room_id content : Key) (s : ChatState)
    → (send_message outside now user_id room_id content s).1.rooms ≡ s.rooms
unfolding send_message create_message publish push_recent
send_message-rooms outside now user_id room_id content s =
    elim (Option-cases (find_room room_id s)) [
      | inl missing ↦ rw (send_message, missing) refl
      | inr (room, found) ↦ elim (Bool-cases (is_participant user_id room)) [
        | inr outsider ↦ rw (send_message, found, outsider) refl
        | inl member ↦ elim (Bool-cases (content == no_key)) [
          | inl blank ↦ rw (send_message, found, member, create_message, blank) refl
          | inr filled ↦ elim (Bool-cases outside.relay_up) [
            | inr down ↦ rw (send_message, found, member, create_message, filled, down) refl
            | inl up ↦ elim (Bool-cases outside.cache_up) [
              | inr cold ↦ rw (send_message, found, member, create_message, filled, up, cold) refl
              | inl warm ↦ rw (send_message, found, member, create_message, filled, up, warm) refl
            ]
          ]
        ]
      ]
    ]

-- Nothing but rooms is added to what the sockets and the cache have.
abbrev pub OnlyRooms : ChatState → ChatState → Type 0
OnlyRooms s s' = Grows s s' × (s'.relayed ≡ s.relayed) × (s'.recents ≡ s.recents)

nothing-OnlyRooms : (s : ChatState) → OnlyRooms s s
nothing-OnlyRooms s = (same-Grows s s refl, refl, refl)

save_room-OnlyRooms : (r : ChatRoom) (s : ChatState) → OnlyRooms s (save_room r s).1
unfolding save_room
save_room-OnlyRooms r s =
    elim (Bool-cases (is_some (find_first (is_room_of r.building_id r.tenant_id) s.rooms))) [
      | inl taken ↦ rw (save_room, taken) (nothing-OnlyRooms s)
      | inr free ↦ rw (save_room, free) ((record r { id = some s.next_id } ∷ [], refl), refl, refl)
    ]

ensure-OnlyRooms :
    (building_id owner_id tenant_id : Key) (existing : Option ChatRoom) (s : ChatState)
    → OnlyRooms s (ensure building_id owner_id tenant_id existing s).1
unfolding ensure create_room
ensure-OnlyRooms building_id owner_id tenant_id (some room) s = nothing-OnlyRooms s
ensure-OnlyRooms building_id owner_id tenant_id none s =
    elim (Bool-cases (building_id == no_key || owner_id == no_key || tenant_id == no_key)) [
      | inl blank ↦ rw (ensure, create_room, blank) (nothing-OnlyRooms s)
      | inr whole ↦ rw (ensure, create_room, whole) (save_room-OnlyRooms _ s)
    ]

pub ensure_room-OnlyRooms :
    (user_id building_id tenant_id : Key) (s : ChatState)
    → OnlyRooms s (ensure_room user_id building_id tenant_id s).1
unfolding ensure_room
ensure_room-OnlyRooms user_id building_id tenant_id s =
    elim (Option-cases (find_building building_id s.property)) [
      | inl missing ↦ rw (ensure_room, missing) (nothing-OnlyRooms s)
      | inr (building, found) ↦
          elim (Bool-cases (not (building.owner_id == user_id) && not (user_id == tenant_id))) [
            | inl outsider ↦ rw (ensure_room, found, outsider) (nothing-OnlyRooms s)
            | inr entitled ↦ elim (Bool-cases (is_member tenant_id building_id s.property)) [
              | inr stranger ↦ rw (ensure_room, found, entitled, stranger) (nothing-OnlyRooms s)
              | inl member ↦
                  rw (ensure_room, found, entitled, member)
                    (ensure-OnlyRooms building_id building.owner_id tenant_id
                      (find_by_building_and_tenant building_id tenant_id s) s)
            ]
          ]
    ]
