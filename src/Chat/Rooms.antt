-- ===== src/Chat/Rooms.antt =====
-- The rooms of a building: ensure-room of src/chat/application.
use estate_server.Base.{
  Bool-cases, Key, Option, Option-cases, ap, arith, false, find_first-last, inl, inr, none, not, ok,
  refl, some, sym, true, ◌&&◌, ◌==◌, ◌∙◌, ◌≡◌,
}
use mathlib.Core.Path.{subst}
use estate_server.Property.Entities.{Building}
use estate_server.Property.Store.{PropertyState, find_building, is_member}
use estate_server.Chat.Store.{
  ChatRoom, ChatState, create_room, find_by_building_and_tenant, save_room, is_room_of,
}
use estate_server.Chat.Cases.{ensure_room, ensure}

-- Who may ensure a room.
record MayEnsure (user_id building_id tenant_id : Key) (p : PropertyState) : Type 0 where
  building : Building
  found : find_building building_id p ≡ some building
  entitled : not (building.owner_id == user_id) && not (user_id == tenant_id) ≡ false
  member : is_member tenant_id building_id p ≡ true

-- What a room that was ensured is.
record IsEnsured (building_id tenant_id : Key) (s s' : ChatState) (room : ChatRoom) : Type 0 where
  property : s'.property ≡ s.property
  found : find_by_building_and_tenant building_id tenant_id s' ≡ some room

module _ (building_id tenant_id : Key) where
  ensure_room-known :
      (user_id : Key) (s : ChatState) (room : ChatRoom)
      → MayEnsure user_id building_id tenant_id s.property
      → find_by_building_and_tenant building_id tenant_id s ≡ some room
      → ensure_room user_id building_id tenant_id s ≡ (ok room, s)
  unfolding ensure_room ensure
  ensure_room-known user_id s room may e = ground (arith, may.found, may.entitled, may.member)

  -- A room of the pair that is saved is found from then on.
  save_room-IsEnsured :
      (draft : ChatRoom) (s : ChatState) (room : ChatRoom)
      → find_by_building_and_tenant building_id tenant_id s ≡ none
      → draft.building_id ≡ building_id
      → draft.tenant_id ≡ tenant_id
      → (save_room draft s).0 ≡ ok room
      → IsEnsured building_id tenant_id s (save_room draft s).1 room
  unfolding save_room find_by_building_and_tenant
  save_room-IsEnsured draft s room missing b t e =
      let row = record draft { id = some s.next_id } in
      ground (arith, find_first-last (is_room_of building_id tenant_id) s.rooms row missing)

  ensure-IsEnsured :
      (owner_id : Key) (existing : Option ChatRoom) (s : ChatState) (room : ChatRoom)
      → find_by_building_and_tenant building_id tenant_id s ≡ existing
      → (ensure building_id owner_id tenant_id existing s).0 ≡ ok room
      → IsEnsured building_id tenant_id s (ensure building_id owner_id tenant_id existing s).1 room
  unfolding ensure create_room
  ensure-IsEnsured owner_id (some old) s room found e = ground arith
  ensure-IsEnsured owner_id none s room missing e =
      let draft : ChatRoom = record {
        id = none;
        building_id = building_id;
        owner_id = owner_id;
        tenant_id = tenant_id;
      } in
      ground (arith, save_room-IsEnsured draft s room missing refl refl)

  ensure_room-IsAllowed :
      (user_id : Key) (s : ChatState) (room : ChatRoom)
      → (ensure_room user_id building_id tenant_id s).0 ≡ ok room
      → (may : MayEnsure user_id building_id tenant_id s.property) × (ensure_room user_id
            building_id tenant_id s
          ≡ ensure building_id may.building.owner_id tenant_id
              (find_by_building_and_tenant building_id tenant_id s)
              s)
  unfolding ensure_room
  ensure_room-IsAllowed user_id s room e =
      elim (Option-cases (find_building building_id s.property)) [
        | inl missing ↦ absurd (ground arith)
        | inr (building, found) ↦
            elim (Bool-cases (not (building.owner_id == user_id) && not (user_id == tenant_id))) [
              | inl outsider ↦ absurd (ground arith)
              | inr entitled ↦ elim (Bool-cases (is_member tenant_id building_id s.property)) [
                | inr stranger ↦ absurd (ground arith)
                | inl member ↦ (
                  record {
                    building = building;
                    found = found;
                    entitled = entitled;
                    member = member;
                  },
                  rw (found, entitled, member) refl,
                )
              ]
            ]
      ]

  -- If a user ensures the room of a building and a tenant and gets a room, and another user
  -- would have got a room at the same moment, then that user now gets the same room, and
  -- nothing changes.
  pub ensure_room_once :
      (user_id other_id : Key) (s : ChatState) (room other : ChatRoom)
      → (ensure_room user_id building_id tenant_id s).0 ≡ ok room
      → (ensure_room other_id building_id tenant_id s).0 ≡ ok other
      → let s' = (ensure_room user_id building_id tenant_id s).1 in
        ensure_room other_id building_id tenant_id s' ≡ (ok room, s')
  ensure_room_once user_id other_id s room other e e' =
      let (may, runs) = ensure_room-IsAllowed user_id s room e in
      let (may', _) = ensure_room-IsAllowed other_id s other e' in
      let known : IsEnsured building_id tenant_id s (ensure_room user_id building_id tenant_id s).1
          room =
        rw runs (
          ensure-IsEnsured may.building.owner_id
            (find_by_building_and_tenant building_id tenant_id s) s room refl
            (ap (λ r. r.0) (sym runs) ∙ e)) in
      ensure_room-known other_id (ensure_room user_id building_id tenant_id s).1 room
        (subst (λ p. MayEnsure other_id building_id tenant_id p) (sym known.property) may')
        known.found
