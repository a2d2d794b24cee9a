-- ===== src/Notification/Recipients.antt =====
-- src/notification/infrastructure/prisma-recipient-resolver.ts.
use estate_server.Base.{
  Bool, Key, List, Option, [], delete_many, find_first, find_many, if◌then◌else◌, is_key, map,
  no_key, none, not, some, ◌&&◌, ◌==◌, ◌∷◌,
}
use estate_server.Events.{DomainEvent, of_post, of_comment, of_like, of_message}
use estate_server.Property.Entities.{Building, Lease, is_active}
use estate_server.Property.Store.{is_in_building}
use estate_server.Board.Store.{BoardState, find_post}
use estate_server.Notification.Store.{ChatRoom}

-- `filter((id) => id !== actor)`, and `Set.delete` of the actor where there is one.
abbrev pub without : Option Key → List Key → List Key
without actor ids = find_many (λ id. not (is_key actor id)) ids

-- `new Set`: the first of equal values is kept.
unfoldable pub distinct : List Key → List Key
distinct [] = []
distinct (k ∷ ks) = k ∷ delete_many (λ j. j == k) (distinct ks)

unfoldable pub for_message : Key → Key → List ChatRoom → List Key
for_message room_id sender_id rooms = elim (find_first (λ (r : ChatRoom). r.id == room_id) rooms) [
  | none ↦ []
  | some room ↦ without (some sender_id) (room.owner_id ∷ room.tenant_id ∷ [])
]

unfoldable pub for_post_author : Key → Option Key → BoardState → List Key
for_post_author post_id actor board = elim (find_post post_id board) [
  | none ↦ []
  | some p ↦ if is_key actor p.author_id then [] else p.author_id ∷ []
]

abbrev pub is_lease_in : BoardState → Key → Lease → Bool
is_lease_in board building_id l =
    is_active l.status && is_in_building board.property.units building_id l

-- The owner of the building, deleted or not, and the tenants of its active leases. (An empty
-- actor is none.)
unfoldable pub for_post : Key → Option Key → BoardState → List Key
for_post building_id actor board =
    elim (find_first (λ (b : Building). is_key b.id building_id) board.property.buildings) [
      | none ↦ []
      | some b ↦
          let tenants =
            map (λ (l : Lease). l.tenant_id)
              (find_many (is_lease_in board building_id) board.property.leases) in
          let members = distinct (b.owner_id ∷ tenants) in
          if is_key actor no_key then members else without actor members
    ]

-- `resolve`
unfoldable pub resolve : DomainEvent → BoardState → List ChatRoom → List Key
resolve event board rooms = elim event.payload [
  | of_message m ↦ for_message m.room_id m.sender_id rooms
  | of_comment post_id building_id ↦ for_post_author post_id event.actor_id board
  | of_like post_id building_id ↦ for_post_author post_id event.actor_id board
  | of_post building_id category title ↦ for_post building_id event.actor_id board
  | _ ↦ []
]
