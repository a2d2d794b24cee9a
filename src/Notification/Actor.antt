-- ===== src/Notification/Actor.antt =====
-- The recipients of src/notification/infrastructure/prisma-recipient-resolver.ts and who did it.
use estate_server.Base.{
  All, All-map, Bool-cases, Key, List, Option, Option-cases, [], arith, false, find_first,
  find_many, find_many-All, inl, inr, is_key, map, no_key, not, refl, some, trivial-All, ◌==◌, ◌∷◌,
  ◌≡◌,
}
use estate_server.Events.{
  DomainEvent, Payload, of_post, of_comment, of_like, of_join, of_end, of_message,
}
use estate_server.Property.Entities.{Building, Lease}
use estate_server.Board.Store.{BoardState, find_post}
use estate_server.Notification.Store.{ChatRoom}
use estate_server.Notification.Recipients.{
  without, for_message, for_post_author, for_post, resolve, distinct, is_lease_in,
}

-- Who did it: of a message the sender, of anything else the actor of the event.
abbrev pub doer : DomainEvent → Option Key
doer event = elim event.payload [ of_message m ↦ some m.sender_id | _ ↦ event.actor_id ]

without-All :
    (actor : Option Key) (ids : List Key) → All (λ id. is_key actor id ≡ false) (without actor ids)
without-All actor ids =
    All-map _ _ (without actor ids) (λ id h. ground arith)
      (find_many-All (λ _. Unit {0}) (λ id. not (is_key actor id)) ids (trivial-All ids))

for_message-All :
    (room_id sender_id : Key) (rooms : List ChatRoom)
    → All (λ id. is_key (some sender_id) id ≡ false) (for_message room_id sender_id rooms)
unfolding for_message
for_message-All room_id sender_id rooms =
    elim (Option-cases (find_first (λ (r : ChatRoom). r.id == room_id) rooms)) [
      | inl missing ↦ rw (for_message, missing) tt
      | inr (room, found) ↦
          rw (for_message, found)
            (without-All (some sender_id) (room.owner_id ∷ room.tenant_id ∷ []))
    ]

for_post_author-All :
    (post_id : Key) (actor : Option Key) (board : BoardState)
    → All (λ id. is_key actor id ≡ false) (for_post_author post_id actor board)
unfolding for_post_author
for_post_author-All post_id actor board = elim (Option-cases (find_post post_id board)) [
  | inl missing ↦ rw (for_post_author, missing) tt
  | inr (p, found) ↦ elim (Bool-cases (is_key actor p.author_id)) [
    | inl mine ↦ rw (for_post_author, found, mine) tt
    | inr other ↦ rw (for_post_author, found, other) (other, tt)
  ]
]

for_post-All :
    (building_id : Key) (actor : Option Key) (board : BoardState)
    → is_key actor no_key ≡ false
    → All (λ id. is_key actor id ≡ false) (for_post building_id actor board)
unfolding for_post
for_post-All building_id actor board real =
    elim (Option-cases
      (find_first (λ (b : Building). is_key b.id building_id) board.property.buildings)) [
        | inl missing ↦ rw (for_post, missing) tt
        | inr (b, found) ↦
            let members = distinct (
              b.owner_id
              ∷ map (λ (l : Lease). l.tenant_id)
                  (find_many (is_lease_in board building_id) board.property.leases)) in
            rw (for_post, found, real) (without-All actor members)
      ]

module _ (event : DomainEvent) (board : BoardState) (rooms : List ChatRoom) where
  -- Where the actor of an event is not the empty string, who did it, that is the sender of a
  -- message and the actor of anything else, is not among its recipients.
  pub actor_not_told :
      is_key event.actor_id no_key ≡ false
      → All (λ id. is_key (doer event) id ≡ false) (resolve event board rooms)
  unfolding resolve
  actor_not_told real = go event.payload refl
    where
      go :
          (p : Payload)
          → event.payload ≡ p
          → All (λ id. is_key (doer event) id ≡ false) (resolve event board rooms)
      go (of_message m) e = rw e (for_message-All m.room_id m.sender_id rooms)
      go (of_comment post_id building_id) e =
          rw e (for_post_author-All post_id event.actor_id board)
      go (of_like post_id building_id) e = rw e (for_post_author-All post_id event.actor_id board)
      go (of_post building_id category title) e =
          rw e (for_post-All building_id event.actor_id board real)
      go (of_join unit_id) e = rw e tt
      go (of_end unit_id at) e = rw e tt
