-- ===== src/Property/Store.antt =====
-- src/property/infrastructure: the Prisma repositories and the invite codes in Redis; and the
-- membership check of src/board/infrastructure/prisma-membership.checker.ts over their tables.
use estate_server.Base.{
  Action, Bool, Key, List, Option, Time, [], delete_many, find_first, find_many, get_or, gets,
  is_key, is_none, is_some, ltb, modify, no_key, none, ok, or_raise, pure, record_not_found, some,
  update_many, ℕ, ◌&&◌, ◌++◌, ◌+◌, ◌==◌, ◌>>=◌, ◌>>◌, ◌||◌, ◌∷◌,
}
use mathlib.Core.Option
use estate_server.Events.{DomainEvent}
use estate_server.Property.Entities.{Building, HouseUnit, Lease, is_active}

-- InviteCodePayload
pub record InvitePayload : Type 0 where
  pub unit_id : Key
  pub issued_by : Key

-- A key `invite:{code}` in Redis.
pub record Invite : Type 0 where
  pub code : Key
  pub payload : InvitePayload
  pub expires_at : Time

-- `events` are the rows that `outbox.add` inserted; `next_id` is the next `cuid()`, `next_uuid` the
-- next `randomUUID()`, `draws` counts the invite codes that were generated.
pub record PropertyState : Type 0 where
  pub buildings : List Building
  pub units : List HouseUnit
  pub leases : List Lease
  pub invites : List Invite
  pub events : List DomainEvent
  pub next_id : Key
  pub next_uuid : Key
  pub draws : ℕ

abbrev pub building_is : Key → Building → Bool
building_is id b = is_key b.id id && is_none b.deleted_at

abbrev pub unit_is : Key → HouseUnit → Bool
unit_is id u = is_key u.id id && is_none u.deleted_at

abbrev pub lease_is : Key → Lease → Bool
lease_is id l = is_key l.id id

unfoldable pub find_building : Key → PropertyState → Option Building
find_building id s = find_first (building_is id) s.buildings

abbrev pub is_building_of : Key → Building → Bool
is_building_of owner_id b = b.owner_id == owner_id && is_none b.deleted_at

unfoldable pub find_by_owner : Key → PropertyState → List Building
find_by_owner owner_id s = find_many (is_building_of owner_id) s.buildings

unfoldable pub find_unit : Key → PropertyState → Option HouseUnit
find_unit id s = find_first (unit_is id) s.units

unfoldable pub find_lease : Key → PropertyState → Option Lease
find_lease id s = find_first (lease_is id) s.leases

unfoldable pub save_building : Building → Action PropertyState Building
save_building b = do
  row ← gets (λ s. record b { id = some s.next_id })
  modify (λ s. record s { buildings = s.buildings ++ row ∷ []; next_id = s.next_id + 1 })
  pure row

unfoldable pub save_unit : HouseUnit → Action PropertyState HouseUnit
save_unit u = do
  row ← gets (λ s. record u { id = some s.next_id })
  modify (λ s. record s { units = s.units ++ row ∷ []; next_id = s.next_id + 1 })
  pure row

-- The column endDate has no value in `data`, so it is null. (The unit and the tenant are there.)
unfoldable pub save_lease : Lease → Action PropertyState Lease
save_lease l = do
  row ← gets (λ s. record l { id = some s.next_id; ended_at = none })
  modify (λ s. record s { leases = s.leases ++ row ∷ []; next_id = s.next_id + 1 })
  pure row

abbrev pub set_status : Lease → Lease → Lease
set_status l row = record row { status = l.status; ended_at = l.ended_at }

-- An update of a row that is not there is P2025.
unfoldable pub update_lease : Lease → Action PropertyState Lease
update_lease l = do
  found ← gets (find_lease (get_or l.id no_key))
  row ← or_raise found record_not_found
  modify (λ s. record s {
    leases = update_many (lease_is (get_or l.id no_key)) (set_status l) s.leases;
  })
  pure (set_status l row)

-- `outbox.add` of an event with a new id.
unfoldable pub add_event : (Key → DomainEvent) → Action PropertyState (Unit {0})
add_event event =
    modify
      (λ s. record s { events = s.events ++ event s.next_uuid ∷ []; next_uuid = s.next_uuid + 1 })

abbrev pub invite_ttl : Time
invite_ttl = 86400000

abbrev pub code_is : Key → Invite → Bool
code_is code i = i.code == code

-- A key that is alive at `now`.
abbrev pub is_alive : Key → Time → Invite → Bool
is_alive code now i = i.code == code && ltb now i.expires_at

-- `SET` with `EX` replaces what the key held.
unfoldable pub issue_code : (ℕ → Key) → Time → InvitePayload → Action PropertyState Key
issue_code random_code now payload = do
  code ← gets (λ s. random_code s.draws)
  modify (λ s. record s {
    invites =
        delete_many (code_is code) s.invites
        ++ record { code = code; payload = payload; expires_at = now + invite_ttl } ∷ [];
    draws = s.draws + 1;
  })
  pure code

unfoldable pub peek_code : Time → Key → PropertyState → Option InvitePayload
peek_code now code s = Option.map (λ i. i.payload) (find_first (is_alive code now) s.invites)

-- `GETDEL`
unfoldable pub redeem_code : Time → Key → Action PropertyState (Option InvitePayload)
unfolding peek_code
redeem_code now code s =
    (ok (peek_code now code s), record s { invites = delete_many (code_is code) s.invites })

-- The relation `unit: { buildingId }` of a lease.
abbrev pub is_in_building : List HouseUnit → Key → Lease → Bool
is_in_building units building_id l =
    is_some
      (find_first (λ (u : HouseUnit). is_key u.id l.unit_id && u.building_id == building_id) units)

abbrev pub is_tenancy : List HouseUnit → Key → Key → Lease → Bool
is_tenancy units user_id building_id l =
    l.tenant_id == user_id && is_active l.status && is_in_building units building_id l

-- `MembershipChecker.isMember`
unfoldable pub is_member : Key → Key → PropertyState → Bool
is_member user_id building_id s =
    is_some
      (find_first (λ (b : Building). is_key b.id building_id && b.owner_id == user_id) s.buildings)
    || is_some (find_first (is_tenancy s.units user_id building_id) s.leases)
