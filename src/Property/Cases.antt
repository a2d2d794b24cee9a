-- ===== src/Property/Cases.antt =====
-- src/property/application, use case by use case.
use estate_server.Base.{
  Action, AppError, Bool, Key, List, Option, Result, Time, building_not_found, false, find_many,
  get_or, gets, invalid_invite_code, is_none, lease_already_ended, lease_not_found, map, no_key,
  none, not, not_building_owner, or_raise, pure, raise_if, rethrow, some, transaction,
  unit_not_found, ℕ, ◌&&◌, ◌==◌, ◌>>=◌, ◌>>◌,
}
use mathlib.Core.Option
use estate_server.Base.Int.{ℤ}
use estate_server.Events.{tenant_joined, lease_ended, lease, of_join, of_end}
use estate_server.Property.Entities.{
  Building, HouseUnit, Lease, LeaseStatus, create_building, create_unit, create_lease, end_lease,
  is_owned_by,
}
use estate_server.Property.Store.{
  PropertyState, find_building, find_unit, find_lease, save_building, save_unit, save_lease,
  update_lease, add_event, issue_code, peek_code, redeem_code, find_by_owner,
}

-- A rollback restores the tables; fresh values stay drawn, and Redis is not part of it.
abbrev pub rollback : PropertyState → PropertyState → PropertyState
rollback before after = record after {
  buildings = before.buildings;
  units = before.units;
  leases = before.leases;
  events = before.events;
}

-- A throw in an entity's constructor.
abbrev pub lift : {A : Type 0} → Result A → Action PropertyState A
lift r s = (r, s)

abbrev pub owns : Key → Option Building → Bool
owns user_id none = false
owns user_id (some b) = b.owner_id == user_id

unfoldable pub create_building_case : Key → Key → Key → Action PropertyState Building
create_building_case owner_id name address = do
  building ← lift (create_building owner_id name address)
  save_building building

unfoldable pub create_unit_case : Key → Key → Key → ℤ → Action PropertyState HouseUnit
unfolding is_owned_by
create_unit_case owner_id building_id name floor = do
  found ← gets (find_building building_id)
  building ← or_raise found building_not_found
  raise_if (not (is_owned_by owner_id building)) not_building_owner
  unit ← lift (create_unit building_id name floor)
  save_unit unit

-- `IssueInviteCodeUseCase`
unfoldable pub issue_invite : (ℕ → Key) → Time → Key → Key → Action PropertyState Key
issue_invite random_code now owner_id unit_id = do
  found ← gets (find_unit unit_id)
  unit ← or_raise found unit_not_found
  building ← gets (find_building unit.building_id)
  raise_if (not (owns owner_id building)) not_building_owner
  issue_code random_code now (record { unit_id = get_or unit.id no_key; issued_by = owner_id })

-- InvitePreview: `none` is `{ valid: false }`, else the names of the building and the unit.
unfoldable pub preview_invite : Time → Key → PropertyState → Option (Key × Key)
preview_invite now code s = elim (peek_code now code s) [
  | none ↦ none
  | some payload ↦ elim (find_unit payload.unit_id s) [
    | none ↦ none
    | some unit ↦ elim (find_building unit.building_id s) [
      | none ↦ none
      | some building ↦ some (building.name, unit.name)
    ]
  ]
]

-- `RedeemInviteCodeUseCase`: the code is consumed before the lease is created.
unfoldable pub redeem_invite : Time → Key → Key → Action PropertyState Lease
redeem_invite now tenant_id code = do
  found ← redeem_code now code
  payload ← or_raise found invalid_invite_code
  draft ← lift (create_lease payload.unit_id tenant_id)
  transaction rollback (do
    saved ← save_lease draft
    add_event (λ event_id. record {
      event_id = event_id;
      event_type = tenant_joined;
      occurred_at = now;
      actor_id = some tenant_id;
      entity_type = lease;
      entity_id = get_or saved.id no_key;
      payload = of_join saved.unit_id;
    })
    pure saved)

-- `catch { throw new AppException(PropertyError.LEASE_ALREADY_ENDED) }`
abbrev pub as_already_ended : AppError → AppError
as_already_ended e = lease_already_ended

-- `EndLeaseUseCase`
unfoldable pub end_lease_case : Time → Key → Key → Action PropertyState Lease
end_lease_case now user_id lease_id = do
  found ← gets (find_lease lease_id)
  l ← or_raise found lease_not_found
  found_unit ← gets (find_unit l.unit_id)
  unit ← or_raise found_unit unit_not_found
  building ← gets (find_building unit.building_id)
  raise_if (not (owns user_id building)) not_building_owner
  ended_lease ← lift (rethrow as_already_ended (end_lease now l))
  transaction rollback (do
    saved ← update_lease ended_lease
    add_event (λ event_id. record {
      event_id = event_id;
      event_type = lease_ended;
      occurred_at = now;
      actor_id = some user_id;
      entity_type = lease;
      entity_id = get_or saved.id no_key;
      payload = of_end saved.unit_id saved.ended_at;
    })
    pure saved)

unfoldable pub list_building_units : Key → Key → Action PropertyState (List HouseUnit)
unfolding is_owned_by
list_building_units owner_id building_id = do
  found ← gets (find_building building_id)
  building ← or_raise found building_not_found
  raise_if (not (is_owned_by owner_id building)) not_building_owner
  gets (λ s.
      find_many (λ (u : HouseUnit). u.building_id == building_id && is_none u.deleted_at) s.units)

-- LeaseView
pub record LeaseView : Type 0 where
  pub id : Key
  pub unit_id : Key
  pub unit_name : Option Key
  pub building_name : Option Key
  pub building_id : Option Key
  pub status : LeaseStatus

-- The body of the `map` in `ListMyLeasesUseCase`.
unfoldable pub lease_view : PropertyState → Lease → LeaseView
lease_view s l =
    let unit = find_unit l.unit_id s in
    let building_id = Option.map (λ (u : HouseUnit). u.building_id) unit in
    record {
      id = get_or l.id no_key;
      unit_id = l.unit_id;
      unit_name = Option.map (λ (u : HouseUnit). u.name) unit;
      building_name =
          Option.bind building_id
            (λ id. Option.map (λ (b : Building). b.name) (find_building id s));
      building_id = building_id;
      status = l.status;
    }

unfoldable pub list_my_leases : Key → PropertyState → List LeaseView
unfolding lease_view
list_my_leases tenant_id s =
    map (lease_view s) (find_many (λ (l : Lease). l.tenant_id == tenant_id) s.leases)

-- `ListMyBuildingsUseCase.execute`
unfoldable pub list_my_buildings : Key → PropertyState → List Building
list_my_buildings = find_by_owner
