-- ===== src/Property/Entities.antt =====
-- src/property/domain: building.entity.ts, unit.entity.ts and lease.entity.ts. A row of a table is
-- its entity with the id set; of a building or a unit the row also has the column deletedAt, which
-- no entity shows.
use estate_server.Base.{
  Bool, Key, Option, Result, Time, domain_error, err, false, if◌then◌else◌, no_key, none, ok, some,
  true, ◌==◌,
}
use estate_server.Base.Int.{ℤ}

pub record Building : Type 0 where
  pub id : Option Key
  pub owner_id : Key
  pub name : Key
  pub address : Key
  pub deleted_at : Option Time

-- `Building.create`
unfoldable pub create_building : Key → Key → Key → Result Building
create_building owner_id name address =
    if owner_id == no_key
    then err domain_error
    else if name == no_key
    then err domain_error
    else ok (record {
      id = none;
      owner_id = owner_id;
      name = name;
      address = address;
      deleted_at = none;
    })

unfoldable pub is_owned_by : Key → Building → Bool
is_owned_by user_id b = b.owner_id == user_id

pub record HouseUnit : Type 0 where
  pub id : Option Key
  pub building_id : Key
  pub name : Key
  pub floor : ℤ
  pub deleted_at : Option Time

-- `Unit.create`
unfoldable pub create_unit : Key → Key → ℤ → Result HouseUnit
create_unit building_id name floor =
    if building_id == no_key
    then err domain_error
    else if name == no_key
    then err domain_error
    else ok (record {
      id = none;
      building_id = building_id;
      name = name;
      floor = floor;
      deleted_at = none;
    })

pub data LeaseStatus : Type 0 where
  active ended : LeaseStatus

abbrev pub is_active : LeaseStatus → Bool
is_active active = true
is_active ended = false

pub record Lease : Type 0 where
  pub id : Option Key
  pub unit_id : Key
  pub tenant_id : Key
  pub status : LeaseStatus
  pub ended_at : Option Time

-- `Lease.create`
unfoldable pub create_lease : Key → Key → Result Lease
create_lease unit_id tenant_id =
    if unit_id == no_key
    then err domain_error
    else if tenant_id == no_key
    then err domain_error
    else ok (record {
      id = none;
      unit_id = unit_id;
      tenant_id = tenant_id;
      status = active;
      ended_at = none;
    })

-- `Lease.end`
unfoldable pub end_lease : Time → Lease → Result Lease
end_lease now l =
    if is_active l.status
    then ok (record l { status = ended; ended_at = some now })
    else err domain_error
