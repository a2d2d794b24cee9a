-- ===== src/Property/Tests.antt =====
-- One building with one unit, a live invite code for it, and one lease.
use estate_server.Base.{
  AppError, [], arith, err, find_first, invalid_invite_code, none, ok, refl, some, true, ◌++◌, ◌∷◌,
  ◌≡◌, ◌⊎◌,
}
use estate_server.Base.Int.{pos}
use estate_server.Property.Entities.{Building, HouseUnit, Lease, active, is_owned_by}
use estate_server.Property.Store.{
  Invite, InvitePayload, PropertyState, peek_code, find_unit, find_lease, find_building, is_member,
}
use estate_server.Property.Cases.{redeem_invite, end_lease_case}
use estate_server.Property.Invites.{redeem_once, redeem_joins, new_lease, joined}
use estate_server.Property.Leases.{IsEntitled, after_end, end_state, end_lease_atomic}

abbrev building : Building
building = record { id = some 1; owner_id = 10; name = 100; address = 101; deleted_at = none }

abbrev room : HouseUnit
room = record { id = some 2; building_id = 1; name = 102; floor = pos 3; deleted_at = none }

abbrev payload : InvitePayload
payload = record { unit_id = 2; issued_by = 10 }

abbrev invite : Invite
invite = record { code = 77; payload = payload; expires_at = 1000 }

abbrev tenancy : Lease
tenancy = record { id = some 3; unit_id = 2; tenant_id = 20; status = active; ended_at = none }

abbrev state : PropertyState
state = record {
  buildings = building ∷ [];
  units = room ∷ [];
  leases = tenancy ∷ [];
  invites = invite ∷ [];
  events = [];
  next_id = 4;
  next_uuid = 50;
  draws = 0;
}

redeem_once_example :
    (redeem_invite 20 22 77 (redeem_invite 10 21 77 state).1).0 ≡ err invalid_invite_code
redeem_once_example = redeem_once 10 20 21 22 77 state

live : peek_code 10 77 state ≡ some payload
unfolding peek_code find_first
live = refl

found_unit : find_unit 2 state ≡ some room
unfolding find_unit find_first
found_unit = refl

redeem_joins_example :
    ((redeem_invite 10 21 77 state).0 ≡ ok (new_lease 10 21 77 state 2))
    × (is_member 21 1 (redeem_invite 10 21 77 state).1 ≡ true)
    × ((redeem_invite 10 21 77 state).1.events ≡ [] ++ joined 10 21 77 state 2 ∷ [])
redeem_joins_example =
    redeem_joins 10 21 77 state live found_unit (λ e. omega arith) (λ e. omega arith)

end_lease_atomic_example :
    ((l : Lease) × (find_lease 3 state ≡ some l)
      × IsEntitled 10 10 3 state l
      × (l.status ≡ active)
      × (end_lease_case 10 10 3 state
          ≡ (ok (after_end 10 10 3 state l), end_state 10 10 3 state l)))
    ⊎ ((e : AppError) × (end_lease_case 10 10 3 state ≡ (err e, state)))
end_lease_atomic_example = end_lease_atomic 10 10 3 state

found_lease : find_lease 3 state ≡ some tenancy
unfolding find_lease find_first
found_lease = refl

entitled : IsEntitled 10 10 3 state tenancy
unfolding find_unit find_building find_first is_owned_by
entitled = record { unit = room; of_unit = refl; owned = refl }
