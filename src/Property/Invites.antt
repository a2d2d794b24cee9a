-- ===== src/Property/Invites.antt =====
-- Invite codes: src/property/application/redeem-invite-code.use-case.ts.
use estate_server.Base.{
  Key, Option-cases, Result, Time, [], arith, delete_many, err, find_first, find_first-delete_many,
  find_first_sound, inl, inr, invalid_invite_code, is_some-find_first, is_some-find_first-append,
  no_key, none, ok, or_true_right, refl, some, true, ◌++◌, ◌+◌, ◌∷◌, ◌≡◌, ◌≢◌,
}
use estate_server.Property.Entities.{HouseUnit, Lease, active, create_lease}
use estate_server.Property.Store.{
  InvitePayload, PropertyState, code_is, is_alive, peek_code, redeem_code, find_unit, save_lease,
  add_event, is_member, is_tenancy, is_in_building, unit_is,
}
use estate_server.Events.{DomainEvent, tenant_joined, lease, of_join}
use estate_server.Property.Cases.{redeem_invite}

module _ (now : Time) (tenant_id code : Key) (s : PropertyState) where
  abbrev redeemed : Result Lease × PropertyState
  redeemed = redeem_invite now tenant_id code s

  -- Redis after the request, whatever it answers.
  redeem_invite-invites : redeemed.1.invites ≡ delete_many (code_is code) s.invites
  unfolding redeem_invite redeem_code save_lease add_event create_lease
  redeem_invite-invites = elim (Option-cases (find_first (is_alive code now) s.invites)) [
    | inl missing ↦ ground arith
    | inr (i, found) ↦ ground arith
  ]

  redeem_invite-missing : peek_code now code s ≡ none → redeemed.0 ≡ err invalid_invite_code
  unfolding redeem_invite redeem_code
  redeem_invite-missing e = ground arith

  abbrev pub new_lease : Key → Lease
  new_lease unit_id = record {
    id = some s.next_id;
    unit_id = unit_id;
    tenant_id = tenant_id;
    status = active;
    ended_at = none;
  }

  abbrev pub joined : Key → DomainEvent
  joined unit_id = record {
    event_id = s.next_uuid;
    event_type = tenant_joined;
    occurred_at = now;
    actor_id = some tenant_id;
    entity_type = lease;
    entity_id = s.next_id;
    payload = of_join unit_id;
  }

  redeem_invite-ok :
      {p : InvitePayload}
      → peek_code now code s ≡ some p
      → p.unit_id ≢ no_key
      → tenant_id ≢ no_key
      → redeemed ≡ (
        ok (new_lease p.unit_id),
        record s {
          leases = s.leases ++ new_lease p.unit_id ∷ [];
          invites = delete_many (code_is code) s.invites;
          events = s.events ++ joined p.unit_id ∷ [];
          next_id = s.next_id + 1;
          next_uuid = s.next_uuid + 1;
        },
      )
  unfolding redeem_invite redeem_code save_lease add_event create_lease
  redeem_invite-ok {p} e u t = ground arith

  -- If the code is alive and names an existing unit, and neither the unit's id nor the
  -- tenant's is empty, then redeeming it answers with a new lease, makes the tenant a member
  -- of the unit's building, and adds exactly the event that announces it.
  pub redeem_joins :
      {p : InvitePayload} {unit : HouseUnit}
      → peek_code now code s ≡ some p
      → find_unit p.unit_id s ≡ some unit
      → p.unit_id ≢ no_key
      → tenant_id ≢ no_key
      → (redeemed.0 ≡ ok (new_lease p.unit_id))
        × (is_member tenant_id unit.building_id redeemed.1 ≡ true)
        × (redeemed.1.events ≡ s.events ++ joined p.unit_id ∷ [])
  unfolding is_member find_unit
  redeem_joins {p} {unit} e found u t =
      let in_building : is_in_building s.units unit.building_id (new_lease p.unit_id) ≡ true =
        is_some-find_first (unit_is p.unit_id) _ s.units found
          (ground (arith, find_first_sound (unit_is p.unit_id) s.units found)) in
      let holds : is_tenancy s.units tenant_id unit.building_id (new_lease p.unit_id) ≡ true =
        rw in_building (ground arith) in
      let there =
        is_some-find_first-append (is_tenancy s.units tenant_id unit.building_id) s.leases
          (new_lease p.unit_id) holds in
      rw (redeem_invite-ok e u t) (refl, or_true_right _ _ there, refl)

-- However a first attempt to redeem a code ends, a second one with the same code is refused as
-- an invalid code, whoever makes it and whenever.
pub redeem_once :
    (now now' : Time) (tenant_id tenant_id' code : Key) (s : PropertyState)
    → (redeem_invite now' tenant_id' code (redeem_invite now tenant_id code s).1).0
      ≡ err invalid_invite_code
unfolding peek_code
redeem_once now now' tenant_id tenant_id' code s =
    redeem_invite-missing now' tenant_id' code (redeem_invite now tenant_id code s).1 (
      rw (redeem_invite-invites now tenant_id code s) (
        rw (
          find_first-delete_many (is_alive code now') (code_is code) s.invites
            (λ i h. ground arith))))
