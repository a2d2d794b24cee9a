-- ===== src/Property/Leases.antt =====
-- Ending a lease: src/property/application/end-lease.use-case.ts.
use estate_server.Base.{
  AppError, Bool-cases, Key, Option-cases, Result, Time, [], arith, err, find_first-update_many,
  find_first_sound, get_or, inl, inr, lease_already_ended, lease_not_found, no_key,
  not_building_owner, ok, refl, some, true, unit_not_found, update_many, ◌++◌, ◌+◌, ◌∙◌, ◌∷◌, ◌≡◌,
  ◌⊎◌,
}
use estate_server.Events.{DomainEvent, lease_ended, lease, of_end}
use estate_server.Property.Entities.{HouseUnit, Lease, LeaseStatus, active, ended, end_lease}
use estate_server.Property.Store.{
  PropertyState, find_lease, find_unit, find_building, update_lease, add_event, lease_is,
  set_status,
}
use estate_server.Property.Cases.{end_lease_case, owns}

status-cases : (t : LeaseStatus) → (t ≡ active) ⊎ (t ≡ ended)
status-cases active = inl refl
status-cases ended = inr refl

module _ (now : Time) (user_id lease_id : Key) (s : PropertyState) where
  abbrev outcome : Result Lease × PropertyState
  outcome = end_lease_case now user_id lease_id s

  -- The requester owns the building of the unit of the lease.
  pub record IsEntitled (l : Lease) : Type 0 where
    pub unit : HouseUnit
    pub of_unit : find_unit l.unit_id s ≡ some unit
    pub owned : owns user_id (find_building unit.building_id s) ≡ true

  abbrev pub after_end : Lease → Lease
  after_end l = record l { status = ended; ended_at = some now }

  abbrev pub ended_event : Lease → DomainEvent
  ended_event l = record {
    event_id = s.next_uuid;
    event_type = lease_ended;
    occurred_at = now;
    actor_id = some user_id;
    entity_type = lease;
    entity_id = get_or l.id no_key;
    payload = of_end l.unit_id (some now);
  }

  abbrev pub end_state : Lease → PropertyState
  end_state l = record s {
    leases = update_many (lease_is lease_id) (set_status (after_end l)) s.leases;
    events = s.events ++ ended_event l ∷ [];
    next_uuid = s.next_uuid + 1;
  }

  end_ok :
      (l : Lease)
      → find_lease lease_id s ≡ some l
      → IsEntitled l
      → l.status ≡ active
      → outcome ≡ (ok (after_end l), end_state l)
  unfolding end_lease_case end_lease update_lease add_event find_lease
  end_ok l e h a =
      let mine = find_first_sound (lease_is lease_id) s.leases e in
      let unit = h.of_unit in let owned = h.owned in ground arith

  end_ended :
      (l : Lease)
      → find_lease lease_id s ≡ some l
      → IsEntitled l
      → l.status ≡ ended
      → outcome ≡ (err lease_already_ended, s)
  unfolding end_lease_case end_lease
  end_ended l e h a = let unit = h.of_unit in let owned = h.owned in ground arith

  -- Ending a lease either succeeds for an active lease of a building that the requester owns,
  -- and then it ends that lease and adds exactly one event, or it fails and changes nothing.
  pub end_lease_atomic :
      ((l : Lease) × (find_lease lease_id s ≡ some l)
        × IsEntitled l
        × (l.status ≡ active)
        × (outcome ≡ (ok (after_end l), end_state l)))
      ⊎ ((e : AppError) × (outcome ≡ (err e, s)))
  unfolding end_lease_case
  end_lease_atomic = elim (Option-cases (find_lease lease_id s)) [
    | inl missing ↦ inr (lease_not_found, ground arith)
    | inr (l, e) ↦ elim (Option-cases (find_unit l.unit_id s)) [
      | inl missing ↦ inr (unit_not_found, ground arith)
      | inr (u, unit) ↦ elim (Bool-cases (owns user_id (find_building u.building_id s))) [
        | inr foreign ↦ inr (not_building_owner, ground arith)
        | inl owned ↦
            let h : IsEntitled l = record { unit = u; of_unit = unit; owned = owned } in
            elim (status-cases l.status) [
              | inl a ↦ inl (l, e, h, a, end_ok l e h a)
              | inr a ↦ inr (lease_already_ended, end_ended l e h a)
            ]
      ]
    ]
  ]

  find_lease-end_state :
      (l : Lease)
      → find_lease lease_id s ≡ some l
      → find_lease lease_id (end_state l) ≡ some (after_end l)
  unfolding find_lease
  find_lease-end_state l e =
      let mine = find_first_sound (lease_is lease_id) s.leases e in
      let moved =
        find_first-update_many (lease_is lease_id) (lease_is lease_id) (lease_is lease_id)
          (set_status (after_end l)) s.leases (λ x. ground arith) in
      moved ∙ ground arith

-- After an entitled user has ended an active lease, the same user's next attempt, whenever it
-- is made, is refused as already ended and changes nothing.
pub end_lease_twice :
    (now now' : Time) (user_id lease_id : Key) (s : PropertyState) {l : Lease}
    → find_lease lease_id s ≡ some l
    → IsEntitled now user_id lease_id s l
    → l.status ≡ active
    → let s' = (end_lease_case now user_id lease_id s).1 in
      end_lease_case now' user_id lease_id s' ≡ (err lease_already_ended, s')
unfolding find_unit find_building
end_lease_twice now now' user_id lease_id s {l} e h a = rw (end_ok now user_id lease_id s l e h a) (
    end_ended now' user_id lease_id (end_state now user_id lease_id s l)
      (after_end now user_id lease_id s l) (find_lease-end_state now user_id lease_id s l e)
      (record { unit = h.unit; of_unit = h.of_unit; owned = h.owned }) refl)
