-- ===== src/Http/PropertyApi.antt =====
-- src/property/interface: building.controller.ts, unit.controller.ts, invite.controller.ts and
-- lease.controller.ts with their DTOs.
use estate_server.Base.{
  Action, Bool, Key, List, Option, Time, [], false, get_or, gets, if◌then◌else◌, map, no_key, none,
  pure, some, true, ℕ, ◌/◌, ◌==◌, ◌>>=◌, ◌∷◌,
}
use estate_server.Base.Int.{ℤ}
use estate_server.Auth.State.{Role, owner}
use estate_server.RateLimit.Window.{Method, get, post, patch, Options}
use estate_server.Property.Entities.{Building, HouseUnit, Lease, LeaseStatus}
use estate_server.Property.Store.{PropertyState, invite_ttl}
use estate_server.Property.Cases.{
  create_building_case, create_unit_case, issue_invite, preview_invite, redeem_invite,
  end_lease_case, list_building_units, LeaseView, lease_view, list_my_leases, list_my_buildings,
}
use estate_server.Http.Bearer.{CurrentUser}
use estate_server.Http.Server.{Routes}

-- The handlers with their bodies; a field is `none` where the body lacks it.
pub data PropertyCall : Type 0 where
  create_building_handler : (name address : Option Key) → PropertyCall
  list_buildings_handler : PropertyCall
  create_unit_handler : (building_id : Key) (name : Option Key) (floor : Option ℤ) → PropertyCall
  list_units_handler : (building_id : Key) → PropertyCall
  issue_invite_handler : (unit_id : Key) → PropertyCall
  preview_invite_handler : (code : Key) → PropertyCall
  redeem_invite_handler : (code : Option Key) → PropertyCall
  my_leases_handler : PropertyCall
  end_lease_handler : (id : Key) → PropertyCall

-- The decorators @Get, @Post and @Patch.
unfoldable pub method_of : PropertyCall → Method
method_of list_buildings_handler = get
method_of (list_units_handler building_id) = get
method_of (preview_invite_handler code) = get
method_of my_leases_handler = get
method_of (end_lease_handler id) = patch
method_of _ = post

-- `@RateLimit({ ipMax: 20 })`
unfoldable pub limit_of : PropertyCall → Option Options
limit_of (preview_invite_handler code) =
    some (record { user_max = none; ip_max = some 20; window_sec = none })
limit_of _ = none

-- `@UseGuards(JwtAuthGuard, …)`
unfoldable pub is_guarded : PropertyCall → Bool
is_guarded (preview_invite_handler code) = false
is_guarded _ = true

-- `@Roles(Role.OWNER)`, where the route has the RolesGuard.
unfoldable pub roles_of : PropertyCall → List Role
roles_of (create_building_handler name address) = owner ∷ []
roles_of list_buildings_handler = owner ∷ []
roles_of (create_unit_handler building_id name floor) = owner ∷ []
roles_of (list_units_handler building_id) = owner ∷ []
roles_of (issue_invite_handler unit_id) = owner ∷ []
roles_of (end_lease_handler id) = owner ∷ []
roles_of _ = []

unfoldable pub success_of : PropertyCall → ℕ
unfolding method_of
success_of call = elim (method_of call) [ post ↦ 201 | _ ↦ 200 ]

-- What the handlers return of the entities.
pub record BuildingView : Type 0 where
  pub id : Option Key
  pub name : Key
  pub address : Key

unfoldable pub building_view : Building → BuildingView
building_view b = record { id = b.id; name = b.name; address = b.address }

pub record UnitView : Type 0 where
  pub id : Option Key
  pub building_id : Key
  pub name : Key
  pub floor : ℤ

unfoldable pub unit_view : HouseUnit → UnitView
unit_view u = record { id = u.id; building_id = u.building_id; name = u.name; floor = u.floor }

pub data Answer : Type 0 where
  of_building : BuildingView → Answer
  of_buildings : List BuildingView → Answer
  of_unit : UnitView → Answer
  of_units : List UnitView → Answer
  of_code : (code : Key) (expires_in_sec : ℕ) → Answer
  of_preview : Option (Key × Key) → Answer
  of_lease : (id : Option Key) (unit_id : Key) → LeaseStatus → Answer
  of_ended : (id : Option Key) (unit_id : Key) → LeaseStatus → Option Time → Answer
  of_leases : List LeaseView → Answer

-- What the handlers call outside the repository: `trim`, and the random invite code.
pub record PropertySite : Type 0 where
  pub trim : Key → Key
  pub random_code : ℕ → Key
  pub path_of : PropertyCall → Key

-- `findByTenant(undefined)` is without a condition.
unfoldable pub list_my_leases_by : Option Key → PropertyState → List LeaseView
unfolding list_my_leases lease_view
list_my_leases_by (some id) s = list_my_leases id s
list_my_leases_by none s = map (lease_view s) s.leases

-- `@Trim() @IsNotEmpty()`
abbrev pub trimmed : (Key → Key) → Option Key → Option Key
trimmed trim none = none
trimmed trim (some k) = if trim k == no_key then none else some (trim k)

-- The step after a field of the body.
abbrev pub with_field :
    {A B : Type 0}
    → Option A
    → (A → Option (Action PropertyState B))
    → Option (Action PropertyState B)
with_field none f = none
with_field (some a) f = f a

abbrev pub then_answer :
    {A : Type 0} → (A → Answer) → Action PropertyState A → Action PropertyState Answer
then_answer f m = m >>= λ a. pure (f a)

module _ (site : PropertySite) where
  -- The handlers behind the ValidationPipe; a role comes with a `sub`, and `Lease.create` refuses a
  -- missing one as it does an empty one.
  unfoldable pub run :
      Time → Time → CurrentUser → PropertyCall → Option (Action PropertyState Answer)
  unfolding building_view unit_view
  run now later user (create_building_handler name address) =
      with_field (trimmed site.trim name) (λ n. with_field (trimmed site.trim address) (λ a. some (
        then_answer (λ b. of_building (building_view b))
          (create_building_case (get_or user.sub no_key) n a))))
  run now later user list_buildings_handler = some (
      then_answer (λ bs. of_buildings (map building_view bs))
        (gets (list_my_buildings (get_or user.sub no_key))))
  run now later user (create_unit_handler building_id name floor) =
      with_field (trimmed site.trim name) (λ n. with_field floor (λ f. some (
        then_answer (λ u. of_unit (unit_view u))
          (create_unit_case (get_or user.sub no_key) building_id n f))))
  run now later user (list_units_handler building_id) = some (
      then_answer (λ us. of_units (map unit_view us))
        (list_building_units (get_or user.sub no_key) building_id))
  run now later user (issue_invite_handler unit_id) = some (
      then_answer (λ code. of_code code (invite_ttl / 1000))
        (issue_invite site.random_code now (get_or user.sub no_key) unit_id))
  run now later user (preview_invite_handler code) =
      some (then_answer of_preview (gets (preview_invite now code)))
  run now later user (redeem_invite_handler code) = with_field (trimmed site.trim code) (λ c. some (
      then_answer (λ (l : Lease). of_lease l.id l.unit_id l.status)
        (redeem_invite now (get_or user.sub no_key) c)))
  run now later user my_leases_handler =
      some (then_answer of_leases (gets (list_my_leases_by user.sub)))
  run now later user (end_lease_handler id) = some (
      then_answer (λ (l : Lease). of_ended l.id l.unit_id l.status l.ended_at)
        (end_lease_case now (get_or user.sub no_key) id))

  abbrev pub routes : Routes PropertyCall Answer PropertyState
  routes = record {
    method_of = method_of;
    limit_of = limit_of;
    is_guarded = is_guarded;
    roles_of = roles_of;
    success_of = success_of;
    path_of = site.path_of;
    run = run;
  }
