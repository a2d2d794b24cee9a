-- ===== src/Http/Owners.antt =====
-- Who the RolesGuard lets through to the routes of src/property/interface.
use estate_server.Base.{
  Bool, Key, Option-cases, Time, [], ap, arith, false, inl, inr, insufficient_role, refl, some,
  true, ◌∷◌, ◌≡◌, ◌≢◌, ◌⊎◌,
}
use estate_server.Auth.State.{Role, owner, tenant, admin}
use estate_server.Auth.Session.{TokenPayload}
use estate_server.Errors.{app, status_of, to_error_response}
use estate_server.Property.Store.{PropertyState}
use estate_server.Http.Bearer.{
  Claims, access, onboarding, denied, admitted, unauthorized, jwt_auth_guard, validate, roles_guard,
}
use estate_server.Http.Server.{
  Gate, HttpRequest, ServerState, serve, status, refuse, run_guarded, admission,
}
use estate_server.Http.PropertyApi.{
  PropertyCall, create_building_handler, list_buildings_handler, create_unit_handler,
  list_units_handler, issue_invite_handler, end_lease_handler, PropertySite, routes, is_guarded,
  roles_of,
}
use estate_server.Http.Guarding.{serve_cases}

-- What only the owner of a building does, and reads of it.
abbrev pub for_owners : PropertyCall → Bool
for_owners (create_building_handler name address) = true
for_owners list_buildings_handler = true
for_owners (create_unit_handler building_id name floor) = true
for_owners (list_units_handler building_id) = true
for_owners (issue_invite_handler unit_id) = true
for_owners (end_lease_handler id) = true
for_owners _ = false

for_owners-roles_of :
    (call : PropertyCall)
    → for_owners call ≡ true
    → (is_guarded call ≡ true) × (roles_of call ≡ owner ∷ [])
unfolding is_guarded roles_of
for_owners-roles_of call h = ground arith

not_owner_denied :
    (p : TokenPayload)
    → p.role ≢ owner
    → roles_guard (owner ∷ []) (some (validate (access p))) ≡ some (app insufficient_role)
unfolding roles_guard validate
not_owner_denied p h = go p.role refl
  where
    go :
        (r : Role)
        → p.role ≡ r
        → roles_guard (owner ∷ []) (some (validate (access p))) ≡ some (app insufficient_role)
    go owner e = absurd (h e)
    go tenant e = rw e refl
    go admin e = rw e refl

refused_claims :
    (c : Claims)
    → ((p : TokenPayload) → c ≡ access p → p.role ≢ owner)
    → roles_guard (owner ∷ []) (some (validate c)) ≡ some (app insufficient_role)
unfolding roles_guard validate
refused_claims (access p) h = not_owner_denied p (h p refl)
refused_claims (onboarding p) h = refl

module _ (gate : Gate) (site : PropertySite) (now later : Time)
    (req : HttpRequest PropertyCall) where
  guard_outcome :
      (jwt_auth_guard gate.jwt now req.bearer ≡ denied unauthorized)
      ⊎ ((token : Key) × (c : Claims) × (req.bearer ≡ some token)
          × (gate.jwt.verify now token ≡ some c)
          × (jwt_auth_guard gate.jwt now req.bearer ≡ admitted (validate c)))
  unfolding jwt_auth_guard
  guard_outcome = elim (Option-cases req.bearer) [
    | inl bare ↦ inl (rw (bare, jwt_auth_guard) refl)
    | inr (token, e) ↦ elim (Option-cases (gate.jwt.verify now token)) [
      | inl bad ↦ inl (rw (e, jwt_auth_guard, bad) refl)
      | inr (c, good) ↦ inr (token, c, e, good, rw (e, jwt_auth_guard, good) refl)
    ]
  ]

  -- Whoever is not an owner is stopped by one of the two guards.
  stopped :
      for_owners req.call ≡ true
      → ((token : Key) (p : TokenPayload)
          → req.bearer ≡ some token
          → gate.jwt.verify now token ≡ some (access p)
          → p.role ≢ owner)
      → (admission gate (routes site) now req ≡ denied unauthorized)
        ⊎ (admission gate (routes site) now req ≡ denied (app insufficient_role))
  stopped h not_owner =
      let (guarded, required) = for_owners-roles_of req.call h in
      elim guard_outcome [
        | inl out ↦ inl (rw (guarded, required, out) refl)
        | inr (token, c, e, good, inside) ↦
            let no_role = refused_claims c (λ p k. not_owner token p e (rw good (ap some k))) in
            inr (rw (guarded, required, inside, no_role) refl)
      ]

  -- If a call is one of the owner's, that is it creates or lists buildings or units, issues
  -- an invite code or ends a lease, and the request has no bearer token that verifies as an
  -- access token with the role of an owner, then the answer has the status 401, 403, or 429
  -- of the rate limit, and no table of property has changed.
  pub owners_only :
      (s : ServerState PropertyState)
      → for_owners req.call ≡ true
      → ((token : Key) (p : TokenPayload)
          → req.bearer ≡ some token
          → gate.jwt.verify now token ≡ some (access p)
          → p.role ≢ owner)
      → let (response, s') = serve gate (routes site) now later req s in
        ((status response ≡ 401) ⊎ (status response ≡ 403) ⊎ (status response ≡ 429))
        × (s'.tables ≡ s.tables)
  unfolding refuse status to_error_response status_of run_guarded
  owners_only s h not_owner = elim (serve_cases gate (routes site) now later req s) [
    | inl (limited, same) ↦ (inr (inr limited), same)
    | inr (run, same) ↦ elim (stopped h not_owner) [
      | inl no_token ↦ rw (run, same, run_guarded, no_token) (inl refl, refl)
      | inr no_role ↦ rw (run, same, run_guarded, no_role) (inr (inl refl), refl)
    ]
  ]
