-- ===== src/Http/Bearer.antt =====
-- The JSON web tokens and the guards that read them: src/auth/infrastructure/jwt-token.service.ts and
-- onboarding-token.service.ts, and src/auth/interface/jwt.strategy.ts, jwt-auth.guard.ts and
-- roles.guard.ts.
use estate_server.Base.{
  Bool, Key, List, Option, Time, [], false, if◌then◌else◌, insufficient_role, none, some, true, ℕ,
  ◌||◌, ◌∷◌,
}
use estate_server.Auth.State.{Role, owner, tenant, admin}
use estate_server.Auth.Session.{TokenPayload}
use estate_server.Auth.Access.{OnboardingPayload}
use estate_server.Errors.{Exception, app, http, missing}

-- What is signed: `typ` is in the claims of an onboarding token only.
pub data Claims : Type 0 where
  access : TokenPayload → Claims
  onboarding : OnboardingPayload → Claims

-- The JwtService of the module, with its one secret: `sign` at a time and for a number of seconds,
-- and `verify` at a time, `none` where the library rejects the token.
pub record Jwt : Type 0 where
  pub sign : Time → ℕ → Claims → Key
  pub verify : Time → Key → Option Claims
  pub expires_in : ℕ

-- `'10m'`
abbrev pub onboarding_lifetime : ℕ
onboarding_lifetime = 600

module _ (jwt : Jwt) where
  -- `JwtTokenService.issue`
  abbrev pub issue_access : Time → TokenPayload → Key
  issue_access now p = jwt.sign now jwt.expires_in (access p)

  -- `OnboardingTokenService.issue`
  abbrev pub issue_onboarding : Time → OnboardingPayload → Key
  issue_onboarding now p = jwt.sign now onboarding_lifetime (onboarding p)

  -- `OnboardingTokenService.verify`, `none` where it throws.
  unfoldable pub verify_onboarding : Time → Key → Option OnboardingPayload
  verify_onboarding now token = elim (jwt.verify now token) [
    | none ↦ none
    | some c ↦ elim c [ access p ↦ none | onboarding p ↦ some p ]
  ]

-- `request.user`: the claims as the type TokenPayload names them, `none` where they have no such
-- field.
pub record CurrentUser : Type 0 where
  pub sub : Option Key
  pub email : Option Key
  pub role : Option Role
  pub fam : Option Key

-- `JwtStrategy.validate`, which returns the claims, whatever they are.
unfoldable pub validate : Claims → CurrentUser
validate (access p) = record {
  sub = some p.sub;
  email = some p.email;
  role = some p.role;
  fam = some p.fam;
}
validate (onboarding p) = record { sub = none; email = some p.email; role = none; fam = none }

-- JwtAuthGuard: the bearer token, if there is one, verified by passport-jwt with the same secret,
-- and the answer 401 otherwise.
pub data Admission : Type 0 where
  admitted : CurrentUser → Admission
  denied : Exception → Admission

abbrev pub unauthorized : Exception
unauthorized = http 401 missing

unfoldable pub jwt_auth_guard : Jwt → Time → Option Key → Admission
unfolding validate
jwt_auth_guard jwt now none = denied unauthorized
jwt_auth_guard jwt now (some token) = elim (jwt.verify now token) [
  | none ↦ denied unauthorized
  | some c ↦ admitted (validate c)
]

-- The `sub` that the rate limit reads of the same header.
unfoldable pub extract_user_id : Jwt → Time → Option Key → Option Key
unfolding validate
extract_user_id jwt now none = none
extract_user_id jwt now (some token) = elim (jwt.verify now token) [
  | none ↦ none
  | some c ↦ (validate c).sub
]

abbrev pub same_role : Role → Role → Bool
same_role owner owner = true
same_role tenant tenant = true
same_role admin admin = true
same_role _ _ = false

-- `required.includes(user.role)`
abbrev pub includes_role : List Role → Option Role → Bool
includes_role required none = false
includes_role [] (some r) = false
includes_role (q ∷ qs) (some r) = same_role q r || includes_role qs (some r)

-- `RolesGuard.canActivate`, with the roles that the metadata of the route requires; `none` where the
-- request has no user.
unfoldable pub roles_guard : List Role → Option CurrentUser → Option Exception
roles_guard [] user = none
roles_guard (q ∷ qs) none = some (app insufficient_role)
roles_guard (q ∷ qs) (some user) =
    if includes_role (q ∷ qs) user.role then none else some (app insufficient_role)
