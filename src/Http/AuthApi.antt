-- ===== src/Http/AuthApi.antt =====
-- src/auth/interface/auth.controller.ts with its DTOs: a request passes the rate limit, the guard of
-- its route and the validation of its body before the handler runs.
use estate_server.Base.{
  Action, Bool, Key, List, Option, Result, Time, [], false, gets, if◌then◌else◌, leb, no_key, none,
  pure, some, true, ℕ, ◌==◌, ◌>>=◌,
}
use mathlib.Core.Option
use estate_server.Http.Server.{Gate, Routes}
use estate_server.Auth.State.{Role, AuthState}
use estate_server.Auth.User.{User}
use estate_server.Auth.Session.{AuthEnv, TokenPair, SessionView, refresh, logout}
use estate_server.Auth.Access.{
  KakaoEnv, KakaoLogin, KakaoProfile, is_allowed, sign_up, login, kakao_login,
  complete_kakao_signup,
}
use estate_server.RateLimit.Window.{Method, get, post, patch, delete, Options}
use estate_server.Http.Bearer.{issue_access, issue_onboarding, verify_onboarding, CurrentUser}
use estate_server.Http.Queries.{
  get_profile_by, update_profile_by, change_password_by, logout_all_by, list_sessions_by,
  revoke_session_by,
}

-- The field `role` of a body: left out, a role, or anything else.
pub data RoleField : Type 0 where
  unset : RoleField
  named : Role → RoleField
  not_role : RoleField

-- The handlers with their bodies; a field of text is `none` where the body lacks it.
pub data AuthCall : Type 0 where
  signup : (email name password : Option Key) → RoleField → AuthCall
  login_handler : (email password : Option Key) → AuthCall
  kakao_login_handler : (code redirect_uri : Option Key) → AuthCall
  complete_kakao_handler : (onboarding_token : Option Key) → RoleField → AuthCall
  me : AuthCall
  profile : AuthCall
  edit_profile : (name : Option Key) → AuthCall
  edit_password : (current_password new_password : Option Key) → AuthCall
  refresh_handler : (refresh_token : Option Key) → AuthCall
  logout_handler : (refresh_token : Option Key) → AuthCall
  logout_all_handler : AuthCall
  sessions : AuthCall
  revoke_session_by_id : (family_id : Key) → AuthCall

-- The decorators @Get, @Post, @Patch and @Delete.
unfoldable pub method_of : AuthCall → Method
method_of me = get
method_of profile = get
method_of sessions = get
method_of (edit_profile name) = patch
method_of (edit_password current new) = patch
method_of (revoke_session_by_id family_id) = delete
method_of _ = post

-- `@RateLimit({ ipMax: 10 })`
abbrev pub ten_by_ip : Option Options
ten_by_ip = some (record { user_max = none; ip_max = some 10; window_sec = none })

unfoldable pub limit_of : AuthCall → Option Options
limit_of (signup email name password role) = ten_by_ip
limit_of (login_handler email password) = ten_by_ip
limit_of (kakao_login_handler code redirect_uri) = ten_by_ip
limit_of (complete_kakao_handler token role) = ten_by_ip
limit_of (edit_profile name) = ten_by_ip
limit_of (edit_password current new) = ten_by_ip
limit_of _ = none

-- `@UseGuards(JwtAuthGuard)`
unfoldable pub is_guarded : AuthCall → Bool
is_guarded me = true
is_guarded profile = true
is_guarded (edit_profile name) = true
is_guarded (edit_password current new) = true
is_guarded logout_all_handler = true
is_guarded sessions = true
is_guarded (revoke_session_by_id family_id) = true
is_guarded _ = false

-- The status of an answer: 201 to @Post, the one of @HttpCode, else 200.
unfoldable pub success_of : AuthCall → ℕ
unfolding method_of
success_of call = elim (method_of call) [ post ↦ 201 | delete ↦ 204 | _ ↦ 200 ]

-- What the validation calls of the language and of the library class-validator.
pub record Text : Type 0 where
  pub trim : Key → Key
  pub is_email : Key → Bool
  pub size : Key → ℕ

-- A call whose body is valid, as the handlers take it.
pub data Command : Type 0 where
  do_sign_up : (email name password : Key) → Option Role → Command
  do_login : (email password : Key) → Command
  do_kakao_login : (code redirect_uri : Key) → Command
  do_complete : Key → Role → Command
  do_me do_profile do_logout_all do_sessions : Command
  do_edit_profile : Key → Command
  do_edit_password : (current new : Key) → Command
  do_refresh : Key → Command
  do_logout : Key → Command
  do_revoke_session : Key → Command

-- `@IsString() @IsNotEmpty()`, or `@IsNotEmpty()` alone.
abbrev pub filled : Option Key → Option Key
filled none = none
filled (some k) = if k == no_key then none else some k

-- `@IsOptional() @IsIn([Role.OWNER, Role.TENANT])`
abbrev pub optional_role : RoleField → Option (Option Role)
optional_role unset = some none
optional_role (named r) = if is_allowed r then some (some r) else none
optional_role not_role = none

-- `@IsIn([Role.OWNER, Role.TENANT])`
abbrev pub required_role : RoleField → Option Role
required_role unset = none
required_role (named r) = if is_allowed r then some r else none
required_role not_role = none

-- The step after a value that may be missing.
abbrev pub given : {A B : Type 0} → Option A → (A → Option B) → Option B
given none f = none
given (some a) f = f a

abbrev pub when : {B : Type 0} → Bool → Option B → Option B
when true b = b
when false b = none

module _ (text : Text) where
  -- `@Trim() @IsEmail()`
  abbrev pub email_field : Option Key → Option Key
  email_field none = none
  email_field (some k) = when (text.is_email (text.trim k)) (some (text.trim k))

  -- `@Trim() @IsNotEmpty()`
  abbrev pub trimmed_field : Option Key → Option Key
  trimmed_field none = none
  trimmed_field (some k) = filled (some (text.trim k))

  -- `@MinLength(8)`
  abbrev pub long_field : Option Key → Option Key
  long_field none = none
  long_field (some k) = when (leb 8 (text.size k)) (some k)

  -- The ValidationPipe: `none` is its BadRequestException.
  unfoldable pub validate_body : AuthCall → Option Command
  validate_body (signup email name password role) = given (email_field email) (λ e.
      given (trimmed_field name) (λ n.
        given (long_field password)
          (λ p. given (optional_role role) (λ r. some (do_sign_up e n p r)))))
  validate_body (login_handler email password) =
      given (email_field email) (λ e. given (filled password) (λ p. some (do_login e p)))
  validate_body (kakao_login_handler code redirect_uri) =
      given (filled code) (λ c. given (filled redirect_uri) (λ r. some (do_kakao_login c r)))
  validate_body (complete_kakao_handler token role) =
      given (filled token) (λ t. given (required_role role) (λ r. some (do_complete t r)))
  validate_body me = some do_me
  validate_body profile = some do_profile
  validate_body (edit_profile name) = given (filled name) (λ n. some (do_edit_profile n))
  validate_body (edit_password current new) = given (filled current) (λ c.
      given (given (filled new) (λ n. long_field (some n))) (λ n. some (do_edit_password c n)))
  validate_body (refresh_handler token) = given (filled token) (λ t. some (do_refresh t))
  validate_body (logout_handler token) = given (filled token) (λ t. some (do_logout t))
  validate_body logout_all_handler = some do_logout_all
  validate_body sessions = some do_sessions
  validate_body (revoke_session_by_id family_id) = some (do_revoke_session family_id)

-- `{ id, email, name, role }` of a user
pub record UserView : Type 0 where
  pub id : Option Key
  pub email : Key
  pub name : Key
  pub role : Role

unfoldable pub user_view : User → UserView
user_view u = record { id = u.id; email = u.email; name = u.name; role = u.role }

-- The bodies of the answers.
pub data Answer : Type 0 where
  of_user : UserView → Answer
  tokens : TokenPair → Answer
  of_kakao : KakaoLogin → Answer
  of_me : (id email : Option Key) → Option Role → Answer
  changed : Answer
  of_sessions : List SessionView → Answer
  nothing : Answer

-- What the routes are run with: what the use cases call (`base.sign` is not used: `env_at` puts
-- JwtTokenService there), the call of Kakao, and the addresses of the routes.
pub record Site : Type 0 where
  pub gate : Gate
  pub base : AuthEnv
  pub exchange : Key → Key → Result KakaoProfile
  pub text : Text
  pub path_of : AuthCall → Key

-- The answer of a handler that succeeds, made from what its use case returns.
abbrev pub then_answer : {A : Type 0} → (A → Answer) → Action AuthState A → Action AuthState Answer
then_answer f m = m >>= λ a. pure (f a)

module _ (site : Site) where
  abbrev pub env_at : Time → AuthEnv
  env_at now = record {
    random_token = site.base.random_token;
    sha256 = site.base.sha256;
    sign = issue_access site.gate.jwt now;
    compare = site.base.compare;
    hash_password = site.base.hash_password;
    ttl_days = site.base.ttl_days;
  }

  abbrev pub kakao_at : Time → KakaoEnv
  kakao_at now = record {
    exchange = site.exchange;
    sign = issue_onboarding site.gate.jwt now;
    verify = verify_onboarding site.gate.jwt now;
  }

  -- The methods of AuthController; `user` is `@CurrentUser()`, which only the guarded ones read.
  unfoldable pub handle : Time → Time → CurrentUser → Command → Action AuthState Answer
  unfolding user_view
  handle now later user (do_sign_up email name password role) =
      then_answer (λ u. of_user (user_view u)) (sign_up (env_at now) email name password role)
  handle now later user (do_login email password) =
      then_answer tokens (login (env_at later) later email password)
  handle now later user (do_kakao_login code redirect_uri) =
      then_answer of_kakao (kakao_login (env_at later) (kakao_at later) later code redirect_uri)
  handle now later user (do_complete token role) =
      then_answer tokens (complete_kakao_signup (env_at later) (kakao_at now) later token role)
  handle now later user do_me = pure (of_me user.sub user.email user.role)
  handle now later user do_profile =
      then_answer (λ u. of_user (user_view u)) (get_profile_by user.sub)
  handle now later user (do_edit_profile name) =
      then_answer (λ u. of_user (user_view u)) (update_profile_by site.text.trim user.sub name)
  handle now later user (do_edit_password current new) =
      then_answer (λ _. changed) (change_password_by (env_at now) now user.sub current new)
  handle now later user (do_refresh token) =
      then_answer tokens (refresh (env_at later) now later token)
  handle now later user (do_logout token) =
      then_answer (λ _. nothing) (logout (env_at now) now token)
  handle now later user do_logout_all = then_answer (λ _. nothing) (logout_all_by now user.sub)
  handle now later user do_sessions =
      then_answer of_sessions (gets (list_sessions_by now user.sub user.fam))
  handle now later user (do_revoke_session family_id) =
      then_answer (λ _. nothing) (revoke_session_by now user.sub family_id)

  abbrev pub routes : Routes AuthCall Answer AuthState
  routes = record {
    method_of = method_of;
    limit_of = limit_of;
    is_guarded = is_guarded;
    roles_of = λ call. [];
    success_of = success_of;
    path_of = site.path_of;
    run = λ now later user call. Option.map (handle now later user) (validate_body site.text call);
  }
