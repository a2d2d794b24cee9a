-- ===== src/Auth/Access.antt =====
-- src/auth/application: sign-up, login, kakao-login, complete-kakao-signup, get-profile and
-- update-profile.
pub mod Login
pub mod Invariant
use estate_server.Base.{
  Action, AppError, Bool, Key, Option, Result, Time, email_in_use, false, get_or, gets,
  invalid_credentials, invalid_onboarding, invalid_role, is_some, kakao_email_required, no_key,
  none, not, or_raise, pure, raise_if, rethrow, some, true, unique_violation, user_not_found, ◌==◌,
  ◌>>=◌, ◌>>◌,
}
use mathlib.Core.Option
use estate_server.Auth.State.{Role, owner, tenant, admin, AuthState}
use estate_server.Auth.User
use estate_server.Auth.User.{User, create_oauth, rename}
use estate_server.Auth.Users
use estate_server.Auth.Users.{
  find_by_email, find_by_id, find_by_provider, save_with_account, update,
}
use estate_server.Auth.Session.{AuthEnv, TokenPair, session_user, issue}

-- A value that is a result, as a step that keeps the state.
abbrev pub lift : {A : Type 0} → Result A → Action AuthState A
lift r s = (r, s)

-- `ALLOWED_SELF_SIGNUP_ROLES.includes`, and `ALLOWED.includes` for Kakao.
abbrev pub is_allowed : Role → Bool
is_allowed owner = true
is_allowed tenant = true
is_allowed admin = false

-- `SignUpUseCase.execute`
unfoldable pub sign_up : AuthEnv → Key → Key → Key → Option Role → Action AuthState User
sign_up env email name password role = do
  raise_if (not (is_allowed (get_or role tenant))) invalid_role
  existing ← gets (find_by_email email)
  raise_if (is_some existing) email_in_use
  user ← lift (User.create email name (env.hash_password password) role)
  Users.save user

-- `LoginUseCase.execute`
unfoldable pub login : AuthEnv → Time → Key → Key → Action AuthState TokenPair
login env now email password = do
  found ← gets (find_by_email email)
  user ← or_raise found invalid_credentials
  password_hash ← or_raise user.password_hash invalid_credentials
  raise_if (password_hash == no_key) invalid_credentials
  raise_if (not (env.compare password password_hash)) invalid_credentials
  issue env now (session_user user) none

-- KakaoProfile and OnboardingPayload
pub record KakaoProfile : Type 0 where
  pub provider_id : Key
  pub email : Option Key
  pub name : Key

pub record OnboardingPayload : Type 0 where
  pub provider_id : Key
  pub email : Key
  pub name : Key

-- What the Kakao use cases call: `exchange` asks Kakao with the code and the redirect address, or
-- throws; `sign` and `verify` are the onboarding token, `none` where `verify` throws.
pub record KakaoEnv : Type 0 where
  pub exchange : Key → Key → Result KakaoProfile
  pub sign : OnboardingPayload → Key
  pub verify : Key → Option OnboardingPayload

-- AuthProvider.KAKAO
abbrev pub kakao : Key
kakao = 1

pub data KakaoLogin : Type 0 where
  session : TokenPair → KakaoLogin
  onboarding : Key → KakaoLogin

-- The user of an account that is linked already gets a session.
abbrev pub issue_for : AuthEnv → Time → Key → Action AuthState TokenPair
issue_for env now user_id = do
  found ← gets (find_by_id user_id)
  user ← or_raise found user_not_found
  issue env now (session_user user) none

-- `KakaoLoginUseCase.execute`
unfoldable pub kakao_login : AuthEnv → KakaoEnv → Time → Key → Key → Action AuthState KakaoLogin
kakao_login env k now code redirect = do
  profile ← lift (k.exchange code redirect)
  raise_if (get_or profile.email no_key == no_key) kakao_email_required
  account ← gets (find_by_provider kakao profile.provider_id)
  elim account [
    | some a ↦ issue_for env now a.user_id >>= λ pair. pure (session pair)
    | none ↦ pure (
        onboarding (
          k.sign (record {
            provider_id = profile.provider_id;
            email = get_or profile.email no_key;
            name = profile.name;
          })))
  ]

-- `catch` of P2002 at the creation of user and account.
abbrev pub as_email_in_use : AppError → AppError
as_email_in_use unique_violation = email_in_use
as_email_in_use e = e

abbrev pub rethrowing :
    {A : Type 0} → (AppError → AppError) → Action AuthState A → Action AuthState A
rethrowing f m s = let (r, s') = m s in (rethrow f r, s')

-- `CompleteKakaoSignupUseCase.execute`
unfoldable pub complete_kakao_signup :
    AuthEnv → KakaoEnv → Time → Key → Role → Action AuthState TokenPair
complete_kakao_signup env k now token role = do
  raise_if (not (is_allowed role)) invalid_role
  payload ← (λ s. or_raise (k.verify token) invalid_onboarding s)
  existing ← gets (find_by_provider kakao payload.provider_id)
  elim existing [
    | some a ↦ issue_for env now a.user_id
    | none ↦ do
      user ← rethrowing as_email_in_use (do
        draft ← lift (create_oauth payload.email payload.name role)
        save_with_account draft kakao payload.provider_id)
      issue env now (session_user user) none
  ]

-- `GetProfileUseCase.execute`
unfoldable pub get_profile : Key → Action AuthState User
get_profile user_id = do
  found ← gets (find_by_id user_id)
  user ← or_raise found user_not_found
  pure user

-- `UpdateProfileUseCase.execute`; `trim` is `String.prototype.trim`.
unfoldable pub update_profile : (Key → Key) → Key → Key → Action AuthState User
update_profile trim user_id name = do
  found ← gets (find_by_id user_id)
  user ← or_raise found user_not_found
  renamed ← lift (rename trim name user)
  update renamed
