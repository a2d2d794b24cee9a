-- ===== src/Base/Monad.antt =====
-- Exceptions as values, and a use case as a function of the state it reads and writes. What was
-- written before a throw stays written, unless it was written in a transaction.
-- The error codes stand in src/auth/auth.errors.ts, src/board/board.errors.ts and their likes.
use mathlib.Core.Bool.{Bool, true, false}
use mathlib.Core.Option.{Option, none, some}
use mathlib.Core.Path.{◌≡◌, refl}
use mathlib.Core.Logic.{◌⊎◌, inl, inr}

-- The application's error codes, `domain_error` for a DomainError, and what Prisma throws: P2002
-- (unique_violation), P2025 (record_not_found) and any other failure of an outside system.
pub data AppError : Type 0 where
  email_in_use invalid_credentials insufficient_role invalid_role user_not_found : AppError
  kakao_email_required invalid_onboarding kakao_unavailable : AppError
  invalid_refresh_token refresh_token_reused not_session_owner : AppError
  building_not_found not_building_owner unit_not_found invalid_invite_code : AppError
  lease_not_found lease_already_ended : AppError
  post_not_found not_author not_building_member : AppError
  room_not_found not_room_participant chat_building_not_found tenant_not_member : AppError
  rate_limit_exceeded domain_error unique_violation record_not_found outside_failure : AppError

pub data Result (A : Type 0) : Type 0 where
  ok : A → Result A
  err : AppError → Result A

abbrev pub Action : Type 0 → Type 0 → Type 0
Action S A = S → Result A × S

module _ {S A : Type 0} where
  abbrev pub pure : A → Action S A
  pure a s = (ok a, s)

  abbrev pub raise : AppError → Action S A
  raise e s = (err e, s)

  abbrev pub gets : (S → A) → Action S A
  gets f s = (ok (f s), s)

  -- `if (!found) throw e`
  abbrev pub or_raise : Option A → AppError → Action S A
  or_raise o e s = (elim o [ none ↦ err e | some a ↦ ok a ], s)

  -- `txRunner.run`: a throw in the callback rolls the database back, as `rollback` says it of the
  -- states before and after.
  abbrev pub settle : (S → S → S) → S → Result A × S → Result A × S
  settle rollback s (ok a, s') = (ok a, s')
  settle rollback s (err e, s') = (err e, rollback s s')

  abbrev pub transaction : (S → S → S) → Action S A → Action S A
  transaction rollback m s = settle rollback s (m s)

infixl 5 ◌>>=◌ ◌>>◌
abbrev pub ◌>>=◌ : {S A B : Type 0} → Action S A → (A → Action S B) → Action S B
◌>>=◌ m f s = let (r, s') = m s in elim r [ ok a ↦ f a s' | err e ↦ (err e, s') ]

abbrev pub ◌>>◌ : {S A B : Type 0} → Action S A → Action S B → Action S B
m >> k = m >>= λ _. k

abbrev pub raise_if : {S : Type 0} → Bool → AppError → Action S (Unit {0})
raise_if c e s = (elim c [ true ↦ err e | false ↦ ok tt ], s)

abbrev pub modify : {S : Type 0} → (S → S) → Action S (Unit {0})
modify f s = (ok tt, f s)

-- `catch` of one error code, thrown on as another.
abbrev pub rethrow : {A : Type 0} → (AppError → AppError) → Result A → Result A
rethrow f (ok a) = ok a
rethrow f (err e) = err (f e)

pub Result-cases :
    {A : Type 0} (r : Result A) → ((a : A) × (r ≡ ok a)) ⊎ ((e : AppError) × (r ≡ err e))
Result-cases (ok a) = inl (a, refl)
Result-cases (err e) = inr (e, refl)
