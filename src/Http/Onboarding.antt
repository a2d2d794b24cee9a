-- ===== src/Http/Onboarding.antt =====
-- An onboarding token presented as a bearer token: src/auth/infrastructure/onboarding-token.service.ts
-- signs it with the secret that src/auth/interface/jwt.strategy.ts verifies with, and `validate` does
-- not look at `typ`.
use estate_server.Base.{
  All, All-update_many, Key, List, Option, Time, arith, false, inl, inr, insufficient_role, is_none,
  refl, some, trivial-All, ◌∷◌, ◌≡◌, ◌⊎◌,
}
use estate_server.Auth.State.{Role, AuthState}
use estate_server.Auth.Tokens.{set_revoked}
use estate_server.Auth.Access.{OnboardingPayload}
use estate_server.Http.Bearer.{onboarding, jwt_auth_guard, validate, roles_guard}
use estate_server.Http.Queries.{logout_all_by, revoke_everyone, not_revoked}
use estate_server.Http.Server.{HttpRequest, ServerState, status, serve, run_guarded}
use estate_server.Http.AuthApi.{
  Site, logout_all_handler, handle, validate_body, is_guarded, success_of, routes, AuthCall,
}
use estate_server.Http.Guarding.{serve_cases}
use estate_server.Errors.{app}

-- POST /auth/logout-all with a bearer token.
abbrev pub logout_all_request : Option Key → Key → HttpRequest AuthCall
logout_all_request ip token = record { ip = ip; bearer = some token; call = logout_all_handler }

abbrev pub AllRevoked : AuthState → Type 0
AllRevoked s = All (λ row. is_none row.revoked_at ≡ false) s.tokens

everyone_revoked : (now : Time) (s : AuthState) → AllRevoked (revoke_everyone now s).1
unfolding revoke_everyone
everyone_revoked now s =
    All-update_many (λ _. Unit {0}) _ not_revoked (set_revoked now) s.tokens (λ row h. ground arith)
      (trivial-All s.tokens)

module _ (site : Site) (now later : Time) (ip : Option Key) (token : Key) (p : OnboardingPayload)
    (good : site.gate.jwt.verify now token ≡ some (onboarding p)) where
  -- No route that requires a role is open to it.
  pub onboarding_without_role :
      (q : Role) (qs : List Role)
      → roles_guard (q ∷ qs) (some (validate (onboarding p))) ≡ some (app insufficient_role)
  unfolding roles_guard validate
  onboarding_without_role q qs = refl

  logout_all_run :
      (s : AuthState)
      → (status (run_guarded site.gate (routes site) now later (logout_all_request ip token) s).0
          ≡ 201)
        × ((run_guarded site.gate (routes site) now later (logout_all_request ip token) s).1
            ≡ (revoke_everyone now s).1)
  unfolding run_guarded jwt_auth_guard is_guarded validate_body handle validate logout_all_by
      revoke_everyone status success_of
  logout_all_run s = (ground arith, ground arith)

  -- If the bearer token verifies as an onboarding token, then POST /auth/logout-all with it
  -- either is refused by the rate limit and changes no table of auth, or is answered with 201
  -- and leaves every refresh token of every user revoked.
  pub onboarding_revokes_all :
      (s : ServerState AuthState)
      → ((status (serve site.gate (routes site) now later (logout_all_request ip token) s).0 ≡ 429)
          × ((serve site.gate (routes site) now later (logout_all_request ip token) s).1.tables
              ≡ s.tables))
        ⊎ ((status (serve site.gate (routes site) now later (logout_all_request ip token) s).0
              ≡ 201)
            × AllRevoked
                (serve site.gate (routes site) now later (logout_all_request ip token) s).1.tables)
  onboarding_revokes_all s =
      elim (serve_cases site.gate (routes site) now later (logout_all_request ip token) s) [
        | inl limited ↦ inl limited
        | inr (run, same) ↦
            let (created, revoked) = logout_all_run s.tables in
            inr (rw run created, rw (same, revoked) (everyone_revoked now s.tables))
      ]
