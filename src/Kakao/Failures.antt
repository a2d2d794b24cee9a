-- ===== src/Kakao/Failures.antt =====
-- What a login with Kakao answers when a call of Kakao fails: kakao-oauth.client.ts under
-- src/auth/application/kakao-login.use-case.ts.
use estate_server.Base.{
  AppError, Bool, Bool-cases, Key, Option, Time, ap, err, false, if◌then◌else◌, inl, inr,
  kakao_unavailable, ok, outside_failure, refl, true, ◌||◌, ◌∙◌, ◌≡◌, ◌⊎◌,
}
use estate_server.Auth.State.{AuthState}
use estate_server.Auth.Session.{AuthEnv}
use estate_server.Auth.Access.{OnboardingPayload, kakao_login}
use estate_server.Kakao.Client.{
  Failure, Outcome, Kakao, ProfileBody, attempt, api_error, broken_circuit, bulkhead_rejected,
  task_cancelled, type_error, other_error, done, failed, is_transient, transient_only, map_failure,
  error_of, settle_call, call_kakao, fetch_profile, shape_profile, exchange_and_fetch,
}

-- Failures that a policy makes without asking Kakao.
abbrev pub is_refusal : Failure → Bool
is_refusal broken_circuit = true
is_refusal bulkhead_rejected = true
is_refusal _ = false

abbrev pub token_outcome : Kakao → Key → Key → Outcome Key
token_outcome k code redirect_uri =
    k.token_policy (λ n. attempt (k.token_answer code redirect_uri n))

abbrev pub profile_outcome : Kakao → Key → Outcome ProfileBody
profile_outcome k token = k.profile_policy (λ n. attempt (k.profile_answer token n))

-- The code that a failure is answered with.
abbrev pub code_of : Failure → AppError
code_of f = if transient_only f || is_refusal f then kakao_unavailable else outside_failure

-- The mapping of the client and the filter of the policies agree on what is temporary.
error_of-map_failure : (f : Failure) → error_of (map_failure f) ≡ code_of f
unfolding map_failure transient_only
error_of-map_failure (api_error status) = elim (Bool-cases (is_transient status)) [
  | inl temporary ↦ rw temporary refl
  | inr permanent ↦ rw permanent refl
]
error_of-map_failure broken_circuit = refl
error_of-map_failure bulkhead_rejected = refl
error_of-map_failure task_cancelled = refl
error_of-map_failure type_error = refl
error_of-map_failure other_error = refl

module _ (k : Kakao) (code redirect_uri : Key) {f : Failure} where
  token_fails :
      token_outcome k code redirect_uri ≡ failed f
      → exchange_and_fetch k code redirect_uri ≡ err (code_of f)
  unfolding exchange_and_fetch call_kakao settle_call
  token_fails e = rw (e, error_of-map_failure f) refl

  profile_fails :
      {token : Key}
      → token_outcome k code redirect_uri ≡ done token
      → profile_outcome k token ≡ failed f
      → exchange_and_fetch k code redirect_uri ≡ err (code_of f)
  unfolding exchange_and_fetch call_kakao settle_call
  profile_fails {token} e e' =
      let fetched : exchange_and_fetch k code redirect_uri ≡ fetch_profile k (ok token) =
        ap (λ o. fetch_profile k (settle_call o)) e in
      let ends : call_kakao k.profile_policy (k.profile_answer token) ≡ err (code_of f) =
        ap settle_call e' ∙ ap err (error_of-map_failure f) in
      fetched ∙ ap (shape_profile k) ends

  -- If the call for the token ends with a failure `f`, or it ends with a token and the call
  -- for the profile ends with `f`, whatever the policies do and Kakao answers besides, then a
  -- login with Kakao changes nothing and is answered with KAKAO_UNAVAILABLE where `f` is one
  -- that the policies count as temporary or a refusal by the circuit breaker or the bulkhead,
  -- and with the failure as it is otherwise.
  pub kakao_login_fails :
      (env : AuthEnv) (sign : OnboardingPayload → Key) (verify : Key → Option OnboardingPayload)
      (now : Time) (s : AuthState)
      → (token_outcome k code redirect_uri ≡ failed f)
        ⊎ ((token : Key) × (token_outcome k code redirect_uri ≡ done token)
            × (profile_outcome k token ≡ failed f))
      → kakao_login env
          (record { exchange = exchange_and_fetch k; sign = sign; verify = verify })
          now
          code
          redirect_uri
          s
        ≡ (err (code_of f), s)
  unfolding kakao_login
  kakao_login_fails env sign verify now s (inl e) = rw (token_fails e) refl
  kakao_login_fails env sign verify now s (inr (token, e, e')) = rw (profile_fails e e') refl
