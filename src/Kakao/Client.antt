-- ===== src/Kakao/Client.antt =====
-- src/auth/infrastructure/kakao-oauth.client.ts, kakao-api.error.ts, and the filter of
-- kakao-resilience.ts. The policies are the library cockatiel's, and so parameters.
use estate_server.Base.{
  AppError, Bool, Key, Option, Result, err, false, get_or, if◌then◌else◌, kakao_unavailable, leb,
  ltb, none, ok, outside_failure, some, true, ℕ, ◌&&◌, ◌==◌, ◌||◌,
}
use estate_server.Auth.Access.{KakaoProfile}

-- What a call can end with: KakaoApiError with its status, what a policy refuses with
-- (BrokenCircuitError, BulkheadRejectedError, TaskCancelledError), the TypeError of `fetch`, or
-- another error.
pub data Failure : Type 0 where
  api_error : ℕ → Failure
  broken_circuit bulkhead_rejected task_cancelled type_error other_error : Failure

-- `KakaoApiError.transient`
unfoldable pub is_transient : ℕ → Bool
is_transient status = status == 429 || leb 500 status

-- `transientOnly`: the failures that are tried again and that the circuit breaker counts.
unfoldable pub transient_only : Failure → Bool
unfolding is_transient
transient_only (api_error status) = is_transient status
transient_only task_cancelled = true
transient_only type_error = true
transient_only _ = false

-- What comes of an attempt, or of a call.
pub data Outcome (A : Type 0) : Type 0 where
  done : A → Outcome A
  failed : Failure → Outcome A

-- The answer to a request: a status, with the body where that is JSON, or none.
pub data Fetched (A : Type 0) : Type 0 where
  response : ℕ → Option A → Fetched A
  unreachable : Fetched A

-- `res.ok`
abbrev pub is_ok : ℕ → Bool
is_ok status = leb 200 status && ltb status 300

-- The callback of `policy.execute`.
unfoldable pub attempt : {A : Type 0} → Fetched A → Outcome A
attempt unreachable = failed type_error
attempt (response status body) =
    if is_ok status
    then elim body [ some b ↦ done b | none ↦ failed other_error ]
    else failed (api_error status)

-- What a call throws: a failure as it is, or the exception KAKAO_UNAVAILABLE.
pub data Thrown : Type 0 where
  raw : Failure → Thrown
  unavailable : Thrown

-- `mapFailure`
unfoldable pub map_failure : Failure → Thrown
unfolding is_transient
map_failure (api_error status) = if is_transient status then unavailable else raw (api_error status)
map_failure broken_circuit = unavailable
map_failure bulkhead_rejected = unavailable
map_failure task_cancelled = unavailable
map_failure type_error = unavailable
map_failure other_error = raw other_error

abbrev pub error_of : Thrown → AppError
error_of (raw f) = outside_failure
error_of unavailable = kakao_unavailable

-- A policy runs attempts, numbered from 0, and ends with an outcome.
abbrev pub Policy : Type 0 → Type 0
Policy A = (ℕ → Outcome A) → Outcome A

unfoldable pub settle_call : {A : Type 0} → Outcome A → Result A
unfolding map_failure
settle_call (done a) = ok a
settle_call (failed f) = err (error_of (map_failure f))

-- `callKakao`
unfoldable pub call_kakao : {A : Type 0} → Policy A → (ℕ → Fetched A) → Result A
unfolding settle_call attempt
call_kakao policy request = settle_call (policy (λ n. attempt (request n)))

-- The body of the profile.
pub record ProfileBody : Type 0 where
  pub id : Key
  pub email : Option Key
  pub nickname : Option Key

-- The two policies, what Kakao answers to the n-th request, and the name of who has none.
pub record Kakao : Type 0 where
  pub token_policy : Policy Key
  pub profile_policy : Policy ProfileBody
  pub token_answer : Key → Key → ℕ → Fetched Key
  pub profile_answer : Key → ℕ → Fetched ProfileBody
  pub default_name : Key

abbrev pub profile_of : Key → ProfileBody → KakaoProfile
profile_of default_name p = record {
  provider_id = p.id;
  email = p.email;
  name = get_or p.nickname default_name;
}

abbrev pub shape_profile : Kakao → Result ProfileBody → Result KakaoProfile
shape_profile k (ok p) = ok (profile_of k.default_name p)
shape_profile k (err e) = err e

-- The profile, with the token.
abbrev pub fetch_profile : Kakao → Result Key → Result KakaoProfile
fetch_profile k (ok token) = shape_profile k (call_kakao k.profile_policy (k.profile_answer token))
fetch_profile k (err e) = err e

-- `KakaoOAuthClient.exchangeAndFetch`
unfoldable pub exchange_and_fetch : Kakao → Key → Key → Result KakaoProfile
exchange_and_fetch k code redirect_uri =
    fetch_profile k (call_kakao k.token_policy (k.token_answer code redirect_uri))
