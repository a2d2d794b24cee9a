-- ===== src/Errors.antt =====
-- src/common/errors: how an exception is answered, and src/common/sentry/should-capture-4xx.ts. The
-- statuses of the codes stand in the files *.errors.ts of the modules. `Answers` has what follows,
-- `Scrub` what is taken out of a report.
use estate_server.Base.{
  AppError, Bool, Key, List, Time, [], building_not_found, chat_building_not_found, domain_error,
  email_in_use, false, if◌then◌else◌, insufficient_role, invalid_credentials, invalid_invite_code,
  invalid_onboarding, invalid_refresh_token, invalid_role, kakao_email_required, kakao_unavailable,
  lease_already_ended, lease_not_found, leb, ltb, not, not_author, not_building_member,
  not_building_owner, not_room_participant, not_session_owner, outside_failure, post_not_found,
  rate_limit_exceeded, record_not_found, refresh_token_reused, room_not_found, tenant_not_member,
  true, unique_violation, unit_not_found, user_not_found, ℕ, ◌==◌, ◌∷◌,
}
pub mod Answers
pub mod Scrub

-- The body of an HttpException of the framework: a text, or an object whose field `message` is
-- missing, a text, or a list of texts.
pub data Message : Type 0 where
  text : Key → Message
  missing : Message
  one : Key → Message
  many : List Key → Message

-- What a request can end with. `other` is an error of no class that the filter knows.
pub data Exception : Type 0 where
  app : AppError → Exception
  domain : Exception
  http : (status : ℕ) → Message → Exception
  other : Exception

-- The field `code` of a response.
pub data Code : Type 0 where
  of_app : AppError → Code
  validation_failed common_validation_failed common_unauthorized internal_error : Code
  http_status : ℕ → Code

-- AppErrorSpec.status. A DomainError is 422; what Prisma throws and any other failure is unknown to
-- the filter, and so 500.
unfoldable pub status_of : AppError → ℕ
status_of email_in_use = 409
status_of invalid_credentials = 401
status_of insufficient_role = 403
status_of invalid_role = 400
status_of user_not_found = 404
status_of kakao_email_required = 400
status_of invalid_onboarding = 401
status_of kakao_unavailable = 503
status_of invalid_refresh_token = 401
status_of refresh_token_reused = 401
status_of not_session_owner = 403
status_of building_not_found = 404
status_of not_building_owner = 403
status_of unit_not_found = 404
status_of invalid_invite_code = 404
status_of lease_not_found = 404
status_of lease_already_ended = 409
status_of post_not_found = 404
status_of not_author = 403
status_of not_building_member = 403
status_of room_not_found = 404
status_of not_room_participant = 403
status_of chat_building_not_found = 404
status_of tenant_not_member = 403
status_of rate_limit_exceeded = 429
status_of domain_error = 422
status_of unique_violation = 500
status_of record_not_found = 500
status_of outside_failure = 500

-- The exception of an error of the model.
unfoldable pub exception_of : AppError → Exception
exception_of domain_error = domain
exception_of unique_violation = other
exception_of record_not_found = other
exception_of outside_failure = other
exception_of e = app e

-- `deriveCode` with STATUS_CODE_MAP
unfoldable pub derive_code : ℕ → Code
derive_code status =
    if status == 400
    then common_validation_failed
    else if status == 401
    then common_unauthorized
    else http_status status

-- `extractMessage`; `own` is the message of the exception itself.
unfoldable pub extract_message : Key → Message → Key
extract_message own (text m) = m
extract_message own missing = own
extract_message own (one m) = m
extract_message own (many []) = own
extract_message own (many (m ∷ ms)) = m

-- ErrorResponse
pub record ErrorResponse : Type 0 where
  pub status_code : ℕ
  pub code : Code
  pub message : Key
  pub path : Key
  pub timestamp : Time

-- '서버 오류가 발생했습니다.'
abbrev pub server_error : Key
server_error = 1

-- `toErrorResponse`
unfoldable pub to_error_response : Exception → Key → Key → Time → ErrorResponse
unfolding status_of derive_code extract_message
to_error_response (app e) own path now = record {
  status_code = status_of e;
  code = of_app e;
  message = own;
  path = path;
  timestamp = now;
}
to_error_response domain own path now = record {
  status_code = 422;
  code = validation_failed;
  message = own;
  path = path;
  timestamp = now;
}
to_error_response (http status m) own path now = record {
  status_code = status;
  code = derive_code status;
  message = extract_message own m;
  path = path;
  timestamp = now;
}
to_error_response other own path now = record {
  status_code = 500;
  code = internal_error;
  message = server_error;
  path = path;
  timestamp = now;
}

-- CAPTURE_ELIGIBLE_4XX
abbrev pub is_eligible : Code → Bool
is_eligible validation_failed = true
is_eligible common_validation_failed = true
is_eligible _ = false

-- `shouldCapture4xx`; the rate and the random number are in the same unit, and a rate that is
-- negative or no number is 0.
unfoldable pub should_capture_4xx : Code → ℕ → ℕ → Bool
should_capture_4xx code rate random =
    if rate == 0 then false else if not (is_eligible code) then false else ltb random rate

-- What Sentry is told, by its level.
pub data Captured : Type 0 where
  nothing as_error as_warning : Captured

-- `AllExceptionsFilter.catch`
unfoldable pub catch : ℕ → ℕ → Exception → Key → Key → Time → ErrorResponse × Captured
unfolding to_error_response should_capture_4xx
catch rate random e own path now =
    let body = to_error_response e own path now in
    (
      body,
      if leb 500 body.status_code
          then as_error
          else if should_capture_4xx body.code rate random
          then as_warning
          else nothing,
    )
