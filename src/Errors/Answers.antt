-- ===== src/Errors/Answers.antt =====
-- What Sentry is told of the errors of the application: src/common/errors/all-exceptions.filter.ts.
use estate_server.Base.{
  AppError, Bool, Key, Time, arith, domain_error, false, if◌then◌else◌, kakao_unavailable, ltb,
  outside_failure, record_not_found, true, unique_violation, ℕ, ◌≡◌,
}
use estate_server.Errors.{
  nothing, as_error, as_warning, catch, exception_of, status_of, to_error_response,
  should_capture_4xx,
}

-- The failures of the systems outside, and what a use case let through of them.
abbrev pub is_outage : AppError → Bool
is_outage kakao_unavailable = true
is_outage unique_violation = true
is_outage record_not_found = true
is_outage outside_failure = true
is_outage _ = false

-- An error of the application is captured as an error exactly where it is an outage, whatever the
-- rate of the samples; of the others only a violated invariant of an entity is ever sampled.
pub captured_exactly :
    (rate random : ℕ) (e : AppError) (own path : Key) (now : Time)
    → (catch rate random (exception_of e) own path now).1 ≡ (
        if is_outage e then as_error else elim e [
          | domain_error ↦ if ltb random rate then as_warning else nothing
          | _ ↦ nothing
        ])
unfolding catch exception_of status_of to_error_response should_capture_4xx
captured_exactly rate random e own path now = ground arith
