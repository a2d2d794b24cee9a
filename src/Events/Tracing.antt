-- ===== src/Events/Tracing.antt =====
-- src/common/tracing/trace-propagation.ts: the two headers of a trace, on the way through the
-- broker. What Sentry answers and does is a parameter.
use estate_server.Base.{Key, Option, if◌then◌else◌, no_key, none, some, ◌==◌}

-- A map with the keys `sentry-trace` and `baggage`, each there or not.
pub record Headers : Type 0 where
  pub sentry_trace : Option Key
  pub baggage : Option Key

abbrev pub no_headers : Headers
no_headers = record { sentry_trace = none; baggage = none }

-- `if (trace)`: the empty text counts as none.
abbrev pub present : Option Key → Option Key
present none = none
present (some k) = if k == no_key then none else some k

-- `captureTraceHeaders`, with what `getTraceData` returns, or none where it throws.
unfoldable pub capture_trace_headers : Option Headers → Headers
capture_trace_headers none = no_headers
capture_trace_headers (some trace) = record {
  sentry_trace = present trace.sentry_trace;
  baggage = present trace.baggage;
}

-- `kafkaTraceHeaders`, with the headers of the message: none where it throws or has none.
unfoldable pub kafka_trace_headers : Option Headers → Headers
kafka_trace_headers none = no_headers
kafka_trace_headers (some raw) = raw

-- What Sentry does with a callback: it runs it, or throws before or after it has.
pub data Setup : Type 0 where
  works throws_before throws_after : Setup

-- `continueTraceFromHeaders`, of a callback as what it does to a state. (The callback is async, and
-- does not throw itself.)
abbrev pub with_setup : {S : Type 0} → Setup → (S → S) → S → S
with_setup works fn s = fn s
with_setup throws_before fn s = fn s
with_setup throws_after fn s = fn (fn s)

unfoldable pub continue_trace : {S : Type 0} → Headers → Setup → (S → S) → S → S
continue_trace headers setup fn s = elim (present headers.sentry_trace) [
  | none ↦ fn s
  | some trace ↦ with_setup setup fn s
]
