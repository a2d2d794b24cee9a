-- ===== src/Outbox/Store.antt =====
-- src/outbox/infrastructure/prisma-outbox-store.ts and application/relay-outbox.use-case.ts.
use estate_server.Base.{
  Bool, Key, List, Option, Time, [], false, find_many, if◌then◌else◌, leb, none, some, take, true,
  update_many, ℕ, ◌&&◌, ◌++◌, ◌+◌, ◌==◌, ◌∷◌,
}
use estate_server.Events.{DomainEvent, EventType, KafkaTopic, topic_for_event}
use estate_server.Events.Tracing.{Headers, capture_trace_headers}
use estate_server.Outbox.Backoff.{compute_backoff}

-- OutboxStatus
pub data Status : Type 0 where
  pending published failed : Status

abbrev pub is_pending : Status → Bool
is_pending pending = true
is_pending published = false
is_pending failed = false

-- A row of the table OutboxEvent. `created_at` and the row's place in the table stand for the
-- order of insertion.
pub record OutboxRow : Type 0 where
  pub id : Key
  pub event_id : Key
  pub event_type : EventType
  pub topic : KafkaTopic
  pub partition_key : Key
  pub payload : DomainEvent
  pub status : Status
  pub attempts : ℕ
  pub next_attempt_at : Option Time
  pub last_error : Option Key
  pub published_at : Option Time
  pub failed_at : Option Time
  pub trace_context : Option Headers

-- The row that `add` inserts, with the id that the database gives it, and the headers of the trace
-- that `getTraceData` returns, if it does.
abbrev pub row_of : Option Headers → Key → DomainEvent → OutboxRow
row_of trace id event = record {
  id = id;
  event_id = event.event_id;
  event_type = event.event_type;
  topic = topic_for_event event.event_type;
  partition_key = event.entity_id;
  payload = event;
  status = pending;
  attempts = 0;
  next_attempt_at = none;
  last_error = none;
  published_at = none;
  failed_at = none;
  trace_context = some (capture_trace_headers trace);
}

-- `add`
unfoldable pub add : Option Headers → Key → DomainEvent → List OutboxRow → List OutboxRow
add trace id event rows = rows ++ row_of trace id event ∷ []

-- OUTBOX_MAX_ATTEMPTS, OUTBOX_BACKOFF_BASE_MS, OUTBOX_BACKOFF_CAP_MS
pub record Config : Type 0 where
  pub max_attempts : ℕ
  pub base_ms : Time
  pub cap_ms : Time

-- `"nextAttemptAt" IS NULL OR "nextAttemptAt" <= now()`
abbrev pub is_due : Time → Option Time → Bool
is_due now none = true
is_due now (some t) = leb t now

abbrev pub is_ready : Time → OutboxRow → Bool
is_ready now row = is_pending row.status && is_due now row.next_attempt_at

-- The rows that are due, oldest first, at most `limit`. (The rows that another relay has locked
-- are skipped by the database; they are not in the table that this relay sees.)
unfoldable pub fetch_pending : ℕ → Time → List OutboxRow → List OutboxRow
fetch_pending limit now rows = take limit (find_many (is_ready now) rows)

abbrev pub row_is : Key → OutboxRow → Bool
row_is id row = row.id == id

abbrev pub set_published : Time → OutboxRow → OutboxRow
set_published now row = record row { status = published; published_at = some now }

unfoldable pub mark_published : Time → Key → List OutboxRow → List OutboxRow
mark_published now id rows = update_many (row_is id) (set_published now) rows

abbrev pub set_failed : ℕ → Key → Time → OutboxRow → OutboxRow
set_failed attempts error now row = record row {
  status = failed;
  attempts = attempts;
  last_error = some error;
  failed_at = some now;
}

abbrev pub set_retry : ℕ → Key → Time → OutboxRow → OutboxRow
set_retry attempts error at row = record row {
  attempts = attempts;
  last_error = some error;
  next_attempt_at = some at;
}

module _ (cfg : Config) where
  -- The rows afterwards, and whether the row was quarantined.
  unfoldable pub mark_failed : Time → Key → ℕ → Key → List OutboxRow → List OutboxRow × Bool
  mark_failed now id attempts error rows =
      if leb cfg.max_attempts (attempts + 1)
      then (update_many (row_is id) (set_failed (attempts + 1) error now) rows, true)
      else (
        update_many (row_is id)
            (set_retry (attempts + 1) error (now + compute_backoff attempts cfg.base_ms cfg.cap_ms))
            rows,
        false,
      )

  -- What the broker did with one event: `none`, or the message of the error that it threw.
  -- One pass of the loop of `execute`, with the events that were emitted so far.
  unfoldable pub relay_row :
      (OutboxRow → Option Key)
      → Time
      → OutboxRow
      → List OutboxRow × List DomainEvent
      → List OutboxRow × List DomainEvent
  unfolding mark_published mark_failed
  relay_row publish now row (rows, sent) = elim (publish row) [
    | none ↦ (mark_published now row.id rows, sent ++ row.payload ∷ [])
    | some error ↦ ((mark_failed now row.id row.attempts error rows).0, sent)
  ]

  unfoldable pub relay_rows :
      (OutboxRow → Option Key)
      → Time
      → List OutboxRow
      → List OutboxRow × List DomainEvent
      → List OutboxRow × List DomainEvent
  relay_rows publish now [] acc = acc
  relay_rows publish now (row ∷ batch) acc =
      relay_rows publish now batch (relay_row publish now row acc)

  -- `RelayOutboxUseCase.execute`: one tick, where the transaction commits. (What was emitted stays
  -- emitted where it does not: the events go out again, and their consumers are idempotent.)
  unfoldable pub tick :
      (OutboxRow → Option Key) → ℕ → Time → List OutboxRow → List OutboxRow × List DomainEvent
  unfolding relay_rows
  tick publish batch_size now rows =
      relay_rows publish now (fetch_pending batch_size now rows) (rows, [])
