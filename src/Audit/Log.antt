-- ===== src/Audit/Log.antt =====
-- src/audit/infrastructure/prisma-audit-log.repository.ts and
-- src/audit/interface/audit-worker.controller.ts.
use estate_server.Base.{
  Action, Bool, Key, List, Option, Result, Time, [], err, find_first, gets, is_some, modify, not,
  ok, outside_failure, raise_if, unique_violation, ◌++◌, ◌+◌, ◌==◌, ◌>>=◌, ◌>>◌, ◌∷◌,
}
use estate_server.Events.{
  EventType, EntityType, KafkaTopic, Payload, DomainEvent, topic_for_event, board_events,
  membership_events, chat_events,
}

-- A row of the table AuditLog.
pub record AuditLog : Type 0 where
  pub id : Key
  pub event_id : Key
  pub event_type : EventType
  pub actor_id : Option Key
  pub entity_type : EntityType
  pub entity_id : Key
  pub payload : Payload
  pub occurred_at : Time
  pub created_at : Time

pub record AuditState : Type 0 where
  pub logs : List AuditLog
  pub next_id : Key

abbrev pub log_is : Key → AuditLog → Bool
log_is event_id r = r.event_id == event_id

abbrev pub log_of : Key → Time → DomainEvent → AuditLog
log_of id now event = record {
  id = id;
  event_id = event.event_id;
  event_type = event.event_type;
  actor_id = event.actor_id;
  entity_type = event.entity_type;
  entity_id = event.entity_id;
  payload = event.payload;
  occurred_at = event.occurred_at;
  created_at = now;
}

-- `auditLog.create`: the event's id is unique (P2002).
unfoldable pub create_log : Time → DomainEvent → Action AuditState (Unit {0})
create_log now event = do
  taken ← gets (λ s. is_some (find_first (log_is event.event_id) s.logs))
  raise_if taken unique_violation
  modify
      (λ s. record s { logs = s.logs ++ log_of s.next_id now event ∷ []; next_id = s.next_id + 1 })

-- The `catch` block.
abbrev pub ignore_duplicate : Result (Unit {0}) → Result (Unit {0})
ignore_duplicate (err unique_violation) = ok tt
ignore_duplicate r = r

-- `PrismaAuditLogRepository.record`; `up` tells whether the database answers.
unfoldable pub record_event : Bool → Time → DomainEvent → Action AuditState (Unit {0})
unfolding create_log
record_event up now event s =
    let (r, s') = (raise_if (not up) outside_failure >> create_log now event) s in
    (ignore_duplicate r, s')

-- The three handlers of the worker, one for each topic.
abbrev pub on_chat_event : Bool → Time → DomainEvent → Action AuditState (Unit {0})
on_chat_event = record_event

abbrev pub on_board_event : Bool → Time → DomainEvent → Action AuditState (Unit {0})
on_board_event = record_event

abbrev pub on_membership_event : Bool → Time → DomainEvent → Action AuditState (Unit {0})
on_membership_event = record_event

abbrev pub handle : KafkaTopic → Bool → Time → DomainEvent → Action AuditState (Unit {0})
handle chat_events = on_chat_event
handle board_events = on_board_event
handle membership_events = on_membership_event

-- One delivery of an event.
pub record Delivery : Type 0 where
  pub up : Bool
  pub now : Time
  pub event : DomainEvent

unfoldable pub deliver : Delivery → AuditState → AuditState
deliver d s = (handle (topic_for_event d.event.event_type) d.up d.now d.event s).1

unfoldable pub deliver_all : List Delivery → AuditState → AuditState
unfolding deliver
deliver_all [] s = s
deliver_all (d ∷ ds) s = deliver_all ds (deliver d s)
