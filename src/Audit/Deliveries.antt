-- ===== src/Audit/Deliveries.antt =====
-- What the audit log holds after deliveries of events, again and again and out of order: src/audit.
use estate_server.Base.{
  Bool, Bool-cases, Key, List, Time, [], ap, arith, count_where, count_where-keep_all, err, false,
  find_first, find_first-keep_all, has_key, if◌then◌else◌, inl, inr, is_some, keep_all, keep_once,
  min, outside_failure, refl, true, ◌++◌, ◌∙◌, ◌∷◌, ◌≡◌,
}
use mathlib.Core.Option
use estate_server.Events.{
  KafkaTopic, DomainEvent, topic_for_event, board_events, membership_events, chat_events,
}
use estate_server.Audit.Log.{
  AuditLog, AuditState, Delivery, log_is, log_of, create_log, record_event, handle, deliver,
  deliver_all,
}

abbrev pub id_of : DomainEvent → Key
id_of e = e.event_id

-- The event that a row tells of.
abbrev pub event_of : AuditLog → DomainEvent
event_of r = record {
  event_id = r.event_id;
  event_type = r.event_type;
  occurred_at = r.occurred_at;
  actor_id = r.actor_id;
  entity_type = r.entity_type;
  entity_id = r.entity_id;
  payload = r.payload;
}

unfoldable pub events_of : List AuditLog → List DomainEvent
events_of [] = []
events_of (r ∷ rs) = event_of r ∷ events_of rs

-- The events of the deliveries that the database was there for.
abbrev pub answered : List Delivery → List DomainEvent
answered [] = []
answered (d ∷ ds) = if d.up then d.event ∷ answered ds else answered ds

events_of-append :
    (rs : List AuditLog) (r : AuditLog) → events_of (rs ++ r ∷ []) ≡ events_of rs ++ event_of r ∷ []
unfolding events_of
events_of-append [] r = refl
events_of-append (q ∷ rs) r = ap (λ es. event_of q ∷ es) (events_of-append rs r)

find_first-events_of :
    (k : Key) (rs : List AuditLog)
    → is_some (find_first (has_key id_of k) (events_of rs)) ≡ is_some (find_first (log_is k) rs)
unfolding events_of find_first
find_first-events_of k [] = refl
find_first-events_of k (r ∷ rs) = ground (arith, find_first-events_of k rs)

record_event-keep_once :
    (now : Time) (e : DomainEvent) (s : AuditState)
    → events_of (record_event true now e s).1.logs ≡ keep_once id_of e (events_of s.logs)
unfolding record_event create_log keep_once
record_event-keep_once now e s =
    let same = find_first-events_of e.event_id s.logs in
    elim (Bool-cases (is_some (find_first (log_is e.event_id) s.logs))) [
      | inl taken ↦ rw (same, taken) refl
      | inr free ↦ rw (same, free, events_of-append s.logs (log_of s.next_id now e)) refl
    ]

handle_lem :
    (topic : KafkaTopic) (up : Bool) (now : Time) (e : DomainEvent) (s : AuditState)
    → handle topic up now e s ≡ record_event up now e s
handle_lem board_events up now e s = refl
handle_lem membership_events up now e s = refl
handle_lem chat_events up now e s = refl

-- A delivery that the database was not there for changes nothing.
record_event-down :
    (now : Time) (e : DomainEvent) (s : AuditState)
    → record_event false now e s ≡ (err outside_failure, s)
unfolding record_event
record_event-down now e s = refl

deliver_lem : (d : Delivery) (s : AuditState) → deliver d s ≡ (record_event d.up d.now d.event s).1
unfolding deliver
deliver_lem d s =
    ap (λ r. r.1) (handle_lem (topic_for_event d.event.event_type) d.up d.now d.event s)

deliver-keep_once :
    (d : Delivery) (s : AuditState)
    → events_of (deliver d s).logs
      ≡ (if d.up then keep_once id_of d.event (events_of s.logs) else events_of s.logs)
deliver-keep_once d s = elim (Bool-cases d.up) [
  | inl up ↦ rw (deliver_lem d s, up) (record_event-keep_once d.now d.event s)
  | inr down ↦ rw (deliver_lem d s, down, record_event-down d.now d.event s) refl
]

deliver_all-keep_all :
    (ds : List Delivery) (s : AuditState)
    → events_of (deliver_all ds s).logs ≡ keep_all id_of (answered ds) (events_of s.logs)
unfolding deliver_all keep_all
deliver_all-keep_all [] s = refl
deliver_all-keep_all (d ∷ ds) s =
    rw (deliver_all-keep_all ds (deliver d s), deliver-keep_once d s)
      (elim (Bool-cases d.up) [ inl up ↦ rw up refl | inr down ↦ rw down refl ])

-- From an empty table, after any list of deliveries, the events that the audit log holds with
-- an id are one if the database answered for a delivery of an event with this id, and none
-- otherwise; and the one it holds is that of the first such delivery.
pub audit_once :
    (ds : List Delivery) (event_id next_id : Key)
    → let logged = events_of (deliver_all ds (record { logs = []; next_id = next_id })).logs in
      (count_where (has_key id_of event_id) logged
        ≡ min 1 (count_where (has_key id_of event_id) (answered ds)))
      × (find_first (has_key id_of event_id) logged
          ≡ find_first (has_key id_of event_id) (answered ds))
unfolding events_of count_where find_first Option.or_else
audit_once ds event_id next_id =
    rw (deliver_all-keep_all ds (record { logs = []; next_id = next_id })) (
      count_where-keep_all id_of event_id (answered ds) [] (omega arith) ∙ omega arith,
      find_first-keep_all id_of event_id (answered ds) [],
    )
