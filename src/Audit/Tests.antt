-- ===== src/Audit/Tests.antt =====
-- An event that is delivered three times, first while the database is away.
use estate_server.Base.{
  List, [], count_where, false, find_first, has_key, min, some, true, ◌∷◌, ◌≡◌,
}
use estate_server.Events.{DomainEvent, like_created, comment, of_like}
use estate_server.Audit.Log.{Delivery, deliver_all}
use estate_server.Audit.Deliveries.{answered, audit_once, events_of, id_of}

abbrev liked : DomainEvent
liked = record {
  event_id = 9;
  event_type = like_created;
  occurred_at = 100;
  actor_id = some 4;
  entity_type = comment;
  entity_id = 7;
  payload = of_like 7 1;
}

abbrev thrice : List Delivery
thrice =
    record { up = false; now = 110; event = liked }
    ∷ record { up = true; now = 120; event = liked }
    ∷ record { up = true; now = 130; event = liked }
    ∷ []

audit_once_example :
    let logged = events_of (deliver_all thrice (record { logs = []; next_id = 1 })).logs in
    (count_where (has_key id_of 9) logged ≡ min 1 (count_where (has_key id_of 9) (answered thrice)))
    × (find_first (has_key id_of 9) logged ≡ find_first (has_key id_of 9) (answered thrice))
audit_once_example = audit_once thrice 9 1
