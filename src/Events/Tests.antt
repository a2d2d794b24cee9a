-- ===== src/Events/Tests.antt =====
-- A start of a process at a broker that has one of the topics.
use estate_server.Base.{[], false, find_many, ok, refl, true, ◌∷◌, ◌≡◌, none, some}
use estate_server.Events.{
  DomainEvent, board_events, chat_events, membership_events, message_sent, message, of_message,
}
use estate_server.Events.Topics.{
  Admin, Broker, create_missing, ensure_topics, has_topic, spec_of, to_create,
}
use estate_server.Events.Tracing.{capture_trace_headers}
use estate_server.Events.Publisher.{message_of}

abbrev working : Admin
working = record { connects = true; lists = true; creates = true }

abbrev half : Broker
half = record { topics = spec_of membership_events ∷ []; connected = false }

ensured : ensure_topics working half ≡ (
  ok tt,
  record {
    topics = spec_of membership_events ∷ spec_of board_events ∷ spec_of chat_events ∷ [];
    connected = false;
  },
)
unfolding ensure_topics create_missing to_create has_topic find_many
ensured = refl

abbrev said : DomainEvent
said = record {
  event_id = 9;
  event_type = message_sent;
  occurred_at = 1;
  actor_id = some 4;
  entity_type = message;
  entity_id = 5;
  payload =
      of_message
        (record { room_id = 5; message_id = 6; sender_id = 4; content = 7; created_at = 1 });
}

-- An empty baggage is left out.
traced : message_of (some (record { sentry_trace = some 77; baggage = some 0 })) said ≡ record {
  topic = chat_events;
  key = 5;
  value = said;
  headers = record { sentry_trace = some 77; baggage = none };
}
unfolding message_of capture_trace_headers
traced = refl
