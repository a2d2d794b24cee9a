-- ===== src/Events/Publisher.antt =====
-- src/events/kafka-event.publisher.ts. The producer of the library is a parameter.
use estate_server.Base.{Key, List, Option, [], none, some, ◌++◌, ◌∷◌}
use estate_server.Events.{DomainEvent, KafkaTopic, topic_for_event}
use estate_server.Events.Tracing.{Headers, capture_trace_headers}

-- What is given to `client.emit`.
pub record KafkaMessage : Type 0 where
  pub topic : KafkaTopic
  pub key : Key
  pub value : DomainEvent
  pub headers : Headers

-- `emit`, with the trace data of the moment.
unfoldable pub message_of : Option Headers → DomainEvent → KafkaMessage
unfolding capture_trace_headers topic_for_event
message_of trace event = record {
  topic = topic_for_event event.event_type;
  key = event.entity_id;
  value = event;
  headers = capture_trace_headers trace;
}

-- The broker takes a message, or refuses it with an error.
module _ (refuses : KafkaMessage → Option Key) where
  abbrev pub append_or_throw :
      Option Key → KafkaMessage → List KafkaMessage → Option Key × List KafkaMessage
  append_or_throw none m log = (none, log ++ m ∷ [])
  append_or_throw (some error) m log = (some error, log)

  -- `publishOrThrow`: the error that it throws, and the log of the broker.
  unfoldable pub publish_or_throw :
      Option Headers → DomainEvent → List KafkaMessage → Option Key × List KafkaMessage
  unfolding message_of
  publish_or_throw trace event log =
      append_or_throw (refuses (message_of trace event)) (message_of trace event) log

  -- `publish`: the error is logged, and the event is lost.
  unfoldable pub publish : Option Headers → DomainEvent → List KafkaMessage → List KafkaMessage
  unfolding publish_or_throw
  publish trace event log = (publish_or_throw trace event log).1
