-- ===== src/Events.antt =====
-- src/events: the kinds of domain events, their topics, and the envelope that all of them share.
-- `Tracing` has the headers of a trace, `Publisher` what is given to the broker, `Topics` the creation
-- of the topics at the start of a process.
pub mod Tracing
pub mod Publisher
pub mod Topics
pub mod Creation
mod Tests
use estate_server.Base.{Key, Option, Time}

-- EventType
pub data EventType : Type 0 where
  post_created comment_created tenant_joined lease_ended message_sent like_created : EventType

-- EntityType
pub data EntityType : Type 0 where
  post comment lease message : EntityType

-- KafkaTopic
pub data KafkaTopic : Type 0 where
  board_events membership_events chat_events : KafkaTopic

-- `topicForEvent`
unfoldable pub topic_for_event : EventType → KafkaTopic
topic_for_event post_created = board_events
topic_for_event comment_created = board_events
topic_for_event tenant_joined = membership_events
topic_for_event lease_ended = membership_events
topic_for_event message_sent = chat_events
topic_for_event like_created = board_events

-- ChatMessagePayload
pub record ChatMessage : Type 0 where
  pub room_id : Key
  pub message_id : Key
  pub sender_id : Key
  pub content : Key
  pub created_at : Time

-- PostCategory of src/board/domain/post-category.enum.ts
pub data Category : Type 0 where
  notice free : Category

-- The payloads that the use cases put into an event.
pub data Payload : Type 0 where
  of_post : (building_id : Key) (category : Category) (title : Key) → Payload
  of_comment of_like : (post_id building_id : Key) → Payload
  of_join : (unit_id : Key) → Payload
  of_end : (unit_id : Key) → Option Time → Payload
  of_message : ChatMessage → Payload

-- DomainEvent
pub record DomainEvent : Type 0 where
  pub event_id : Key
  pub event_type : EventType
  pub occurred_at : Time
  pub actor_id : Option Key
  pub entity_type : EntityType
  pub entity_id : Key
  pub payload : Payload
