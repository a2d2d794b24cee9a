-- ===== src/Events/Topics.antt =====
-- src/events/kafka-topic-initializer.ts with kafka-topics.config.ts. The admin client of the library
-- is a parameter.
use estate_server.Base.{
  ◌≡◌, ◌≤◌, Bool, List, Result, [], count_where, err, false, find_many, if◌then◌else◌, not, ok,
  outside_failure, true, ℕ, ◌++◌, ◌∷◌, ◌||◌,
}
use estate_server.Events.{KafkaTopic, board_events, membership_events, chat_events}

-- KafkaTopicSpec
pub record TopicSpec : Type 0 where
  pub topic : KafkaTopic
  pub num_partitions : ℕ
  pub replication_factor : ℕ

-- SINGLE_NODE_REPLICATION and DEFAULT_PARTITIONS
abbrev pub single_node_replication : ℕ
single_node_replication = 1

abbrev pub default_partitions : ℕ
default_partitions = 3

abbrev pub spec_of : KafkaTopic → TopicSpec
spec_of topic = record {
  topic = topic;
  num_partitions = default_partitions;
  replication_factor = single_node_replication;
}

-- KAFKA_TOPIC_SPECS
abbrev pub topic_specs : List TopicSpec
topic_specs = spec_of board_events ∷ spec_of membership_events ∷ spec_of chat_events ∷ []

abbrev pub same_topic : KafkaTopic → KafkaTopic → Bool
same_topic board_events board_events = true
same_topic membership_events membership_events = true
same_topic chat_events chat_events = true
same_topic _ _ = false

-- `existing.has(topic)`
unfoldable pub has_topic : KafkaTopic → List TopicSpec → Bool
has_topic topic [] = false
has_topic topic (t ∷ ts) = same_topic t.topic topic || has_topic topic ts

-- The topics of the broker (of the program's own ones), and whether the admin client is connected.
pub record Broker : Type 0 where
  pub topics : List TopicSpec
  pub connected : Bool

-- Which calls of the admin client answer.
pub record Admin : Type 0 where
  pub connects : Bool
  pub lists : Bool
  pub creates : Bool

-- `KAFKA_TOPIC_SPECS.filter((spec) => !existing.has(spec.topic))`
unfoldable pub to_create : List TopicSpec → List TopicSpec
unfolding has_topic
to_create existing = find_many (λ spec. not (has_topic spec.topic existing)) topic_specs

abbrev pub create_topics : Admin → List TopicSpec → Broker → Result (Unit {0}) × Broker
create_topics admin [] b = (ok tt, b)
create_topics admin (t ∷ ts) b =
    if admin.creates
    then (ok tt, record b { topics = b.topics ++ t ∷ ts })
    else (err outside_failure, b)

-- The `try` block.
unfoldable pub create_missing : Admin → Broker → Result (Unit {0}) × Broker
unfolding to_create
create_missing admin b =
    if admin.lists then create_topics admin (to_create b.topics) b else (err outside_failure, b)

-- The `finally` block.
abbrev pub disconnect : Result (Unit {0}) × Broker → Result (Unit {0}) × Broker
disconnect (r, b) = (r, record b { connected = false })

-- `ensureTopics`
unfoldable pub ensure_topics : Admin → Broker → Result (Unit {0}) × Broker
unfolding create_missing
ensure_topics admin b =
    if admin.connects
    then disconnect (create_missing admin (record b { connected = true }))
    else (err outside_failure, b)

-- Each of the program's topics is there once.
abbrev pub IsComplete : List TopicSpec → Type 0
IsComplete topics =
    (topic : KafkaTopic) → count_where (λ (t : TopicSpec). same_topic t.topic topic) topics ≡ 1

-- None is there more than once.
abbrev pub IsSound : List TopicSpec → Type 0
IsSound topics =
    (topic : KafkaTopic) → count_where (λ (t : TopicSpec). same_topic t.topic topic) topics ≤ 1
