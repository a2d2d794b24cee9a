-- ===== src/Metrics/Lag.antt =====
-- src/metrics/infrastructure/kafka-lag.collector.ts: how far each consumer group is behind.
use estate_server.Base.{
  Key, List, Option, [], get_or, if◌then◌else◌, map, none, some, ℕ, ◌++◌, ◌-◌, ◌==◌, ◌∷◌,
}
use estate_server.Events.{KafkaTopic, board_events, chat_events, membership_events}

-- ConsumerGroup of src/events/consumer-groups.ts. (The name at the broker has a postfix.)
pub data ConsumerGroup : Type 0 where
  persistence audit notification : ConsumerGroup

-- TOPICS_BY_GROUP
unfoldable pub topics_by_group : ConsumerGroup → List KafkaTopic
topics_by_group persistence = chat_events ∷ []
topics_by_group audit = chat_events ∷ board_events ∷ membership_events ∷ []
topics_by_group notification = chat_events ∷ board_events ∷ []

abbrev pub consumer_groups : List ConsumerGroup
consumer_groups = persistence ∷ audit ∷ notification ∷ []

-- A partition of `fetchOffsets`, whose offset -1 is `none`.
pub record Committed : Type 0 where
  pub partition : Key
  pub offset : Option ℕ

-- A partition of `fetchTopicOffsets`, with the oldest offset that is kept.
pub record Latest : Type 0 where
  pub partition : Key
  pub offset : ℕ
  pub low : Option ℕ

-- What the broker answers: no entry for a topic is no partition.
pub record Broker : Type 0 where
  pub committed : ConsumerGroup → KafkaTopic → List Committed
  pub latest : KafkaTopic → List Latest

-- LagSample
pub record LagSample : Type 0 where
  pub group : ConsumerGroup
  pub topic : KafkaTopic
  pub partition : Key
  pub lag : ℕ

-- The offset that a group has committed in a partition.
unfoldable pub committed_in : Key → List Committed → Option ℕ
committed_in partition [] = none
committed_in partition (c ∷ cs) =
    if c.partition == partition then c.offset else committed_in partition cs

-- `Math.max(0, …)` is the subtraction that stops at 0.
unfoldable pub lag_of : List Committed → Latest → ℕ
unfolding committed_in
lag_of cs l = elim (committed_in l.partition cs) [
  | some offset ↦ l.offset - offset
  | none ↦ l.offset - get_or l.low 0
]

unfoldable pub samples_of : Broker → ConsumerGroup → KafkaTopic → List LagSample
unfolding lag_of
samples_of b group topic =
    map
      (λ (l : Latest). record {
        group = group;
        topic = topic;
        partition = l.partition;
        lag = lag_of (b.committed group topic) l;
      })
      (b.latest topic)

unfoldable pub samples_of_topics : Broker → ConsumerGroup → List KafkaTopic → List LagSample
samples_of_topics b group [] = []
samples_of_topics b group (topic ∷ topics) =
    samples_of b group topic ++ samples_of_topics b group topics

unfoldable pub samples_of_groups : Broker → List ConsumerGroup → List LagSample
samples_of_groups b [] = []
samples_of_groups b (group ∷ groups) =
    samples_of_topics b group (topics_by_group group) ++ samples_of_groups b groups

-- `collectLag`
unfoldable pub collect_lag : Broker → List LagSample
collect_lag b = samples_of_groups b consumer_groups

-- `collect`: the samples of the gauge after a scrape; `none` is a broker that fails or is too late.
unfoldable pub collect : Option Broker → List LagSample → List LagSample
unfolding collect_lag
collect none old = []
collect (some b) old = collect_lag b
