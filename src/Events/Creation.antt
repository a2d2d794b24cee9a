-- ===== src/Events/Creation.antt =====
-- That src/events/kafka-topic-initializer.ts makes each topic of the program, and none twice.
use estate_server.Base.{
  ap, Bool, Bool-cases, List, [], arith, count_where, count_where-append, err, false, find_many,
  if◌then◌else◌, inl, inr, ok, outside_failure, refl, sym, true, ◌++◌, ◌∷◌, ◌≡◌, ◌≤◌, ◌⊎◌, ◌∙◌,
}
use mathlib.Core.List.{append-nil}
use estate_server.Events.{KafkaTopic, board_events, membership_events, chat_events}
use estate_server.Events.Topics.{
  Admin, Broker, IsComplete, IsSound, TopicSpec, create_missing, create_topics, ensure_topics,
  has_topic, same_topic, to_create,
}

abbrev of_topic : KafkaTopic → TopicSpec → Bool
of_topic topic t = same_topic t.topic topic

-- How often a topic is there, where it is at most once.
count-has_topic :
    (topic : KafkaTopic) (ts : List TopicSpec)
    → count_where (of_topic topic) ts ≤ 1
    → count_where (of_topic topic) ts ≡ (if has_topic topic ts then 1 else 0)
unfolding count_where has_topic
count-has_topic topic [] h = refl
count-has_topic topic (t ∷ ts) h = ground (arith, count-has_topic topic ts)

count-to_create :
    (topic : KafkaTopic) (ts : List TopicSpec)
    → count_where (of_topic topic) (to_create ts) ≡ (if has_topic topic ts then 0 else 1)
unfolding count_where to_create find_many
count-to_create board_events ts = ground arith
count-to_create membership_events ts = ground arith
count-to_create chat_events ts = ground arith

created-IsComplete : (ts : List TopicSpec) → IsSound ts → IsComplete (ts ++ to_create ts)
created-IsComplete ts sound topic =
    let sum = count_where-append (of_topic topic) ts (to_create ts) in
    let old = count-has_topic topic ts (sound topic) in
    let new = count-to_create topic ts in
    elim (Bool-cases (has_topic topic ts)) [
      | inl there ↦ let o = rw there at old in let n = rw there at new in omega (arith, sum, o, n)
      | inr missing ↦
          let o = rw missing at old in let n = rw missing at new in omega (arith, sum, o, n)
    ]

complete-has_topic :
    (ts : List TopicSpec) → IsComplete ts → (topic : KafkaTopic) → has_topic topic ts ≡ true
complete-has_topic ts complete topic =
    let one = complete topic in
    let old = count-has_topic topic ts (omega (arith, one)) in ground (arith, one, old)

-- Nothing is left to create.
complete-to_create : (ts : List TopicSpec) → IsComplete ts → to_create ts ≡ []
unfolding to_create find_many
complete-to_create ts complete =
    rw
      (
        complete-has_topic ts complete board_events,
        complete-has_topic ts complete membership_events,
        complete-has_topic ts complete chat_events,
      )
      refl

module _ (admin : Admin) where
  create_topics-all :
      (ts : List TopicSpec) (b : Broker)
      → ((create_topics admin ts b).0 ≡ ok tt)
          × ((create_topics admin ts b).1.topics ≡ b.topics ++ ts)
        ⊎ ((create_topics admin ts b).0 ≡ err outside_failure)
          × ((create_topics admin ts b).1.topics ≡ b.topics)
  create_topics-all [] b = inl (refl, sym (append-nil b.topics))
  create_topics-all (t ∷ ts) b = elim (Bool-cases admin.creates) [
    | inl able ↦ rw able (inl (refl, refl))
    | inr unable ↦ rw unable (inr (refl, refl))
  ]

  -- What a process may find: the old topics with the missing ones, or the old ones.
  ensure_topics-cases :
      (b : Broker)
      → ((ensure_topics admin b).0 ≡ ok tt)
          × ((ensure_topics admin b).1.topics ≡ b.topics ++ to_create b.topics)
        ⊎ ((ensure_topics admin b).0 ≡ err outside_failure)
          × ((ensure_topics admin b).1.topics ≡ b.topics)
  unfolding ensure_topics create_missing
  ensure_topics-cases b = elim (Bool-cases admin.connects) [
    | inr cut ↦ inr (rw (ensure_topics, cut) refl, rw (ensure_topics, cut) refl)
    | inl up ↦ elim (Bool-cases admin.lists) [
      | inr silent ↦ inr (
        rw (ensure_topics, up, create_missing, silent) refl,
        rw (ensure_topics, up, create_missing, silent) refl,
      )
      | inl listed ↦
          rw (ensure_topics, up, create_missing, listed)
            (create_topics-all (to_create b.topics) (record b { connected = true }))
    ]
  ]

  ensure_topics-connected :
      (b : Broker) → b.connected ≡ false → (ensure_topics admin b).1.connected ≡ false
  unfolding ensure_topics
  ensure_topics-connected b h = ground arith

-- A complete list of topics stays as it is.
complete-ensure_topics :
    (admin : Admin) (b : Broker) → IsComplete b.topics → (ensure_topics admin b).1.topics ≡ b.topics
complete-ensure_topics admin b complete = elim (ensure_topics-cases admin b) [
  | inl (done, e) ↦
      e ∙ ap (λ ts. b.topics ++ ts) (complete-to_create b.topics complete) ∙ append-nil b.topics
  | inr (failed, e) ↦ e
]

-- If no topic of the program is there twice and the admin client is not connected, then
-- `ensureTopics` ends with the client disconnected, and either it succeeds, the missing topics are
-- added behind those that were there, each topic of the program is there exactly once, and a
-- second call, whichever of its calls of the broker fail, leaves the topics as they are; or it
-- fails and the topics are as they were.
pub ensure_topics_exact :
    (admin admin' : Admin) (b : Broker)
    → IsSound b.topics
    → b.connected ≡ false
    → let (r, b') = ensure_topics admin b in
      (b'.connected ≡ false)
      × (((r ≡ ok tt)
            × (b'.topics ≡ b.topics ++ to_create b.topics)
            × IsComplete b'.topics
            × ((ensure_topics admin' b').1.topics ≡ b'.topics))
          ⊎ ((r ≡ err outside_failure) × (b'.topics ≡ b.topics)))
ensure_topics_exact admin admin' b sound idle = (
  ensure_topics-connected admin b idle,
  elim (ensure_topics-cases admin b) [
    | inl (done, e) ↦
        let complete : IsComplete (ensure_topics admin b).1.topics =
          rw e (created-IsComplete b.topics sound) in
        inl (done, e, complete, complete-ensure_topics admin' (ensure_topics admin b).1 complete)
    | inr (failed, e) ↦ inr (failed, e)
  ],
)
