-- ===== src/Pipeline/Informed.antt =====
-- The recipients of the event of a pending row of the outbox, after the worker of
-- src/notification/interface/notification-worker.controller.ts has consumed what was emitted.
use estate_server.Base.{
  Bool, Bool-cases, Key, List, Option-cases, Time, [], ap, arith, count_where, count_where-append,
  find_first, find_first-none-count, inl, inr, is_some, is_some-find_first-before, none, refl, some,
  ◌++◌, ◌∙◌, ◌∷◌, ◌≡◌, ◌≤◌,
}
use estate_server.Events.{
  DomainEvent, EventType, KafkaTopic, Payload, chat_events, board_events, membership_events,
  topic_for_event, post_created, comment_created, tenant_joined, lease_ended, message_sent,
  like_created, of_post, of_comment, of_like, of_join, of_end, of_message,
}
use estate_server.Notification.Store.{Content, NotificationState, build_content, is_notice}
use estate_server.Notification.Recipients.{resolve}
use estate_server.Notification.Cases.{notify, notify_all, handle_event}
use estate_server.Notification.Fanout.{
  IsTold, handle_event-content, notice, notify-again, notify-new, notify-tables,
}

-- A delivery of an event to the worker.
pub record Consumption : Type 0 where
  pub relayed : Key → Bool
  pub now : Time
  pub event : DomainEvent

-- The two handlers, `onChatEvent` and `onBoardEvent`; the worker does not subscribe to the topic of
-- the memberships.
unfoldable pub on_topic :
    KafkaTopic → (Key → Key) → Consumption → NotificationState → NotificationState
on_topic chat_events clip c s = handle_event clip c.relayed c.now c.event s
on_topic board_events clip c s = handle_event clip c.relayed c.now c.event s
on_topic membership_events clip c s = s

unfoldable pub consume_all : (Key → Key) → List Consumption → NotificationState → NotificationState
unfolding on_topic
consume_all clip [] s = s
consume_all clip (c ∷ cs) s =
    consume_all clip cs (on_topic (topic_for_event c.event.event_type) clip c s)

abbrev pub consumed : List Consumption → List DomainEvent
consumed [] = []
consumed (c ∷ cs) = c.event ∷ consumed cs

-- The type that goes with a payload.
abbrev pub type_of : Payload → EventType
type_of (of_post building_id category title) = post_created
type_of (of_comment post_id building_id) = comment_created
type_of (of_like post_id building_id) = like_created
type_of (of_join unit_id) = tenant_joined
type_of (of_end unit_id at) = lease_ended
type_of (of_message m) = message_sent

-- An event of which somebody is told goes to a topic that the worker consumes.
pub on_topic-content :
    (clip : Key → Key) (c : Consumption) (s : NotificationState) {content : Content}
    → c.event.event_type ≡ type_of c.event.payload
    → build_content clip c.event ≡ some content
    → on_topic (topic_for_event c.event.event_type) clip c s
      ≡ handle_event clip c.relayed c.now c.event s
unfolding on_topic build_content topic_for_event
on_topic-content clip c s {content} typed e = go c.event.payload refl
  where
    go :
        (p : Payload)
        → c.event.payload ≡ p
        → on_topic (topic_for_event c.event.event_type) clip c s
          ≡ handle_event clip c.relayed c.now c.event s
    go (of_post building_id category title) same =
        let it = typed ∙ ap type_of same in rw (topic_for_event, it) refl
    go (of_comment post_id building_id) same =
        let it = typed ∙ ap type_of same in rw (topic_for_event, it) refl
    go (of_like post_id building_id) same =
        let it = typed ∙ ap type_of same in rw (topic_for_event, it) refl
    go (of_message m) same = let it = typed ∙ ap type_of same in rw (topic_for_event, it) refl
    go (of_join unit_id) same = let quiet = rw (build_content, same) at e in cc
    go (of_end unit_id at) same = let quiet = rw (build_content, same) at e in cc

-- Nobody has two notifications of an event.
abbrev pub AtMostOnce : NotificationState → Type 0
AtMostOnce s = (k u : Key) → count_where (is_notice k u) s.notifications ≤ 1

-- What the worker keeps: `k` and `u` are an event and a user who was told of it.
abbrev pub Keeps : Key → Key → NotificationState → NotificationState → Type 0
Keeps k u s s' =
    (IsTold k s u → IsTold k s' u)
    × (AtMostOnce s → AtMostOnce s')
    × (s'.board ≡ s.board)
    × (s'.rooms ≡ s.rooms)

module _ (relayed : Key → Bool) (now : Time) (content : Content) (event_id : Key) where
  append-AtMostOnce :
      (user_id : Key) (s : NotificationState)
      → find_first (is_notice event_id user_id) s.notifications ≡ none
      → AtMostOnce s
      → (k u : Key)
      → count_where
          (is_notice k u)
          (s.notifications ++ notice relayed now content event_id user_id s ∷ [])
        ≤ 1
  unfolding count_where
  append-AtMostOnce user_id s missing once k u =
      let n = notice relayed now content event_id user_id s in
      let sum = count_where-append (is_notice k u) s.notifications (n ∷ []) in
      let before = once k u in
      let free = find_first-none-count (is_notice event_id user_id) s.notifications missing in
      elim (Bool-cases (is_notice k u n)) [
        | inr other ↦ ground (arith, sum, before, other)
        | inl mine ↦
            let event : event_id ≡ k = ground arith in
            let user : user_id ≡ u = ground arith in
            let none_yet : count_where (is_notice k u) s.notifications ≡ 0 =
              rw (event, user) at free in
            ground (arith, sum, none_yet)
      ]

  notify-Keeps :
      (k u user_id : Key) (s : NotificationState)
      → Keeps k u s (notify relayed now content event_id user_id s)
  notify-Keeps k u user_id s =
      let (board, rooms) = notify-tables relayed now content event_id user_id s in
      elim (Option-cases (find_first (is_notice event_id user_id) s.notifications)) [
        | inr (n, there) ↦
            rw (notify-again relayed now content event_id user_id s (ap is_some there))
              ((λ told. told), (λ once. once), refl, refl)
        | inl missing ↦ (
          λ told.
              rw (notify-new relayed now content event_id user_id s missing)
                (is_some-find_first-before (is_notice k u) s.notifications _ told),
          λ once k' u'.
              rw (notify-new relayed now content event_id user_id s missing)
                (append-AtMostOnce user_id s missing once k' u'),
          board,
          rooms,
        )
      ]

  notify_all-Keeps :
      (k u : Key) (users : List Key) (s : NotificationState)
      → Keeps k u s (notify_all relayed now content event_id users s)
  unfolding notify_all
  notify_all-Keeps k u [] s = ((λ told. told), (λ once. once), refl, refl)
  notify_all-Keeps k u (user_id ∷ users) s =
      let a = notify-Keeps k u user_id s in
      let b = notify_all-Keeps k u users (notify relayed now content event_id user_id s) in
      ((λ told. b.0 (a.0 told)), (λ once. b.1 (a.1 once)), b.2 ∙ a.2, b.3 ∙ a.3)

handle_event-Keeps :
    (k u : Key) (clip : Key → Key) (c : Consumption) (s : NotificationState)
    → Keeps k u s (handle_event clip c.relayed c.now c.event s)
unfolding handle_event
handle_event-Keeps k u clip c s = elim (Option-cases (build_content clip c.event)) [
  | inl quiet ↦ rw (handle_event, quiet) ((λ told. told), (λ once. once), refl, refl)
  | inr (content, e) ↦ rw (handle_event-content clip c.relayed c.now c.event s e) (
      notify_all-Keeps c.relayed c.now content c.event.event_id k u
        (resolve c.event s.board s.rooms) s)
]

pub on_topic-Keeps :
    (k u : Key) (topic : KafkaTopic) (clip : Key → Key) (c : Consumption) (s : NotificationState)
    → Keeps k u s (on_topic topic clip c s)
unfolding on_topic handle_event
on_topic-Keeps k u membership_events clip c s = ((λ told. told), (λ once. once), refl, refl)
on_topic-Keeps k u chat_events clip c s = handle_event-Keeps k u clip c s
on_topic-Keeps k u board_events clip c s = handle_event-Keeps k u clip c s
