-- ===== src/Pipeline/Told.antt =====
-- Every recipient has one notification of a pending event in the end.
use estate_server.Base.{
  All, All-map, In, In-All, Key, List, [], Option, Option-cases, Time, ap, arith, count_where,
  count-pos_of_find_first, find_first, inl, inr, length, none, refl, some, true, ℕ, ◌*◌, ◌∙◌, ◌∷◌,
  ◌≡◌, ◌≤◌,
}
use estate_server.Events.{DomainEvent, topic_for_event}
use estate_server.Notification.Store.{Content, NotificationState, build_content, is_notice}
use estate_server.Notification.Recipients.{resolve}
use estate_server.Notification.Fanout.{IsTold, handle_event_once}
use estate_server.Outbox.Store.{OutboxRow, Config, row_is}
use estate_server.Outbox.Draining.{open_row, IsDueFrom}
use estate_server.Pipeline.Audited.{Delivers, handed-In}
use estate_server.Pipeline.Published.{emitted}
use estate_server.Pipeline.Informed.{
  AtMostOnce, Keeps, Consumption, consume_all, consumed, on_topic, on_topic-Keeps, on_topic-content,
  type_of,
}

module _ (clip : Key → Key) where
  consume_all-Keeps :
      (k u : Key) (cs : List Consumption) (s : NotificationState)
      → Keeps k u s (consume_all clip cs s)
  unfolding consume_all
  consume_all-Keeps k u [] s = ((λ told. told), (λ once. once), refl, refl)
  consume_all-Keeps k u (c ∷ cs) s =
      let s' = on_topic (topic_for_event c.event.event_type) clip c s in
      let a = on_topic-Keeps k u (topic_for_event c.event.event_type) clip c s in
      let b = consume_all-Keeps k u cs s' in
      ((λ told. b.0 (a.0 told)), (λ once. b.1 (a.1 once)), b.2 ∙ a.2, b.3 ∙ a.3)

  module _ (event : DomainEvent) {content : Content}
      (typed : event.event_type ≡ type_of event.payload)
      (content_of : build_content clip event ≡ some content) where
    consume-tells :
        (c : Consumption) (s : NotificationState)
        → c.event ≡ event
        → All
            (IsTold event.event_id (on_topic (topic_for_event c.event.event_type) clip c s))
            (resolve event s.board s.rooms)
    consume-tells c s it =
        let told = (handle_event_once clip c.relayed c.relayed c.now c.now event s content_of).0 in
        let typed' : c.event.event_type ≡ type_of c.event.payload = rw it typed in
        let content' : build_content clip c.event ≡ some content = rw it content_of in
        rw (on_topic-content clip c s typed' content', it) told

    consume_all-tells :
        (cs : List Consumption) (s : NotificationState)
        → In event (consumed cs)
        → All (IsTold event.event_id (consume_all clip cs s)) (resolve event s.board s.rooms)
    unfolding consume_all
    consume_all-tells [] s m = absurd m
    consume_all-tells (c ∷ cs) s (inl it) =
        let s' = on_topic (topic_for_event c.event.event_type) clip c s in
        All-map _ _ (resolve event s.board s.rooms)
          (λ u told. (consume_all-Keeps event.event_id u cs s').0 told) (consume-tells c s it)
    consume_all-tells (c ∷ cs) s (inr later) =
        let s' = on_topic (topic_for_event c.event.event_type) clip c s in
        let kept = on_topic-Keeps event.event_id 0 (topic_for_event c.event.event_type) clip c s in
        let same : resolve event s'.board s'.rooms ≡ resolve event s.board s.rooms =
          ap (λ b. resolve event b s'.rooms) kept.2 ∙ ap (resolve event s.board) kept.3 in
        let told = consume_all-tells cs s' later in rw same at told

told-once :
    (k u : Key) (s : NotificationState)
    → AtMostOnce s
    → IsTold k s u
    → count_where (is_notice k u) s.notifications ≡ 1
told-once k u s once told = elim (Option-cases (find_first (is_notice k u) s.notifications)) [
  | inl missing ↦ let clash = rw missing at told in cc
  | inr (n, found) ↦
      let some_row = count-pos_of_find_first (is_notice k u) s.notifications found in
      let bound = once k u in omega arith
]

module _ (cfg : Config) (publish : OutboxRow → Option Key)
    (accepted : (row : OutboxRow) → publish row ≡ none) (batch_size : ℕ) (from : Time)
    (times : List Time) (rows : List OutboxRow) (row : OutboxRow)
    (unique : (i : Key) → count_where (row_is i) rows ≤ 1) (due : All (IsDueFrom from) rows)
    (late : All (λ now. from ≤ now) times)
    (enough : count_where open_row rows ≤ length times * batch_size) (there : In row rows)
    (pending : open_row row ≡ true)
    (one_event : All
      (λ (r : OutboxRow). r.payload.event_id ≡ row.payload.event_id → r.payload ≡ row.payload)
      rows) where
  -- If the broker accepts every event, the ids of the outbox are unique, every pending row is due
  -- from a time `from` on, no tick comes before it, the batches together have room for the pending
  -- rows, no other event has the id of the event of the pending row `row`, this event has the type
  -- of its payload and a content for notifications, the worker of the notifications is delivered
  -- each event that the broker was handed at least once, again and again and in any order, and none
  -- else, and nobody has two notifications of an event at the start, then everybody whom the
  -- tables name as a recipient of the event has exactly one notification of it in the end.
  pub pending_event_told :
      (clip : Key → Key) (cs : List Consumption) (s : NotificationState) {content : Content}
      → row.payload.event_type ≡ type_of row.payload.payload
      → build_content clip row.payload ≡ some content
      → Delivers (emitted cfg publish batch_size times rows) (consumed cs)
      → AtMostOnce s
      → All
          (λ u.
            count_where (is_notice row.payload.event_id u) (consume_all clip cs s).notifications
            ≡ 1)
          (resolve row.payload s.board s.rooms)
  pending_event_told clip cs s typed content_of d once =
      let sent =
        handed-In cfg publish accepted batch_size from times rows row unique due late enough there
          pending one_event in
      let place = In-All _ row.payload _ d.at_least_once sent in
      let kept = consume_all-Keeps clip 0 0 cs s in
      All-map _ _ (resolve row.payload s.board s.rooms)
        (λ u told. told-once row.payload.event_id u (consume_all clip cs s) (kept.1 once) told)
        (consume_all-tells clip row.payload typed content_of cs s place)
