-- ===== src/Pipeline/Audited.antt =====
-- The event of a pending row of the outbox, as the worker of src/audit has written it down in the end.
use estate_server.Base.{
  All, All-map, In, In-All, Key, List, Option, Time, [], arith, count_where, find_many, map,
  All-mapped, find_many-All, find_first, has_key, inl, inr, Bool-cases, length, none, refl, some,
  true, ℕ, ◌*◌, ◌==◌, ==_iff, ==_refl, ◌∙◌, ◌∷◌, ◌≡◌, ◌≤◌,
}
use estate_server.Events.{DomainEvent}
use estate_server.Outbox.Store.{OutboxRow, Config, row_is}
use estate_server.Outbox.Draining.{open_row, IsDueFrom}
use estate_server.Audit.Log.{Delivery, deliver_all}
use estate_server.Audit.Deliveries.{id_of, answered, audit_once, events_of}
use estate_server.Pipeline.Published.{emitted}
use estate_server.Pipeline.Order.{emitted_exact, open_rows, payload_of}

-- What the broker does for a consumer group: each event that it was handed is delivered at least
-- once while the consumer can take it, in any order, and nothing else is.
pub record Delivers (handed taken : List DomainEvent) : Type 0 where
  pub at_least_once : All (λ e. In e taken) handed
  pub nothing_else : All (λ e. In e handed) taken

count-In :
    (e : DomainEvent) (es : List DomainEvent)
    → In e es
    → 1 ≤ count_where (has_key id_of e.event_id) es
unfolding count_where
count-In e [] m = absurd m
count-In e (x ∷ es) (inl same) = let hit = ==_refl e.event_id in rw same (ground (arith, hit))
count-In e (x ∷ es) (inr later) = let rest = count-In e es later in ground (arith, rest)

-- The first event with an id, where all with this id are the same.
first-In :
    (e : DomainEvent) (es : List DomainEvent)
    → In e es
    → All (λ x. x.event_id ≡ e.event_id → x ≡ e) es
    → find_first (has_key id_of e.event_id) es ≡ some e
unfolding find_first
first-In e [] m h = absurd m
first-In e (x ∷ es) (inl it) h = rw (it, ==_refl e.event_id) refl
first-In e (x ∷ es) (inr place) (same, h) = elim (Bool-cases (x.event_id == e.event_id)) [
  | inl here ↦ rw (here, same ((==_iff x.event_id e.event_id).0 here)) refl
  | inr later ↦ rw later (first-In e es place h)
]

-- The event of a pending row is among those of the pending rows.
In-open_rows :
    (row : OutboxRow) (rows : List OutboxRow)
    → In row rows
    → open_row row ≡ true
    → In row.payload (map payload_of (open_rows rows))
unfolding find_many
In-open_rows row [] m h = absurd m
In-open_rows row (r ∷ rows) (inl same) h = rw (same, h) (inl refl)
In-open_rows row (r ∷ rows) (inr later) h = elim (Bool-cases (open_row r)) [
  | inl here ↦ rw here (inr (In-open_rows row rows later h))
  | inr gone ↦ rw gone (In-open_rows row rows later h)
]

module _ (cfg : Config) (publish : OutboxRow → Option Key)
    (accepted : (row : OutboxRow) → publish row ≡ none) (batch_size : ℕ) (from : Time)
    (times : List Time) (rows : List OutboxRow) (row : OutboxRow)
    (unique : (i : Key) → count_where (row_is i) rows ≤ 1) (due : All (IsDueFrom from) rows)
    (late : All (λ now. from ≤ now) times)
    (enough : count_where open_row rows ≤ length times * batch_size) (there : In row rows)
    (pending : open_row row ≡ true)
    (one_event : All
      (λ (r : OutboxRow). r.payload.event_id ≡ row.payload.event_id → r.payload ≡ row.payload)
      rows) where
  handed : emitted cfg publish batch_size times rows ≡ map payload_of (open_rows rows)
  handed = emitted_exact cfg publish accepted batch_size from times rows unique due late enough

  all_same :
      All
        (λ (e : DomainEvent). e.event_id ≡ row.payload.event_id → e ≡ row.payload)
        (emitted cfg publish batch_size times rows)
  all_same = rw handed (
      All-mapped (λ e. e.event_id ≡ row.payload.event_id → e ≡ row.payload) payload_of _
        (All-map _ _ (open_rows rows) (λ r h. h.0) (find_many-All _ open_row rows one_event)))

  -- The event of the row is among those that the broker was handed.
  pub handed-In : In row.payload (emitted cfg publish batch_size times rows)
  handed-In = rw handed (In-open_rows row rows there pending)

  -- If the broker accepts every event, the ids of the outbox are unique, every pending row is due
  -- from a time `from` on, no tick comes before it, the batches together have room for the pending
  -- rows, no other event has the id of the event of the pending row `row`, and the audit worker is
  -- delivered each event that the broker was handed at least once while its database answers, again
  -- and again and in any order, and none else, then the audit log, empty at the start, holds one
  -- event with this id in the end, which is the event of the row.
  pub pending_event_audited :
      (ds : List Delivery) (next_id : Key)
      → Delivers (emitted cfg publish batch_size times rows) (answered ds)
      → let logged = events_of (deliver_all ds (record { logs = []; next_id = next_id })).logs in
        (count_where (has_key id_of row.payload.event_id) logged ≡ 1)
        × (find_first (has_key id_of row.payload.event_id) logged ≡ some row.payload)
  pending_event_audited ds next_id d =
      let (count, first) = audit_once ds row.payload.event_id next_id in
      let place =
        In-All _ row.payload (emitted cfg publish batch_size times rows) d.at_least_once
          handed-In in
      let taken = count-In row.payload (answered ds) place in
      let same =
        All-map _ _ (answered ds)
          (λ e m. In-All _ e (emitted cfg publish batch_size times rows) all_same m)
          d.nothing_else in
      (omega (arith, count, taken), first ∙ first-In row.payload (answered ds) place same)
