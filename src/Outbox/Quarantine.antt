-- ===== src/Outbox/Quarantine.antt =====
-- An event that the broker keeps refusing, over a sequence of polling ticks: the code of markFailed in
-- src/outbox/infrastructure/prisma-outbox-store.ts.
use native.Mathlib.Decide.{dec_lt}
use estate_server.Base.{
  Bool-cases, Key, List, Option, Option-cases, Time, [], ap, arith, count_where,
  count_where-update_many, false, find_first, if◌then◌else◌, inl, inr, is_some, leb, length, ltb,
  none, refl, some, true, ℕ, ◌+◌, ◌<◌, ◌==◌, ◌∙◌, ◌∷◌, ◌≡◌, ◌≢◌, ◌≤◌,
}
use estate_server.Events.{DomainEvent}
use estate_server.Outbox.Store.{
  relay_row, relay_rows, mark_published, mark_failed, set_published, set_failed, set_retry, pending,
  failed, OutboxRow, Config, row_is, tick, fetch_pending,
}
use estate_server.Outbox.Backoff.{compute_backoff}
use estate_server.Outbox.Tick.{settled, tick_settles}

refusal : (o : Option Key) → is_some o ≡ true → (error : Key) × (o ≡ some error)
refusal none h = cc
refusal (some error) h = (error, refl)

module _ (cfg : Config) (publish : OutboxRow → Option Key) where
  -- The row after the ticks at the given times, each of which finds the row due.
  abbrev pub settled_at : List Time → OutboxRow → OutboxRow
  settled_at [] x = x
  settled_at (now ∷ times) x = settled_at times (settled cfg publish now x)

  retried :
      (now : Time) (x : OutboxRow) {error : Key}
      → publish x ≡ some error
      → x.attempts + 1 < cfg.max_attempts
      → ((settled cfg publish now x).status ≡ x.status)
        × ((settled cfg publish now x).attempts ≡ x.attempts + 1)
  retried now x e h = (ground arith, ground arith)

  given_up :
      (now : Time) (x : OutboxRow) {error : Key}
      → publish x ≡ some error
      → x.attempts + 1 ≡ cfg.max_attempts
      → ((settled cfg publish now x).status ≡ failed)
        × ((settled cfg publish now x).attempts ≡ x.attempts + 1)
  given_up now x e h = (ground arith, ground arith)

  -- The specification of the ticks, followed by one row.
  settled_at-exact :
      (times : List Time) (x : OutboxRow)
      → ((y : OutboxRow) → is_some (publish y) ≡ true)
      → x.status ≡ pending
      → x.attempts + length times ≤ cfg.max_attempts
      → x.attempts < cfg.max_attempts
      → ((settled_at times x).attempts ≡ x.attempts + length times)
        × ((settled_at times x).status
            ≡ (if ltb (x.attempts + length times) cfg.max_attempts then pending else failed))
  settled_at-exact (now ∷ []) x refused p h k =
      let (error, e) = refusal (publish x) (refused x) in
      elim (dec_lt (x.attempts + 1) cfg.max_attempts) [
        | yes more ↦
            let (status, n) = retried now x e more in
            let below : ltb (x.attempts + 1) cfg.max_attempts ≡ true = ground arith in
            (omega arith, rw below (status ∙ p))
        | no last ↦
            let (status, n) = given_up now x e (omega arith) in
            let reached : ltb (x.attempts + 1) cfg.max_attempts ≡ false = ground arith in
            (omega arith, rw reached status)
      ]
  settled_at-exact [] x refused p h k =
      let below : ltb (x.attempts + 0) cfg.max_attempts ≡ true = ground arith in
      (omega arith, rw below p)
  settled_at-exact (now ∷ later ∷ times) x refused p h k =
      let (error, e) = refusal (publish x) (refused x) in
      let (status, n) = retried now x e (omega arith) in
      let (attempts, final) =
        settled_at-exact (later ∷ times) (settled cfg publish now x) refused (status ∙ p)
          (omega arith) (omega arith) in
      let same : (settled cfg publish now x).attempts + length (later ∷ times)
          ≡ x.attempts + length (now ∷ later ∷ times) =
        omega arith in
      (omega arith, final ∙ ap (λ m. if ltb m cfg.max_attempts then pending else failed) same)

  relay_row-count :
      (k : Key) (now : Time) (row : OutboxRow) (rows : List OutboxRow) (sent : List DomainEvent)
      → count_where (row_is k) (relay_row cfg publish now row (rows, sent)).0
        ≡ count_where (row_is k) rows
  unfolding relay_row mark_published mark_failed
  relay_row-count k now row rows sent =
      let same = λ (f : OutboxRow → OutboxRow) (h : (x : OutboxRow) → (f x).id ≡ x.id).
        count_where-update_many (row_is k) (row_is k) (row_is row.id) f rows
          (λ x. ground (arith, h x)) in
      elim (Option-cases (publish row)) [
        | inl done ↦ let m = same (set_published now) (λ x. refl) in ground (arith, m)
        | inr (error, thrown) ↦ elim (Bool-cases (leb cfg.max_attempts (row.attempts + 1))) [
          | inl spent ↦
              let m = same (set_failed (row.attempts + 1) error now) (λ x. refl) in
              ground (arith, m)
          | inr left ↦
              let at = now + compute_backoff row.attempts cfg.base_ms cfg.cap_ms in
              let m = same (set_retry (row.attempts + 1) error at) (λ x. refl) in ground (arith, m)
        ]
      ]

  pub relay_rows-count :
      (k : Key) (now : Time) (batch rows : List OutboxRow) (sent : List DomainEvent)
      → count_where (row_is k) (relay_rows cfg publish now batch (rows, sent)).0
        ≡ count_where (row_is k) rows
  unfolding relay_rows
  relay_rows-count k now [] rows sent = refl
  relay_rows-count k now (row ∷ batch) rows sent =
      let (rows', sent') = relay_row cfg publish now row (rows, sent) in
      relay_rows-count k now batch rows' sent' ∙ relay_row-count k now row rows sent

  module _ (batch_size : ℕ) where
    -- The outbox after the ticks at the given times.
    abbrev pub ticks : List Time → List OutboxRow → List OutboxRow
    ticks [] rows = rows
    ticks (now ∷ times) rows = ticks times (tick cfg publish batch_size now rows).0

    pub tick-count :
        (k : Key) (now : Time) (rows : List OutboxRow)
        → count_where (row_is k) (tick cfg publish batch_size now rows).0
          ≡ count_where (row_is k) rows
    unfolding tick
    tick-count k now rows = relay_rows-count k now (fetch_pending batch_size now rows) rows []

  module _ (batch_size : ℕ) (id : Key) where
    -- The row `id` is in the batch of each of the ticks.
    abbrev pub IsFetched : List Time → List OutboxRow → Type 0
    IsFetched [] rows = Unit
    IsFetched (now ∷ times) rows =
        (count_where (row_is id) (fetch_pending batch_size now rows) ≢ 0)
        × IsFetched times (tick cfg publish batch_size now rows).0

    ticks-settled_at :
        (times : List Time) (rows : List OutboxRow) {x : OutboxRow}
        → ((k : Key) → count_where (row_is k) rows ≤ 1)
        → find_first (row_is id) rows ≡ some x
        → IsFetched times rows
        → find_first (row_is id) (ticks batch_size times rows) ≡ some (settled_at times x)
    ticks-settled_at [] rows unique e h = e
    ticks-settled_at (now ∷ times) rows {x} unique e (here, later) =
        let next = (tick cfg publish batch_size now rows).0 in
        let fetched : (count_where (row_is id) (fetch_pending batch_size now rows) == 0) ≡ false =
          ground arith in
        let step = tick_settles cfg publish now batch_size rows id unique e in
        ticks-settled_at times next (λ k. rw (tick-count batch_size k now rows) (unique k))
          (rw fetched at step) later

    -- If the ids of the outbox are unique, the broker refuses every event, and a pending
    -- row below the limit of attempts is in the batch of each tick of a sequence that does
    -- not go beyond the limit, then afterwards the row has one attempt more for each tick,
    -- and it is FAILED if these attempts reach the limit, and pending otherwise.
    pub quarantine_exact :
        (times : List Time) (rows : List OutboxRow) {x : OutboxRow}
        → ((y : OutboxRow) → is_some (publish y) ≡ true)
        → ((k : Key) → count_where (row_is k) rows ≤ 1)
        → find_first (row_is id) rows ≡ some x
        → IsFetched times rows
        → x.status ≡ pending
        → x.attempts + length times ≤ cfg.max_attempts
        → x.attempts < cfg.max_attempts
        → (y : OutboxRow) × (find_first (row_is id) (ticks batch_size times rows) ≡ some y)
          × (y.attempts ≡ x.attempts + length times)
          × (y.status
              ≡ (if ltb (x.attempts + length times) cfg.max_attempts then pending else failed))
    quarantine_exact times rows {x} refused unique e fetched p h k = (
      settled_at times x,
      ticks-settled_at times rows unique e fetched,
      (settled_at-exact times x refused p h k).0,
      (settled_at-exact times x refused p h k).1,
    )
