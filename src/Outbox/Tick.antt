-- ===== src/Outbox/Tick.antt =====
-- One polling tick of src/outbox/application/relay-outbox.use-case.ts, against a specification of
-- what becomes of each row.
use estate_server.Base.{
  All, All-map, All-take, trivial-All, Bool-cases, Key, List, Option, Option-cases, Time, [], arith,
  count-zero_of_All, count_where, count_where-find_many, count_where-take, false, find_first,
  find_first-update_many, find_first_sound, find_many, find_many-All, if◌then◌else◌, inl, inr, leb,
  length, length-take-le, none, refl, some, sym, take, true, unique_row, update_many, updated, ℕ,
  ◌+◌, ◌==◌, ◌∙◌, ◌∷◌, ◌≡◌, ◌≢◌, ◌≤◌,
}
use estate_server.Events.{DomainEvent}
use estate_server.Outbox.Store.{
  OutboxRow, Config, row_is, set_published, set_failed, set_retry, relay_row, relay_rows, tick,
  fetch_pending, pending, is_ready,
}
use estate_server.Outbox.Backoff.{compute_backoff}
use mathlib.Core.Option
use mathlib.Core.Bool.{false≢true}
use mathlib.Core.Path.{subst}

module _ (cfg : Config) (publish : OutboxRow → Option Key) (now : Time) where
  -- What becomes of `x` when the row that was read as `row` is relayed.
  abbrev written : OutboxRow → OutboxRow → OutboxRow
  written row x = elim (publish row) [
    | none ↦ set_published now x
    | some error ↦
        if leb cfg.max_attempts (row.attempts + 1)
        then set_failed (row.attempts + 1) error now x
        else set_retry (row.attempts + 1) error
            (now + compute_backoff row.attempts cfg.base_ms cfg.cap_ms) x
  ]

  -- The specification of a tick on one row: published; or retried later, with one attempt more;
  -- or quarantined, when the attempts are used up.
  abbrev pub settled : OutboxRow → OutboxRow
  settled x = written x x

  find-update :
      (id k : Key) (f : OutboxRow → OutboxRow) (rows : List OutboxRow)
      → ((x : OutboxRow) → (f x).id ≡ x.id)
      → find_first (row_is id) (update_many (row_is k) f rows)
        ≡ Option.map (updated (row_is k) f) (find_first (row_is id) rows)
  find-update id k f rows h =
      find_first-update_many (row_is id) (row_is id) (row_is k) f rows (λ x. ground (arith, h x))

  relay_row-find :
      (id : Key) (row : OutboxRow) (rows : List OutboxRow) (sent : List DomainEvent) (x : OutboxRow)
      → find_first (row_is id) rows ≡ some x
      → find_first (row_is id) (relay_row cfg publish now row (rows, sent)).0
        ≡ some (updated (row_is row.id) (written row) x)
  unfolding relay_row
  relay_row-find id row rows sent x e = elim (Option-cases (publish row)) [
    | inl done ↦
        let m = find-update id row.id (set_published now) rows (λ y. refl) in ground (arith, e, m)
    | inr (error, thrown) ↦
        let n = row.attempts + 1 in
        let at = now + compute_backoff row.attempts cfg.base_ms cfg.cap_ms in
        elim (Bool-cases (leb cfg.max_attempts n)) [
          | inl spent ↦
              let m = find-update id row.id (set_failed n error now) rows (λ y. refl) in
              ground (arith, e, m)
          | inr left ↦
              let m = find-update id row.id (set_retry n error at) rows (λ y. refl) in
              ground (arith, e, m)
        ]
  ]

  relay_rows-other :
      (id : Key) (batch rows : List OutboxRow) (sent : List DomainEvent) (x : OutboxRow)
      → count_where (row_is id) batch ≡ 0
      → find_first (row_is id) rows ≡ some x
      → find_first (row_is id) (relay_rows cfg publish now batch (rows, sent)).0 ≡ some x
  unfolding relay_rows count_where
  relay_rows-other id [] rows sent x h e = e
  relay_rows-other id (row ∷ batch) rows sent x h e =
      let mine = find_first_sound (row_is id) rows e in
      let step = relay_row-find id row rows sent x e in
      let (rows', sent') = relay_row cfg publish now row (rows, sent) in
      relay_rows-other id batch rows' sent' x (ground arith) (ground (arith, step))

  written_id : (row x : OutboxRow) → (written row x).id ≡ x.id
  written_id row x = ground arith

  relay_rows-mine :
      (id : Key) (batch rows : List OutboxRow) (sent : List DomainEvent) (x : OutboxRow)
      → count_where (row_is id) batch ≡ 1
      → All (λ row. row.id ≡ id → row ≡ x) batch
      → find_first (row_is id) rows ≡ some x
      → find_first (row_is id) (relay_rows cfg publish now batch (rows, sent)).0 ≡ some (settled x)
  unfolding relay_rows count_where
  relay_rows-mine id [] rows sent x h a e = absurd (omega arith)
  relay_rows-mine id (row ∷ batch) rows sent x h (b, a) e =
      let mine = find_first_sound (row_is id) rows e in
      let step = relay_row-find id row rows sent x e in
      let (rows', sent') = relay_row cfg publish now row (rows, sent) in
      elim (Bool-cases (row.id == id)) [
        | inr other ↦ relay_rows-mine id batch rows' sent' x (ground arith) a (ground (arith, step))
        | inl same ↦
            let it : row ≡ x = b (ground arith) in
            let hit : row_is row.id x ≡ true = ground arith in
            relay_rows-other id batch rows' sent' (settled x) (ground arith) (step ∙ rw hit (rw it))
      ]

  -- If the ids of the outbox are unique, then a tick leaves a row as it was unless it fetched
  -- it, and a row that it fetched is, by the broker's answer to this row alone, published, or
  -- scheduled again with one attempt more, or FAILED when the attempts are used up.
  pub tick_settles :
      (batch_size : ℕ) (rows : List OutboxRow) (id : Key) {x : OutboxRow}
      → ((k : Key) → count_where (row_is k) rows ≤ 1)
      → find_first (row_is id) rows ≡ some x
      → find_first (row_is id) (tick cfg publish batch_size now rows).0
        ≡ some (
            if count_where (row_is id) (fetch_pending batch_size now rows) == 0
            then x
            else settled x)
  unfolding tick fetch_pending
  tick_settles batch_size rows id {x} unique e =
      let batch = take batch_size (find_many (is_ready now) rows) in
      let mine = find_first_sound (row_is id) rows e in
      let ready = count_where-find_many (row_is id) (is_ready now) rows in
      let taken = count_where-take (row_is id) batch_size (find_many (is_ready now) rows) in
      let one : count_where (λ r. r.id == x.id) rows ≤ 1 = unique x.id in
      let same = unique_row (λ r. r.id) (row_is id) rows x e one in
      elim (Bool-cases (count_where (row_is id) batch == 0)) [
        | inl left ↦ rw left (relay_rows-other id batch rows [] x (ground arith) e)
        | inr fetched ↦ rw fetched (
            relay_rows-mine id batch rows [] x (ground (arith, unique id))
              (All-take _ batch_size _ (
                All-map _ _ (find_many (is_ready now) rows) (λ r h k. h.0 (ground arith))
                  (find_many-All _ (is_ready now) rows same)))
              e)
      ]

  -- The batch is no larger than asked for, and only rows that are pending and due are in it.
  fetch_pending_ready :
      (batch_size : ℕ) (rows : List OutboxRow)
      → (length (fetch_pending batch_size now rows) ≤ batch_size)
        × All (λ row. is_ready now row ≡ true) (fetch_pending batch_size now rows)
  unfolding fetch_pending
  fetch_pending_ready batch_size rows = (
    length-take-le batch_size (find_many (is_ready now) rows),
    All-take _ batch_size _ (
        All-map _ _ (find_many (is_ready now) rows) (λ r h. h.1)
          (find_many-All _ (is_ready now) rows (trivial-All rows))),
  )

  not_ready : (x : OutboxRow) → x.status ≢ pending → is_ready now x ≡ false
  not_ready x over = ground arith

  not_mine :
      (id : Key) (r x : OutboxRow)
      → x.id ≡ id
      → is_ready now x ≡ false
      → (r.id ≡ x.id → r ≡ x) × (is_ready now r ≡ true)
      → row_is id r ≡ false
  not_mine id r x e not_x h = elim (Bool-cases (r.id == id)) [
    | inr other ↦ other
    | inl same ↦
        let it : r ≡ x = h.0 (ground arith) in
        let late : is_ready now x ≡ true = subst (λ y. is_ready now y ≡ true) it h.1 in
        absurd (false≢true (sym not_x ∙ late))
  ]

  -- If the ids of the outbox are unique, then a row that is published or FAILED is as it was
  -- after every tick.
  tick_terminal :
      (batch_size : ℕ) (rows : List OutboxRow) (id : Key) {x : OutboxRow}
      → ((k : Key) → count_where (row_is k) rows ≤ 1)
      → find_first (row_is id) rows ≡ some x
      → x.status ≢ pending
      → find_first (row_is id) (tick cfg publish batch_size now rows).0 ≡ some x
  unfolding tick fetch_pending
  tick_terminal batch_size rows id {x} unique e over =
      let taken = count_where-take (row_is id) batch_size (find_many (is_ready now) rows) in
      let mine = find_first_sound (row_is id) rows e in
      let same = unique_row (λ r. r.id) (row_is id) rows x e (unique x.id) in
      let not_x : is_ready now x ≡ false = not_ready x over in
      let elsewhere = λ (r : OutboxRow) (h : (r.id ≡ x.id → r ≡ x) × (is_ready now r ≡ true)).
        not_mine id r x (ground arith) not_x h in
      let none_ready =
        count-zero_of_All (λ r. (r.id ≡ x.id → r ≡ x) × (is_ready now r ≡ true)) (row_is id)
          (find_many (is_ready now) rows) (λ r h. elsewhere r h)
          (find_many-All _ (is_ready now) rows same) in
      relay_rows-other id (fetch_pending batch_size now rows) rows [] x (omega arith) e
