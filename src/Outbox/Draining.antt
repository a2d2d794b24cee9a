-- ===== src/Outbox/Draining.antt =====
-- That the outbox empties while the broker accepts what it is given: the tick of
-- src/outbox/application/relay-outbox.use-case.ts, again and again.
use estate_server.Base.{
  All, All-map, All-take, All-update_many, All-zip, Bool, Bool-cases, Key, List, Option, Time, [],
  ap, arith, count-zero-All, count_where, count_where-find_many, count_where-take, false, find_many,
  find_many-All, inl, inr, length, min, none, refl, suc, take, true, update_many, zero, ℕ, ◌&&◌,
  ◌*◌, ◌+◌, ◌==◌, ◌∙◌, ◌∷◌, ◌≡◌, ◌≤◌,
}
use estate_server.Events.{DomainEvent}
use estate_server.Outbox.Store.{
  OutboxRow, Config, row_is, is_pending, is_ready, set_published, mark_published, relay_row,
  relay_rows, tick, fetch_pending,
}
use native.Mathlib.Nat.{suc-mul}
use estate_server.Outbox.Quarantine.{tick-count, ticks}

abbrev pub open_row : OutboxRow → Bool
open_row row = is_pending row.status

abbrev open_with : Key → OutboxRow → Bool
open_with id row = row.id == id && is_pending row.status

-- Every row that is pending is due at every time from `from` on.
abbrev pub IsDueFrom : Time → OutboxRow → Type 0
IsDueFrom from row = (now : Time) → from ≤ now → open_row row ≡ is_ready now row

pub length-find_many :
    {A : Type 0} (p : A → Bool) (xs : List A) → length (find_many p xs) ≡ count_where p xs
unfolding find_many count_where
length-find_many p [] = refl
length-find_many p (x ∷ xs) = ground (arith, length-find_many p xs)

length-take : {A : Type 0} (n : ℕ) (xs : List A) → length (take n xs) ≡ min n (length xs)
length-take zero xs = omega arith
length-take (suc n) [] = omega arith
length-take (suc n) (x ∷ xs) = omega (arith, length-take n xs)

ready-open :
    (from now : Time) (rows : List OutboxRow)
    → All (IsDueFrom from) rows
    → from ≤ now
    → count_where (is_ready now) rows ≡ count_where open_row rows
unfolding count_where
ready-open from now [] due late = refl
ready-open from now (row ∷ rows) (d, due) late =
    let same = d now late in ground (arith, same, ready-open from now rows due late)

-- A row that is published leaves the pending ones, and no other does.
open-mark_published :
    (now : Time) (id : Key) (rows : List OutboxRow)
    → count_where open_row (mark_published now id rows) + count_where (open_with id) rows
      ≡ count_where open_row rows
unfolding mark_published update_many count_where
open-mark_published now id [] = omega arith
open-mark_published now id (row ∷ rows) = ground (arith, open-mark_published now id rows)

open_with-mark_published :
    (now : Time) (id k : Key) (rows : List OutboxRow)
    → (k == id) ≡ false
    → count_where (open_with k) (mark_published now id rows) ≡ count_where (open_with k) rows
unfolding mark_published update_many count_where
open_with-mark_published now id k [] other = refl
open_with-mark_published now id k (row ∷ rows) other =
    ground (arith, open_with-mark_published now id k rows other)

-- Each of the rows that a query for pending ones returns is counted.
counted :
    (rows : List OutboxRow)
    → All (λ row. open_row row ≡ true → 1 ≤ count_where (open_with row.id) rows) rows
unfolding count_where
counted [] = tt
counted (row ∷ rows) = (
  (λ here. ground arith),
  All-map _ _ rows (λ r h here. let rest = h here in ground (arith, rest)) (counted rows),
)

module _ (cfg : Config) (publish : OutboxRow → Option Key)
    (accepted : (row : OutboxRow) → publish row ≡ none) where
  relay_row-published :
      (now : Time) (row : OutboxRow) (rows : List OutboxRow) (sent : List DomainEvent)
      → (relay_row cfg publish now row (rows, sent)).0 ≡ mark_published now row.id rows
  unfolding relay_row
  relay_row-published now row rows sent = rw (relay_row, accepted row) refl

  -- A batch of different pending rows is published whole.
  relay_rows-open :
      (now : Time) (batch rows : List OutboxRow) (sent : List DomainEvent)
      → ((k : Key) → count_where (row_is k) batch ≤ 1)
      → All (λ row. 1 ≤ count_where (open_with row.id) rows) batch
      → count_where open_row (relay_rows cfg publish now batch (rows, sent)).0 + length batch
        ≤ count_where open_row rows
  unfolding relay_rows count_where
  relay_rows-open now [] rows sent unique h = omega arith
  relay_rows-open now (row ∷ batch) rows sent unique (here, h) =
      let (rows', sent') = relay_row cfg publish now row (rows, sent) in
      let step : rows' ≡ mark_published now row.id rows = relay_row-published now row rows sent in
      let fewer = open-mark_published now row.id rows in
      let alone = unique row.id in
      let others = count-zero-All (row_is row.id) batch (ground arith) in
      let still : (r : OutboxRow)
          → (row_is row.id r ≡ false) × (1 ≤ count_where (open_with r.id) rows)
          → 1 ≤ count_where (open_with r.id) rows' =
        λ r e. rw (step, open_with-mark_published now row.id r.id rows e.0) e.1 in
      let rest =
        relay_rows-open now batch rows' sent' (λ k. let one = unique k in ground arith)
          (All-map _ _ batch still (All-zip _ _ batch others h)) in
      ground (arith, rest, fewer, ap (λ rs. count_where open_row rs) step)

  -- A tick publishes a whole batch, or all that is left.
  tick-open :
      (batch_size : ℕ) (from now : Time) (rows : List OutboxRow)
      → ((k : Key) → count_where (row_is k) rows ≤ 1)
      → All (IsDueFrom from) rows
      → from ≤ now
      → count_where open_row (tick cfg publish batch_size now rows).0
          + min batch_size (count_where open_row rows)
        ≤ count_where open_row rows
  unfolding tick fetch_pending
  tick-open batch_size from now rows unique due late =
      let ready = find_many (is_ready now) rows in
      let batch = take batch_size ready in
      let all_ready : count_where (is_ready now) rows ≡ count_where open_row rows =
        ready-open from now rows due late in
      let size : length batch ≡ min batch_size (count_where open_row rows) =
        length-take batch_size ready
        ∙ ap (min batch_size) (length-find_many (is_ready now) rows ∙ all_ready) in
      let distinct : (k : Key) → count_where (row_is k) batch ≤ 1 = λ k. omega (
        arith,
        count_where-take (row_is k) batch_size ready,
        count_where-find_many (row_is k) (is_ready now) rows,
        unique k,
      ) in
      let counted_batch = All-take _ batch_size ready (
        All-map _ _ ready (λ r e. e.0 (ground arith))
          (find_many-All _ (is_ready now) rows (counted rows))) in
      let all = relay_rows-open now batch rows [] distinct counted_batch in omega (arith, all, size)

  relay_rows-IsDueFrom :
      (from now : Time) (batch rows : List OutboxRow) (sent : List DomainEvent)
      → All (IsDueFrom from) rows
      → All (IsDueFrom from) (relay_rows cfg publish now batch (rows, sent)).0
  unfolding relay_rows mark_published
  relay_rows-IsDueFrom from now [] rows sent due = due
  relay_rows-IsDueFrom from now (row ∷ batch) rows sent due =
      let (rows', sent') = relay_row cfg publish now row (rows, sent) in
      let step : rows' ≡ mark_published now row.id rows = relay_row-published now row rows sent in
      relay_rows-IsDueFrom from now batch rows' sent' (
        rw step (
          All-update_many (IsDueFrom from) (IsDueFrom from) (row_is row.id) (set_published now) rows
            (λ x d. elim (Bool-cases (row_is row.id x)) [
              | inl hit ↦ rw hit (λ at late. refl)
              | inr miss ↦ rw miss d
            ])
            due))

  pub tick-IsDueFrom :
      (batch_size : ℕ) (from now : Time) (rows : List OutboxRow)
      → All (IsDueFrom from) rows
      → All (IsDueFrom from) (tick cfg publish batch_size now rows).0
  unfolding tick
  tick-IsDueFrom batch_size from now rows due =
      relay_rows-IsDueFrom from now (fetch_pending batch_size now rows) rows [] due

  -- If the broker accepts every event, the ids of the outbox are unique, every pending row is
  -- due from a time `from` on, and no tick comes before it, then after a sequence of ticks
  -- whose batches together have room for the pending rows, no row is pending.
  pub outbox_drains :
      (batch_size : ℕ) (from : Time) (times : List Time) (rows : List OutboxRow)
      → ((k : Key) → count_where (row_is k) rows ≤ 1)
      → All (IsDueFrom from) rows
      → All (λ now. from ≤ now) times
      → count_where open_row rows ≤ length times * batch_size
      → count_where open_row (ticks cfg publish batch_size times rows) ≡ 0
  outbox_drains batch_size from [] rows unique due late enough = omega arith
  outbox_drains batch_size from (now ∷ times) rows unique due (here, late) enough =
      let rows' = (tick cfg publish batch_size now rows).0 in
      let fewer = tick-open batch_size from now rows unique due here in
      outbox_drains batch_size from times rows'
        (λ k. rw (tick-count cfg publish batch_size k now rows) (unique k))
        (tick-IsDueFrom batch_size from now rows due) late
        (omega (arith, fewer, suc-mul (length times) batch_size))
