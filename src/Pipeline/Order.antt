-- ===== src/Pipeline/Order.antt =====
-- In which order, and how often, src/outbox/application/relay-outbox.use-case.ts emits what waits.
use estate_server.Base.{
  All, Key, List, Option, Time, [], ap, arith, count_where, count_where-find_many, delete_many,
  delete_many-none, drop, find_many, length, map, none, refl, suc, sym, take, update_many, zero, ℕ,
  ◌*◌, ◌++◌, ◌+◌, ==_refl, ◌∙◌, ◌∷◌, ◌≡◌, ◌≤◌,
}
use mathlib.Core.List.{append-nil, append_assoc}
use native.Mathlib.Nat.{suc-mul}
use estate_server.Events.{DomainEvent}
use estate_server.Outbox.Store.{
  OutboxRow, Config, row_is, is_ready, mark_published, relay_rows, tick, fetch_pending,
}
use estate_server.Outbox.Quarantine.{tick-count}
use estate_server.Outbox.Draining.{open_row, IsDueFrom, tick-IsDueFrom, length-find_many}
use estate_server.Pipeline.Published.{emitted, relay_row-emits}

-- The rows that are pending, in the order of the table.
abbrev pub open_rows : List OutboxRow → List OutboxRow
open_rows rows = find_many open_row rows

abbrev pub payload_of : OutboxRow → DomainEvent
payload_of row = row.payload

ready-open :
    (from now : Time) (rows : List OutboxRow)
    → All (IsDueFrom from) rows
    → from ≤ now
    → find_many (is_ready now) rows ≡ open_rows rows
unfolding find_many
ready-open from now [] due late = refl
ready-open from now (row ∷ rows) (d, due) late =
    let same = d now late in ground (arith, same, ready-open from now rows due late)

open-mark_published :
    (now : Time) (id : Key) (rows : List OutboxRow)
    → open_rows (mark_published now id rows) ≡ delete_many (row_is id) (open_rows rows)
unfolding mark_published update_many find_many delete_many
open-mark_published now id [] = refl
open-mark_published now id (row ∷ rows) = ground (arith, open-mark_published now id rows)

-- The first of rows with different ids is the only one with its id.
delete-first :
    (x : OutboxRow) (rows : List OutboxRow)
    → count_where (row_is x.id) (x ∷ rows) ≤ 1
    → delete_many (row_is x.id) (x ∷ rows) ≡ rows
unfolding delete_many count_where
delete-first x rows h =
    let hit = ==_refl x.id in ground (arith, hit, delete_many-none (row_is x.id) rows)

rest_unique :
    (x : OutboxRow) (rows : List OutboxRow)
    → ((k : Key) → count_where (row_is k) (x ∷ rows) ≤ 1)
    → (k : Key) → count_where (row_is k) rows ≤ 1
unfolding count_where
rest_unique x rows h k = let one = h k in ground arith

take-nil : (n : ℕ) → take {A = OutboxRow} n [] ≡ []
take-nil zero = refl
take-nil (suc n) = refl

take-drop : (n m : ℕ) (xs : List OutboxRow) → take n xs ++ take m (drop n xs) ≡ take (n + m) xs
take-drop zero m xs = let e : m ≡ 0 + m = omega arith in ap (λ (k : ℕ). take k xs) e
take-drop (suc n) m [] = take-nil m ∙ sym (take-nil (suc n + m))
take-drop (suc n) m (x ∷ xs) =
    let e : suc (n + m) ≡ suc n + m = omega arith in
    ap (λ zs. x ∷ zs) (take-drop n m xs) ∙ ap (λ (k : ℕ). take k (x ∷ xs)) e

map-append :
    (xs ys : List OutboxRow) → map payload_of (xs ++ ys) ≡ map payload_of xs ++ map payload_of ys
map-append [] ys = refl
map-append (x ∷ xs) ys = ap (λ zs. x.payload ∷ zs) (map-append xs ys)

take-all : (n : ℕ) (xs : List OutboxRow) → length xs ≤ n → take n xs ≡ xs
take-all zero [] h = refl
take-all zero (x ∷ xs) h = absurd (omega arith)
take-all (suc n) [] h = refl
take-all (suc n) (x ∷ xs) h = ap (λ zs. x ∷ zs) (take-all n xs (omega arith))

module _ (cfg : Config) (publish : OutboxRow → Option Key)
    (accepted : (row : OutboxRow) → publish row ≡ none) where
  -- A batch of the first pending rows goes out in its order, and the rows behind it stay.
  relay_rows-order :
      (now : Time) (n : ℕ) (waiting rows : List OutboxRow) (sent : List DomainEvent)
      → open_rows rows ≡ waiting
      → ((k : Key) → count_where (row_is k) waiting ≤ 1)
      → let (rows', sent') = relay_rows cfg publish now (take n waiting) (rows, sent) in
        (open_rows rows' ≡ drop n waiting) × (sent' ≡ sent ++ map payload_of (take n waiting))
  unfolding relay_rows
  relay_rows-order now zero waiting rows sent e unique = (e, sym (append-nil sent))
  relay_rows-order now (suc n) [] rows sent e unique = (e, sym (append-nil sent))
  relay_rows-order now (suc n) (x ∷ waiting) rows sent e unique =
      let left : open_rows (mark_published now x.id rows) ≡ waiting =
        open-mark_published now x.id rows
        ∙ ap (delete_many (row_is x.id)) e
        ∙ delete-first x waiting (unique x.id) in
      let (open_, order) =
        relay_rows-order now n waiting (mark_published now x.id rows) (sent ++ x.payload ∷ []) left
          (rest_unique x waiting unique) in
      rw (relay_rows, relay_row-emits cfg publish accepted now x rows sent)
        (open_, order ∙ append_assoc sent (x.payload ∷ []) (map payload_of (take n waiting)))

  tick-order :
      (batch_size : ℕ) (from now : Time) (rows : List OutboxRow)
      → ((k : Key) → count_where (row_is k) rows ≤ 1)
      → All (IsDueFrom from) rows
      → from ≤ now
      → let (rows', sent) = tick cfg publish batch_size now rows in
        (open_rows rows' ≡ drop batch_size (open_rows rows))
        × (sent ≡ map payload_of (take batch_size (open_rows rows)))
  unfolding tick fetch_pending
  tick-order batch_size from now rows unique due late =
      let same = ready-open from now rows due late in
      let distinct : (k : Key) → count_where (row_is k) (open_rows rows) ≤ 1 =
        λ k. omega (arith, count_where-find_many (row_is k) open_row rows, unique k) in
      rw same (relay_rows-order now batch_size (open_rows rows) rows [] refl distinct)

  ticks-order :
      (batch_size : ℕ) (from : Time) (times : List Time) (rows : List OutboxRow)
      → ((k : Key) → count_where (row_is k) rows ≤ 1)
      → All (IsDueFrom from) rows
      → All (λ now. from ≤ now) times
      → emitted cfg publish batch_size times rows
        ≡ map payload_of (take (length times * batch_size) (open_rows rows))
  unfolding emitted
  ticks-order batch_size from [] rows unique due late =
      let e : 0 ≡ 0 * batch_size = omega arith in
      ap (λ (k : ℕ). map payload_of (take k (open_rows rows))) e
  ticks-order batch_size from (now ∷ times) rows unique due (here, late) =
      let (rows', sent) = tick cfg publish batch_size now rows in
      let (left, first) = tick-order batch_size from now rows unique due here in
      let rest =
        ticks-order batch_size from times rows'
          (λ k. rw (tick-count cfg publish batch_size k now rows) (unique k))
          (tick-IsDueFrom cfg publish accepted batch_size from now rows due) late in
      let waiting = open_rows rows in
      let more = length times * batch_size in
      let all : batch_size + more ≡ suc (length times) * batch_size =
        omega (arith, suc-mul (length times) batch_size) in
      ap (λ es. sent ++ es) (rest ∙ ap (λ w. map payload_of (take more w)) left)
      ∙ ap (λ es. es ++ map payload_of (take more (drop batch_size waiting))) first
      ∙ sym (map-append (take batch_size waiting) (take more (drop batch_size waiting)))
      ∙ ap (map payload_of) (take-drop batch_size more waiting)
      ∙ ap (λ (k : ℕ). map payload_of (take k waiting)) all

-- If the broker accepts every event, the ids of the outbox are unique, every pending row is due from
-- a time `from` on, no tick comes before it, and the batches together have room for the pending
-- rows, then what the ticks hand to the broker is exactly the events of the pending rows, each once
-- and in the order of the table.
pub emitted_exact :
    (cfg : Config) (publish : OutboxRow → Option Key)
    → ((row : OutboxRow) → publish row ≡ none)
    → (batch_size : ℕ) (from : Time) (times : List Time) (rows : List OutboxRow)
    → ((i : Key) → count_where (row_is i) rows ≤ 1)
    → All (IsDueFrom from) rows
    → All (λ now. from ≤ now) times
    → count_where open_row rows ≤ length times * batch_size
    → emitted cfg publish batch_size times rows ≡ map payload_of (open_rows rows)
emitted_exact cfg publish accepted batch_size from times rows unique due late enough =
    ticks-order cfg publish accepted batch_size from times rows unique due late
    ∙ ap (map payload_of) (
        take-all (length times * batch_size) (open_rows rows)
          (omega (arith, length-find_many open_row rows, enough)))
