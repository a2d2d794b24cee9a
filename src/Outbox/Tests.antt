-- ===== src/Outbox/Tests.antt =====
-- An outbox of two rows, of which the broker refuses one.
use estate_server.Base.{
  Key, List, Option, [], arith, count_where, find_first, find_many, if◌then◌else◌, none, refl, some,
  update_many, ◌+◌, ◌==◌, ◌∷◌, ◌≡◌, ◌≤◌,
}
use estate_server.Events.{DomainEvent, like_created, post, of_like}
use estate_server.Outbox.Store.{
  row_of, relay_row, relay_rows, mark_failed, OutboxRow, Config, published, failed, row_is,
  fetch_pending, tick,
}
use estate_server.Outbox.Backoff.{compute_backoff}
use estate_server.Outbox.Tick.{settled, tick_settles}
use estate_server.Outbox.Draining.{open_row, outbox_drains}
use estate_server.Outbox.Quarantine.{ticks, IsFetched, quarantine_exact}

abbrev cfg : Config
cfg = record { max_attempts = 3; base_ms = 1000; cap_ms = 60000 }

abbrev event_of : Key → DomainEvent
event_of id = record {
  event_id = id + 10;
  event_type = like_created;
  occurred_at = 1;
  actor_id = none;
  entity_type = post;
  entity_id = 1;
  payload = of_like 1 1;
}

abbrev waiting : Key → OutboxRow
waiting id = row_of none id (event_of id)

abbrev done_row : OutboxRow
done_row = record (waiting 2) { status = published; published_at = some 1 }

abbrev rows : List OutboxRow
rows = waiting 1 ∷ done_row ∷ []

abbrev publish : OutboxRow → Option Key
publish row = if row.id == 1 then some 9 else none

one_row : (k : Key) → count_where (row_is k) rows ≤ 1
unfolding count_where
one_row k = ground arith

first : find_first (row_is 1) rows ≡ some (waiting 1)
unfolding find_first
first = refl

tick_settles_example :
    find_first (row_is 1) (tick cfg publish 10 5 rows).0
    ≡ some (
        if count_where (row_is 1) (fetch_pending 10 5 rows) == 0
        then waiting 1
        else settled cfg publish 5 (waiting 1))
tick_settles_example = tick_settles cfg publish 5 10 rows 1 one_row first

abbrev refuse : OutboxRow → Option Key
refuse row = some 9

abbrev poison : List OutboxRow
poison = waiting 1 ∷ []

poison_one : (k : Key) → count_where (row_is k) poison ≤ 1
unfolding count_where
poison_one k = ground arith

poison_found : find_first (row_is 1) poison ≡ some (waiting 1)
unfolding find_first
poison_found = refl

poison-IsFetched : IsFetched cfg refuse 10 1 (10 ∷ 2000 ∷ 9000 ∷ []) poison
unfolding fetch_pending find_many count_where tick relay_rows relay_row mark_failed update_many
    compute_backoff
poison-IsFetched = ((λ e. omega arith), ((λ e. omega arith), ((λ e. omega arith), tt)))

quarantine_exact_example :
    (y : OutboxRow) × (find_first (row_is 1) (ticks cfg refuse 10 (10 ∷ 2000 ∷ 9000 ∷ []) poison)
      ≡ some y)
    × (y.attempts ≡ 3)
    × (y.status ≡ failed)
quarantine_exact_example =
    quarantine_exact cfg refuse 10 1 (10 ∷ 2000 ∷ 9000 ∷ []) poison (λ y. refl) poison_one
      poison_found poison-IsFetched refl (omega arith) (omega arith)

abbrev accept : OutboxRow → Option Key
accept row = none

outbox_drains_example : count_where open_row (ticks cfg accept 1 (20 ∷ 30 ∷ []) rows) ≡ 0
unfolding count_where
outbox_drains_example =
    outbox_drains cfg accept (λ row. refl) 1 10 (20 ∷ 30 ∷ []) rows one_row
      ((λ now late. refl), ((λ now late. refl), tt)) (omega arith, (omega arith, tt)) (omega arith)
