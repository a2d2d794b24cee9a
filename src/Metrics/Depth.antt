-- ===== src/Metrics/Depth.antt =====
-- src/metrics/infrastructure/outbox-depth.collector.ts: how many events wait in the outbox, and how
-- many were given up.
use estate_server.Base.{
  All, Bool, Key, List, Option, Time, ap, count_where, false, length, none, some, true, ℕ, ◌*◌, ◌≡◌,
  ◌≤◌,
}
use estate_server.Outbox.Store.{OutboxRow, Config, failed, row_is}
use estate_server.Outbox.Quarantine.{ticks}
use estate_server.Outbox.Draining.{open_row, IsDueFrom, outbox_drains}

abbrev pub failed_row : OutboxRow → Bool
failed_row row = elim row.status [ failed ↦ true | _ ↦ false ]

-- The two gauges; one that was removed shows nothing.
pub record Gauges : Type 0 where
  pub pending : Option ℕ
  pub failed : Option ℕ

-- `collect`; `none` is a database that fails or is too late.
unfoldable pub collect : Option (List OutboxRow) → Gauges
collect none = record { pending = none; failed = none }
collect (some rows) = record {
  pending = some (count_where open_row rows);
  failed = some (count_where failed_row rows);
}

-- Once the ticks of a relay have had room for what was pending, and the broker has accepted it, a
-- scrape shows an empty outbox.
pub collect-drained :
    (cfg : Config) (publish : OutboxRow → Option Key)
    → ((row : OutboxRow) → publish row ≡ none)
    → (batch_size : ℕ) (from : Time) (times : List Time) (rows : List OutboxRow)
    → ((k : Key) → count_where (row_is k) rows ≤ 1)
    → All (IsDueFrom from) rows
    → All (λ now. from ≤ now) times
    → count_where open_row rows ≤ length times * batch_size
    → (collect (some (ticks cfg publish batch_size times rows))).pending ≡ some 0
unfolding collect
collect-drained cfg publish accepted batch_size from times rows unique due late enough =
    ap some (outbox_drains cfg publish accepted batch_size from times rows unique due late enough)
