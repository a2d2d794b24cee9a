-- ===== src/Pipeline/Published.antt =====
-- What src/outbox/application/relay-outbox.use-case.ts emits over many ticks.
use estate_server.Base.{Key, List, Option, Time, [], none, refl, ℕ, ◌++◌, ◌∷◌, ◌≡◌}
use estate_server.Events.{DomainEvent}
use estate_server.Outbox.Store.{OutboxRow, Config, mark_published, relay_row, tick}

-- The events that the ticks of a relay hand to the broker, in their order.
unfoldable pub emitted :
    Config → (OutboxRow → Option Key) → ℕ → List Time → List OutboxRow → List DomainEvent
emitted cfg publish batch_size [] rows = []
emitted cfg publish batch_size (now ∷ times) rows =
    let (rows', sent) = tick cfg publish batch_size now rows in
    sent ++ emitted cfg publish batch_size times rows'

module _ (cfg : Config) (publish : OutboxRow → Option Key)
    (accepted : (row : OutboxRow) → publish row ≡ none) where
  pub relay_row-emits :
      (now : Time) (row : OutboxRow) (rows : List OutboxRow) (sent : List DomainEvent)
      → relay_row cfg publish now row (rows, sent)
        ≡ (mark_published now row.id rows, sent ++ row.payload ∷ [])
  unfolding relay_row
  relay_row-emits now row rows sent = rw (relay_row, accepted row) refl
