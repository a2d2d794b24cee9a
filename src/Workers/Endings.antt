-- ===== src/Workers/Endings.antt =====
-- How a shutdown ends: what the events of src/common/shutdown/graceful-shutdown.ts say of it, beside
-- what the runner does.
use estate_server.Base.{Bool, List, [], arith, false, refl, true, ℕ, ◌∷◌, ◌≡◌, ◌∙◌}
use estate_server.Workers.Shutdown.{
  Phase, Event, Runner, create_shutdown_runner, flush_then_exit, on_signal, on_watchdog, on_success,
  on_error, on_drained, on_closed, on_flushed, step, run, idle, draining, closing, succeeded,
  failed, signal, watchdog, flushed, drained, closed,
}

-- What a list of events says of the shutdown, without its runner: the first signal starts the
-- drain, the first answer of the drain starts the close, and the first answer of the close ends it.
pub data Ending : Type 0 where
  unsettled clean broken : Ending

abbrev pub close_ends : List Event → Ending
close_ends [] = unsettled
close_ends (closed true ∷ es) = clean
close_ends (closed false ∷ es) = broken
close_ends (_ ∷ es) = close_ends es

abbrev pub drain_ends : List Event → Ending
drain_ends [] = unsettled
drain_ends (drained true ∷ es) = close_ends es
drain_ends (drained false ∷ es) = broken
drain_ends (_ ∷ es) = drain_ends es

abbrev pub ending : List Event → Ending
ending [] = unsettled
ending (signal ∷ es) = drain_ends es
ending (_ ∷ es) = ending es

-- What the runner has to show for it.
abbrev pub ending_of : Phase → Ending
ending_of succeeded = clean
ending_of failed = broken
ending_of _ = unsettled

-- A settled flush changes neither.
flushed-phase :
    (codes : List ℕ) (r : Runner)
    → ((on_flushed codes r).phase ≡ r.phase) × ((on_flushed codes r).started ≡ r.started)
flushed-phase [] r = (refl, refl)
flushed-phase (code ∷ codes) r = (refl, refl)

abbrev ends_from : Phase → List Event → Ending
ends_from idle es = ending es
ends_from draining es = drain_ends es
ends_from closing es = close_ends es
ends_from succeeded es = clean
ends_from failed es = broken

abbrev begun : Phase → Bool
begun idle = false
begun _ = true

step-ends :
    (e : Event) (es : List Event) (r : Runner)
    → r.started ≡ begun r.phase
    → (ends_from (step e r).phase es ≡ ends_from r.phase (e ∷ es))
      × ((step e r).started ≡ begun (step e r).phase)
unfolding step on_signal on_watchdog on_drained on_closed on_success on_error flush_then_exit
step-ends signal es r h = ground arith
step-ends watchdog es r h = ground arith
step-ends flushed es r h = ground (arith, flushed-phase r.flushing r)
step-ends (drained true) es r h = ground arith
step-ends (drained false) es r h = ground arith
step-ends (closed true) es r h = ground arith
step-ends (closed false) es r h = ground arith

run-ends :
    (es : List Event) (r : Runner)
    → r.started ≡ begun r.phase
    → ending_of (run es r).phase ≡ ends_from r.phase es
unfolding run
run-ends [] r h = ground arith
run-ends (e ∷ es) r h = let (same, h') = step-ends e es r h in run-ends es (step e r) h' ∙ same

-- The runner has ended as the events say.
pub run-ending : (es : List Event) → ending_of (run es create_shutdown_runner).phase ≡ ending es
unfolding create_shutdown_runner
run-ending es = run-ends es create_shutdown_runner refl
