-- ===== src/Workers/Exits.antt =====
-- The exits of a shutdown: src/common/shutdown/graceful-shutdown.ts.
use estate_server.Base.{
  Bool, List, [], arith, false, length, not, refl, true, ℕ, ◌&&◌, ◌∷◌, ◌≡◌, ◌⊎◌,
}
use estate_server.Workers.Shutdown.{
  Phase, Event, Capture, Runner, create_shutdown_runner, flush_then_exit, on_signal, on_watchdog,
  on_success, on_error, on_drained, on_closed, on_flushed, step, run, idle, draining, closing,
  succeeded, failed, signal, watchdog, flushed, drained, closed, timeout_warning, exception,
}
use estate_server.Workers.Endings.{clean, broken, ending, run-ending}

-- The codes that a runner exits with, and what it reports, by how it went.
abbrev outcome : Bool → Phase → List ℕ
outcome true _ = 1 ∷ []
outcome false succeeded = 0 ∷ []
outcome false failed = 1 ∷ []
outcome false _ = []

abbrev reported : Bool → Phase → List Capture
reported true _ = timeout_warning ∷ []
reported false failed = exception ∷ []
reported false _ = []

abbrev is_waiting : Phase → Bool
is_waiting draining = true
is_waiting closing = true
is_waiting _ = false

-- Between two events.
record IsCoherent (r : Runner) : Type 0 where
  codes :
      ((r.exits ≡ outcome r.timed_out r.phase) × (r.flushing ≡ []))
      ⊎ ((r.exits ≡ []) × (r.flushing ≡ outcome r.timed_out r.phase))
  told : r.captures ≡ reported r.timed_out r.phase
  armed : r.armed ≡ is_waiting r.phase && not r.timed_out
  fresh : (r.started ≡ true) ⊎ ((r.phase ≡ idle) × (r.timed_out ≡ false))
  busy :
      (r.started ≡ false)
      ⊎ ((is_waiting r.phase ≡ true) ⊎ ((r.phase ≡ succeeded) ⊎ (r.phase ≡ failed)))

create_shutdown_runner-IsCoherent : IsCoherent create_shutdown_runner
unfolding create_shutdown_runner
create_shutdown_runner-IsCoherent = ground arith

on_signal-IsCoherent : (r : Runner) → IsCoherent r → IsCoherent (on_signal r)
unfolding on_signal
on_signal-IsCoherent r h = ground arith

on_watchdog-IsCoherent : (r : Runner) → IsCoherent r → IsCoherent (on_watchdog r)
unfolding on_watchdog flush_then_exit
on_watchdog-IsCoherent r h = ground arith

on_error-IsCoherent :
    (r : Runner) → is_waiting r.phase ≡ true → IsCoherent r → IsCoherent (on_error r)
unfolding on_error flush_then_exit
on_error-IsCoherent r w h = ground arith

on_success-IsCoherent :
    (r : Runner) → is_waiting r.phase ≡ true → IsCoherent r → IsCoherent (on_success r)
unfolding on_success
on_success-IsCoherent r w h = ground arith

on_drained-IsCoherent :
    (fine : Bool) (p : Phase) (r : Runner)
    → r.phase ≡ p
    → IsCoherent r
    → IsCoherent (on_drained fine p r)
unfolding on_drained
on_drained-IsCoherent true draining r e h = ground arith
on_drained-IsCoherent false draining r e h = on_error-IsCoherent r (ground arith) h
on_drained-IsCoherent fine idle r e h = h
on_drained-IsCoherent fine closing r e h = h
on_drained-IsCoherent fine succeeded r e h = h
on_drained-IsCoherent fine failed r e h = h

on_closed-IsCoherent :
    (fine : Bool) (p : Phase) (r : Runner)
    → r.phase ≡ p
    → IsCoherent r
    → IsCoherent (on_closed fine p r)
unfolding on_closed
on_closed-IsCoherent true closing r e h = on_success-IsCoherent r (ground arith) h
on_closed-IsCoherent false closing r e h = on_error-IsCoherent r (ground arith) h
on_closed-IsCoherent fine idle r e h = h
on_closed-IsCoherent fine draining r e h = h
on_closed-IsCoherent fine succeeded r e h = h
on_closed-IsCoherent fine failed r e h = h

on_flushed-IsCoherent : (r : Runner) → IsCoherent r → IsCoherent (on_flushed r.flushing r)
on_flushed-IsCoherent r h = ground arith

step-IsCoherent : (e : Event) (r : Runner) → IsCoherent r → IsCoherent (step e r)
unfolding step
step-IsCoherent signal r = on_signal-IsCoherent r
step-IsCoherent watchdog r = on_watchdog-IsCoherent r
step-IsCoherent flushed r = on_flushed-IsCoherent r
step-IsCoherent (drained fine) r = on_drained-IsCoherent fine r.phase r refl
step-IsCoherent (closed fine) r = on_closed-IsCoherent fine r.phase r refl

run-IsCoherent : (es : List Event) (r : Runner) → IsCoherent r → IsCoherent (run es r)
unfolding run
run-IsCoherent [] r h = h
run-IsCoherent (e ∷ es) r h = run-IsCoherent es (step e r) (step-IsCoherent e r h)

-- After any list of events from the start, the runner has not exited; or it has exited once
-- with 0, then by the events the drain and after it the close succeeded, the watchdog did not
-- fire and nothing was reported to Sentry; or it has exited once with 1, then Sentry was told one
-- thing, and by the events the drain or the close failed, or the watchdog fired.
pub exits_once :
    (es : List Event)
    → let r = run es create_shutdown_runner in
      (r.exits ≡ [])
      ⊎ (((r.exits ≡ 0 ∷ []) × (ending es ≡ clean) × (r.timed_out ≡ false) × (r.captures ≡ []))
          ⊎ ((r.exits ≡ 1 ∷ [])
              × (length r.captures ≡ 1)
              × ((ending es ≡ broken) ⊎ (r.timed_out ≡ true))))
exits_once es =
    let settled = run-ending es in
    ground
      (arith, run-IsCoherent es create_shutdown_runner create_shutdown_runner-IsCoherent, settled)

-- After any list of events from the start, if the shutdown has started then it has exited
-- exactly once after the timer of the watchdog and a settled flush, if neither the drain nor
-- the close settles.
pub watchdog_ends :
    (es : List Event)
    → (run es create_shutdown_runner).started ≡ true
    → length (step flushed (step watchdog (run es create_shutdown_runner))).exits ≡ 1
unfolding step on_watchdog flush_then_exit
watchdog_ends es e =
    ground (arith, run-IsCoherent es create_shutdown_runner create_shutdown_runner-IsCoherent)
