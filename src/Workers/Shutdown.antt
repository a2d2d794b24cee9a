-- ===== src/Workers/Shutdown.antt =====
-- src/common/shutdown/graceful-shutdown.ts: the runner as a state machine, whose events are the
-- signals, the timer, and the promises that settle.
use estate_server.Base.{Bool, List, [], false, if◌then◌else◌, true, ℕ, ◌++◌, ◌∷◌}

-- How far the runner is: before the first signal, in `opts.drain`, in `app.close`, behind the
-- `try` block, or behind the `catch` block.
pub data Phase : Type 0 where
  idle draining closing succeeded failed : Phase

pub data Event : Type 0 where
  signal watchdog flushed : Event
  drained closed : Bool → Event

-- What Sentry is told.
pub data Capture : Type 0 where
  timeout_warning exception : Capture

-- `armed` tells that the timer of the watchdog is set, `flushing` are the codes of the exits that
-- wait for Sentry's flush, `exits` those of the calls of `exit`.
pub record Runner : Type 0 where
  pub started : Bool
  pub timed_out : Bool
  pub phase : Phase
  pub armed : Bool
  pub captures : List Capture
  pub flushing : List ℕ
  pub exits : List ℕ

-- `createShutdownRunner`
unfoldable pub create_shutdown_runner : Runner
create_shutdown_runner = record {
  started = false;
  timed_out = false;
  phase = idle;
  armed = false;
  captures = [];
  flushing = [];
  exits = [];
}

unfoldable pub flush_then_exit : ℕ → Runner → Runner
flush_then_exit code r = record r { flushing = r.flushing ++ code ∷ [] }

abbrev pub exit : ℕ → Runner → Runner
exit code r = record r { exits = r.exits ++ code ∷ [] }

abbrev pub capture : Capture → Runner → Runner
capture c r = record r { captures = r.captures ++ c ∷ [] }

-- A first signal sets the watchdog and starts the drain.
unfoldable pub on_signal : Runner → Runner
on_signal r = if r.started then r else record r { started = true; armed = true; phase = draining }

-- The callback of `setTimeout`.
unfoldable pub on_watchdog : Runner → Runner
unfolding flush_then_exit
on_watchdog r =
    if r.armed
    then flush_then_exit 1 (capture timeout_warning (record r { timed_out = true; armed = false }))
    else r

-- The end of the `try` block.
unfoldable pub on_success : Runner → Runner
on_success r =
    let done = record r { armed = false; phase = succeeded } in
    if r.timed_out then done else exit 0 done

-- The `catch` block.
unfoldable pub on_error : Runner → Runner
unfolding flush_then_exit
on_error r =
    let done = record r { armed = false; phase = failed } in
    if r.timed_out then done else flush_then_exit 1 (capture exception done)

unfoldable pub on_drained : Bool → Phase → Runner → Runner
unfolding on_error
on_drained fine draining r = if fine then record r { phase = closing } else on_error r
on_drained fine _ r = r

unfoldable pub on_closed : Bool → Phase → Runner → Runner
unfolding on_error on_success
on_closed fine closing r = if fine then on_success r else on_error r
on_closed fine _ r = r

-- The flush settles, either way.
abbrev pub on_flushed : List ℕ → Runner → Runner
on_flushed [] r = r
on_flushed (code ∷ codes) r = exit code (record r { flushing = codes })

-- An event that the runner does not wait for changes nothing.
unfoldable pub step : Event → Runner → Runner
unfolding on_signal on_watchdog on_drained on_closed
step signal r = on_signal r
step watchdog r = on_watchdog r
step (drained fine) r = on_drained fine r.phase r
step (closed fine) r = on_closed fine r.phase r
step flushed r = on_flushed r.flushing r

unfoldable pub run : List Event → Runner → Runner
run [] r = r
run (e ∷ es) r = run es (step e r)
