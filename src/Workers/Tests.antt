-- ===== src/Workers/Tests.antt =====
-- Runs of the shutdown and of the polling loop of src/workers.
use estate_server.Base.{List, [], false, length, refl, true, ◌<◌, ◌∷◌, ◌≡◌, ◌⊎◌}
use estate_server.Workers.Shutdown.{
  Event, create_shutdown_runner, step, run, on_signal, on_watchdog, flush_then_exit, on_drained,
  on_closed, on_success, signal, watchdog, flushed, drained, closed,
}
use estate_server.Workers.Endings.{ending, clean, broken}
use estate_server.Workers.Exits.{exits_once, watchdog_ends}
use estate_server.Workers.RelayLoop.{
  LoopEvent, relay_loop, loop_run, on_stop, start, fires, settles,
}
use estate_server.Workers.Stopping.{stop_drains}

-- The drain succeeds after the watchdog.
abbrev late : List Event
late = signal ∷ watchdog ∷ drained true ∷ closed true ∷ flushed ∷ []

exits_once_example :
    let r = run late create_shutdown_runner in
    (r.exits ≡ [])
    ⊎ (((r.exits ≡ 0 ∷ []) × (ending late ≡ clean) × (r.timed_out ≡ false) × (r.captures ≡ []))
        ⊎ ((r.exits ≡ 1 ∷ [])
            × (length r.captures ≡ 1)
            × ((ending late ≡ broken) ⊎ (r.timed_out ≡ true))))
exits_once_example = exits_once late

late_code : (run late create_shutdown_runner).exits ≡ 1 ∷ []
unfolding run step create_shutdown_runner on_signal on_watchdog flush_then_exit on_drained on_closed
    on_success
late_code = refl

watchdog_ends_example :
    length (step flushed (step watchdog (run (signal ∷ []) create_shutdown_runner))).exits ≡ 1
unfolding run step create_shutdown_runner on_signal
watchdog_ends_example = watchdog_ends (signal ∷ []) refl

abbrev polling : List LoopEvent
polling = start ∷ fires ∷ fires ∷ []

abbrev after_stop : List LoopEvent
after_stop = fires ∷ settles true ∷ fires ∷ []

stop_drains_example :
    let was = loop_run polling relay_loop in
    let l = loop_run after_stop (on_stop was) in
    (l.begun ≡ was.begun) × ((l.running ≡ 0) ⊎ (0 < l.stopping))
stop_drains_example = stop_drains polling after_stop (refl, (refl, (refl, tt)))
