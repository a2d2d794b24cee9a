-- ===== src/Workers/HttpDrain.antt =====
-- src/common/shutdown/http-drain.ts: the drain of an HTTP server as a state machine, and the time
-- limits of src/common/shutdown/graceful-shutdown.ts that main.ts gives it.
use estate_server.Base.{
  Bool, List, Option, Time, [], arith, false, if◌then◌else◌, inl, is_some, none, refl, some, true,
  ℕ, ◌+◌, ◌-◌, ◌==◌, ◌∷◌, ◌≡◌, ◌≤◌, ◌⊎◌,
}
use estate_server.Base.Int.{ℤ, pos, negsuc}

-- DEFAULT_SHUTDOWN_TIMEOUT_MS and FORCE_CLOSE_MARGIN_MS
abbrev pub default_shutdown_timeout_ms : Time
default_shutdown_timeout_ms = 10000

abbrev pub force_close_margin_ms : Time
force_close_margin_ms = 1000

-- `getShutdownTimeoutMs` of the variable, of the integers; `none` where it is missing or no number.
unfoldable pub get_shutdown_timeout_ms : Option ℤ → ℤ
get_shutdown_timeout_ms none = pos default_shutdown_timeout_ms
get_shutdown_timeout_ms (some (pos n)) = pos (if n == 0 then default_shutdown_timeout_ms else n)
get_shutdown_timeout_ms (some (negsuc n)) = negsuc n

-- `Math.max(0, forceCloseAfterMs)` of the limit less the margin.
unfoldable pub force_after : ℤ → Time
force_after (pos n) = n - force_close_margin_ms
force_after (negsuc n) = 0

-- The timer fires, or the callback of `server.close` is called, with an error or without.
pub data DrainEvent : Type 0 where
  fires : DrainEvent
  closes : Bool → DrainEvent

-- `armed` tells that the timer is set, `forced` how often all connections were closed by force, and
-- `settled` whether the promise has settled, and well.
pub record Drain : Type 0 where
  pub armed : Bool
  pub forced : ℕ
  pub settled : Option Bool

-- `drainHttpServer`, up to the `await`.
unfoldable pub drain_http_server : Drain
drain_http_server = record { armed = true; forced = 0; settled = none }

unfoldable pub drain_step : DrainEvent → Drain → Drain
drain_step fires d = if d.armed then record d { armed = false; forced = d.forced + 1 } else d
drain_step (closes fine) d =
    if is_some d.settled then d else record d { armed = false; settled = some fine }

unfoldable pub drain_run : List DrainEvent → Drain → Drain
drain_run [] d = d
drain_run (e ∷ es) d = drain_run es (drain_step e d)

-- What holds of a drain between two events: the timer is cleared once the promise has settled, and
-- has fired at most once.
record IsOrderly (d : Drain) : Type 0 where
  cleared : (d.settled ≡ none) ⊎ (d.armed ≡ false)
  fired : d.forced + (if d.armed then 1 else 0) ≤ 1

drain_step-IsOrderly : (e : DrainEvent) (d : Drain) → IsOrderly d → IsOrderly (drain_step e d)
unfolding drain_step
drain_step-IsOrderly fires d h = ground arith
drain_step-IsOrderly (closes fine) d h = ground arith

drain_run-IsOrderly : (es : List DrainEvent) (d : Drain) → IsOrderly d → IsOrderly (drain_run es d)
unfolding drain_run
drain_run-IsOrderly [] d h = h
drain_run-IsOrderly (e ∷ es) d h =
    drain_run-IsOrderly es (drain_step e d) (drain_step-IsOrderly e d h)

-- However the events come, the connections are closed by force at most once, and once the promise
-- has settled the timer is not set any more.
pub forced_once :
    (es : List DrainEvent)
    → let d = drain_run es drain_http_server in
      (d.forced ≤ 1) × ((d.settled ≡ none) ⊎ (d.armed ≡ false))
unfolding drain_http_server
forced_once es = ground (
  arith,
  drain_run-IsOrderly es drain_http_server (record { cleared = inl refl; fired = omega arith }),
)
