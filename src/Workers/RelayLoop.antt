-- ===== src/Workers/RelayLoop.antt =====
-- src/workers/relay-loop.ts: the polling loop as a state machine, whose events are the calls, the
-- timer, and the tick that settles.
use estate_server.Base.{
  Bool, List, [], false, if◌then◌else◌, not, true, ℕ, ◌+◌, ◌-◌, ◌==◌, ◌||◌, ◌∷◌,
}

-- `fires` is the timer; `settles` the end of the tick that runs, well or not.
pub data LoopEvent : Type 0 where
  start fires stop : LoopEvent
  settles : Bool → LoopEvent

-- `timer` and `in_flight` tell that the fields are not null; `running` counts the ticks that have
-- begun and not settled, `begun` all that have begun, `stopping` the calls of `stop` that wait,
-- `stopped` those that have returned, and `errors` the failures that were logged.
pub record RelayLoop : Type 0 where
  pub timer : Bool
  pub in_flight : Bool
  pub running : ℕ
  pub begun : ℕ
  pub stopping : ℕ
  pub stopped : ℕ
  pub errors : ℕ

unfoldable pub relay_loop : RelayLoop
relay_loop = record {
  timer = false;
  in_flight = false;
  running = 0;
  begun = 0;
  stopping = 0;
  stopped = 0;
  errors = 0;
}

-- The callback of `setInterval`.
unfoldable pub on_interval : RelayLoop → RelayLoop
on_interval l =
    if not l.timer || l.in_flight
    then l
    else record l { in_flight = true; running = l.running + 1; begun = l.begun + 1 }

-- `catch` and `finally` of a tick; then the calls of `stop` that wait for it return.
unfoldable pub on_settled : Bool → RelayLoop → RelayLoop
on_settled fine l = if l.running == 0 then l else record l {
  in_flight = false;
  running = l.running - 1;
  errors = if fine then l.errors else l.errors + 1;
  stopped = l.stopped + l.stopping;
  stopping = 0;
}

-- `stop`
unfoldable pub on_stop : RelayLoop → RelayLoop
on_stop l =
    let cleared = record l { timer = false } in
    if l.in_flight
    then record cleared { stopping = l.stopping + 1 }
    else record cleared { stopped = l.stopped + 1 }

unfoldable pub loop_step : LoopEvent → RelayLoop → RelayLoop
loop_step start l = record l { timer = true }
loop_step fires l = on_interval l
loop_step stop l = on_stop l
loop_step (settles fine) l = on_settled fine l

unfoldable pub loop_run : List LoopEvent → RelayLoop → RelayLoop
loop_run [] l = l
loop_run (e ∷ es) l = loop_run es (loop_step e l)
