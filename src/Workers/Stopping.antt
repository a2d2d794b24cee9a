-- ===== src/Workers/Stopping.antt =====
-- That the polling loop runs one tick at a time and stops: src/workers/relay-loop.ts.
use estate_server.Base.{
  All, Bool, List, [], arith, false, if◌then◌else◌, true, ◌<◌, ◌∷◌, ◌≡◌, ◌≤◌, ◌⊎◌,
}
use estate_server.Workers.RelayLoop.{
  LoopEvent, RelayLoop, start, fires, stop, settles, relay_loop, on_interval, on_settled, on_stop,
  loop_step, loop_run,
}

-- Between two events.
record IsSteady (l : RelayLoop) : Type 0 where
  counted : l.running ≡ (if l.in_flight then 1 else 0)
  waited : (l.stopping ≡ 0) ⊎ (l.in_flight ≡ true)

loop_step-IsSteady : (e : LoopEvent) (l : RelayLoop) → IsSteady l → IsSteady (loop_step e l)
unfolding loop_step on_interval on_settled on_stop
loop_step-IsSteady start l h = ground arith
loop_step-IsSteady fires l h = ground arith
loop_step-IsSteady stop l h = ground arith
loop_step-IsSteady (settles fine) l h = ground arith

loop_run-IsSteady : (es : List LoopEvent) (l : RelayLoop) → IsSteady l → IsSteady (loop_run es l)
unfolding loop_run
loop_run-IsSteady [] l h = h
loop_run-IsSteady (e ∷ es) l h = loop_run-IsSteady es (loop_step e l) (loop_step-IsSteady e l h)

relay_loop-IsSteady : IsSteady relay_loop
unfolding relay_loop
relay_loop-IsSteady = ground arith

-- After any list of events from the start, at most one tick runs, and a call of `stop` waits only
-- while one does.
one_tick :
    (es : List LoopEvent)
    → let l = loop_run es relay_loop in (l.running ≤ 1) × ((l.stopping ≡ 0) ⊎ (l.running ≡ 1))
one_tick es = ground (arith, loop_run-IsSteady es relay_loop relay_loop-IsSteady)

abbrev pub is_start : LoopEvent → Bool
is_start start = true
is_start _ = false

-- Since a call of `stop` in the state `was`, without a `start`.
record IsStopped (was l : RelayLoop) : Type 0 where
  timer : l.timer ≡ false
  begun : l.begun ≡ was.begun
  pending : (0 < l.stopping) ⊎ (l.running ≡ 0)
  steady : IsSteady l

loop_step-IsStopped :
    (was : RelayLoop) (e : LoopEvent) (l : RelayLoop)
    → is_start e ≡ false
    → IsStopped was l
    → IsStopped was (loop_step e l)
unfolding loop_step on_interval on_settled on_stop
loop_step-IsStopped was start l n h = ground arith
loop_step-IsStopped was fires l n h = ground arith
loop_step-IsStopped was stop l n h = ground arith
loop_step-IsStopped was (settles fine) l n h = ground arith

loop_run-IsStopped :
    (was : RelayLoop) (es : List LoopEvent) (l : RelayLoop)
    → All (λ e. is_start e ≡ false) es
    → IsStopped was l
    → IsStopped was (loop_run es l)
unfolding loop_run
loop_run-IsStopped was [] l n h = h
loop_run-IsStopped was (e ∷ es) l (n, ns) h =
    loop_run-IsStopped was es (loop_step e l) ns (loop_step-IsStopped was e l n h)

on_stop-IsStopped : (l : RelayLoop) → IsSteady l → IsStopped l (on_stop l)
unfolding on_stop
on_stop-IsStopped l h = ground arith

-- After any list of events from the start, a call of `stop`, and any further list of events
-- without a `start`, no tick has begun since the call, and no tick runs or a call of `stop`
-- still waits.
pub stop_drains :
    (es later : List LoopEvent)
    → All (λ e. is_start e ≡ false) later
    → let was = loop_run es relay_loop in
      let l = loop_run later (on_stop was) in
      (l.begun ≡ was.begun) × ((l.running ≡ 0) ⊎ (0 < l.stopping))
stop_drains es later quiet =
    let was = loop_run es relay_loop in
    ground (
      arith,
      loop_run-IsStopped was later (on_stop was) quiet
          (on_stop-IsStopped was (loop_run-IsSteady es relay_loop relay_loop-IsSteady)),
    )
