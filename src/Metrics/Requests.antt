-- ===== src/Metrics/Requests.antt =====
-- src/metrics/infrastructure/http-metrics.interceptor.ts: the label of a route, and the one record of
-- each request, as a state machine whose events are those of the response.
use estate_server.Base.{
  Bool, Key, List, Option, Time, [], false, find_many, if◌then◌else◌, is_empty, not, none, some,
  true, ℕ, ◌++◌, ◌-◌, ◌==◌, ◌∷◌,
}

-- A text as the codes of its characters.
abbrev pub slash : ℕ
slash = b'/'

abbrev pub push : ℕ → List (List ℕ) → List (List ℕ)
push c [] = (c ∷ []) ∷ []
push c (s ∷ ss) = (c ∷ s) ∷ ss

-- `split('/')`
unfoldable pub split : List ℕ → List (List ℕ)
split [] = [] ∷ []
split (c ∷ cs) = let rest = split cs in if c == slash then [] ∷ rest else push c rest

-- `join('/')`
unfoldable pub join : List (List ℕ) → List ℕ
join [] = []
join (s ∷ []) = s
join (s ∷ t ∷ ss) = s ++ (slash ∷ join (t ∷ ss))

-- `segment.length > 0`
abbrev pub is_filled : List ℕ → Bool
is_filled s = not (is_empty s)

-- The segments of the path of a controller and of a handler; `?? ''` where there is no metadata.
abbrev pub or_empty : Option (List ℕ) → List ℕ
or_empty none = []
or_empty (some path) = path

unfoldable pub segments : Option (List ℕ) → Option (List ℕ) → List (List ℕ)
unfolding split
segments controller handler =
    find_many is_filled (split (or_empty controller) ++ split (or_empty handler))

-- ROOT_ROUTE
abbrev pub root_route : List ℕ
root_route = slash ∷ []

abbrev pub route_of : List (List ℕ) → List ℕ
route_of [] = root_route
route_of (s ∷ ss) = slash ∷ join (s ∷ ss)

-- `resolveRoute`
unfoldable pub resolve_route : Option (List ℕ) → Option (List ℕ) → List ℕ
unfolding segments
resolve_route controller handler = route_of (segments controller handler)

-- One `inc` and one `observe`, with the labels and the time since the start.
pub record Sample : Type 0 where
  pub method : Key
  pub route : List ℕ
  pub status : ℕ
  pub elapsed : Time

-- The listeners of a response, and what was recorded for the request.
pub record Recorder : Type 0 where
  pub on_finish : Bool
  pub on_close : Bool
  pub samples : List Sample

-- The response is sent, or its connection is gone, with the status that it has then.
pub data ResponseEvent : Type 0 where
  finish : (status : ℕ) → Time → ResponseEvent
  close : (status : ℕ) → Time → ResponseEvent

-- `intercept`, when the request is subscribed to.
abbrev pub subscribed : Recorder
subscribed = record { on_finish = true; on_close = true; samples = [] }

module _ (method : Key) (route : List ℕ) (started_at : Time) where
  -- `record`
  abbrev pub sample_of : ℕ → Time → Sample
  sample_of status now = record {
    method = method;
    route = route;
    status = status;
    elapsed = now - started_at;
  }

  -- `onFinish` and `onClose`: `once` takes the listener away, and it takes the other one away.
  unfoldable pub on_event : ResponseEvent → Recorder → Recorder
  on_event (finish status now) r =
      if r.on_finish
      then record {
        on_finish = false;
        on_close = false;
        samples = r.samples ++ sample_of status now ∷ [];
      }
      else r
  on_event (close status now) r =
      if r.on_close
      then record {
        on_finish = false;
        on_close = false;
        samples = r.samples ++ sample_of status now ∷ [];
      }
      else r

  unfoldable pub on_events : List ResponseEvent → Recorder → Recorder
  unfolding on_event
  on_events [] r = r
  on_events (e ∷ es) r = on_events es (on_event e r)
