-- ===== src/Metrics/Routes.antt =====
-- What http-metrics.interceptor.ts records: once for each request, under the pattern of its route.
use estate_server.Base.{
  All, All-map, All-append, Bool-cases, Key, List, Option, Time, [], ap, false, find_many,
  find_many-All, find_many-append_other, inl, inr, map, none, refl, some, take, true, ℕ, ◌++◌, ◌==◌,
  ◌∙◌, ◌∷◌, ◌≡◌,
}
use estate_server.Metrics.Requests.{
  ResponseEvent, Sample, close, finish, is_filled, join, on_event, on_events, or_empty, push,
  resolve_route, route_of, sample_of, segments, slash, split, subscribed,
}

-- A segment has no slash.
abbrev IsPlain : List ℕ → Type 0
IsPlain s = All (λ (c : ℕ). (c == slash) ≡ false) s

push-IsPlain :
    (c : ℕ) (ss : List (List ℕ)) → (c == slash) ≡ false → All IsPlain ss → All IsPlain (push c ss)
push-IsPlain c [] h a = ((h, tt), tt)
push-IsPlain c (s ∷ ss) h (p, a) = ((h, p), a)

split-IsPlain : (cs : List ℕ) → All IsPlain (split cs)
unfolding split
split-IsPlain [] = (tt, tt)
split-IsPlain (c ∷ cs) = elim (Bool-cases (c == slash)) [
  | inl cut ↦ rw (split, cut) (tt, split-IsPlain cs)
  | inr plain ↦ rw (split, plain) (push-IsPlain c (split cs) plain (split-IsPlain cs))
]

split-plain : (s : List ℕ) → IsPlain s → split s ≡ s ∷ []
unfolding split
split-plain [] h = refl
split-plain (c ∷ s) (h, hs) = rw (split, h, split-plain s hs) refl

split-segment : (s cs : List ℕ) → IsPlain s → split (s ++ (slash ∷ cs)) ≡ s ∷ split cs
unfolding split
split-segment [] cs h = refl
split-segment (c ∷ s) cs (h, hs) = rw (split, h, split-segment s cs hs) refl

split-join :
    (s : List ℕ) (ss : List (List ℕ)) → All IsPlain (s ∷ ss) → split (join (s ∷ ss)) ≡ s ∷ ss
unfolding join
split-join s [] (p, a) = split-plain s p
split-join s (t ∷ ss) (p, a) =
    split-segment s (join (t ∷ ss)) p ∙ ap (λ rest. s ∷ rest) (split-join t ss a)

filled-all : (ss : List (List ℕ)) → All (λ s. is_filled s ≡ true) ss → find_many is_filled ss ≡ ss
unfolding find_many
filled-all [] h = refl
filled-all (s ∷ ss) (f, h) = rw (f, filled-all ss h) refl

-- The segments of a route that was put together are those it was put together from.
route_of-segments :
    (ss : List (List ℕ))
    → All IsPlain ss
    → All (λ s. is_filled s ≡ true) ss
    → segments (some (route_of ss)) none ≡ ss
unfolding segments split find_many
route_of-segments [] p f = refl
route_of-segments (s ∷ ss) p f =
    ap (λ segs. find_many is_filled (segs ++ [] ∷ [])) (split-join s ss p)
    ∙ find_many-append_other is_filled (s ∷ ss) [] refl
    ∙ filled-all (s ∷ ss) f

-- The label of a request is a slash before segments that its controller and its handler are made of:
-- taken apart again, it has the same segments, whatever slashes the two paths begin, end or are
-- filled with.
pub route-segments :
    (controller handler : Option (List ℕ))
    → segments (some (resolve_route controller handler)) none ≡ segments controller handler
unfolding resolve_route segments
route-segments controller handler =
    let parts = split (or_empty controller) ++ split (or_empty handler) in
    let both = find_many-All IsPlain is_filled parts (
      All-append IsPlain (split (or_empty controller)) (split (or_empty handler))
        (split-IsPlain (or_empty controller)) (split-IsPlain (or_empty handler))) in
    route_of-segments (find_many is_filled parts)
      (All-map _ _ (find_many is_filled parts) (λ s h. h.0) both)
      (All-map _ _ (find_many is_filled parts) (λ s h. h.1) both)

module _ (method : Key) (route : List ℕ) (started_at : Time) where
  -- What an event would have recorded.
  abbrev pub seen : ResponseEvent → Sample
  seen (finish status now) = sample_of method route started_at status now
  seen (close status now) = sample_of method route started_at status now

  -- Without its listeners nothing is recorded any more.
  done-on_events :
      (es : List ResponseEvent) (samples : List Sample)
      → on_events method route started_at es
          (record { on_finish = false; on_close = false; samples = samples })
        ≡ record { on_finish = false; on_close = false; samples = samples }
  unfolding on_events on_event
  done-on_events [] samples = refl
  done-on_events (finish status now ∷ es) samples = done-on_events es samples
  done-on_events (close status now ∷ es) samples = done-on_events es samples

  -- Whatever the order in which a response is sent and its connection is closed, and however
  -- often, the request is recorded once, at the first of these events with the status that the
  -- response has then, and not at all before.
  pub recorded_once :
      (es : List ResponseEvent)
      → (on_events method route started_at es subscribed).samples ≡ take 1 (map seen es)
  unfolding on_events on_event
  recorded_once [] = refl
  recorded_once (finish status now ∷ es) = ap (λ r. r.samples) (done-on_events es _)
  recorded_once (close status now ∷ es) = ap (λ r. r.samples) (done-on_events es _)
