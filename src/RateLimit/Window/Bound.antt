-- ===== src/RateLimit/Window/Bound.antt =====
-- Sequences of requests against the guard of src/common/rate-limit, and the header Retry-After.
use estate_server.Base.{
  Bool, Bool-cases, List, Time, [], arith, false, if◌then◌else◌, inl, inr, is_none, leb, ltb, not,
  refl, true, ℕ, ◌%◌, ◌&&◌, ◌+◌, ◌-◌, ◌/◌, ◌<◌, ◌||◌, ◌∷◌, ◌≡◌, ◌≤◌,
}
use estate_server.RateLimit.Window.{
  LimitKey, same_key, Counters, count_of, hit, Verdict, pass, retry_after, check_all, LimitConfig,
  Request, window_of, checks_of, can_activate, is_write,
}

same_key_trans : (a b c : LimitKey) → same_key a b ≡ true → same_key a c ≡ same_key b c
same_key_trans a b c h = ground arith

same_key_right : (a b c : LimitKey) → same_key b c ≡ true → same_key a b ≡ same_key a c
same_key_right a b c h = ground arith

count_of-hit :
    (j k : LimitKey) (cs : Counters)
    → count_of j (hit k cs) ≡ (if same_key k j then count_of j cs + 1 else count_of j cs)
unfolding count_of hit
count_of-hit j k [] = ground arith
count_of-hit j k ((i, n) ∷ cs) =
    ground (arith, count_of-hit j k cs, same_key_trans i k j, same_key_trans k i j)

count_of-same :
    (j k : LimitKey) (cs : Counters) → same_key j k ≡ true → count_of j cs ≡ count_of k cs
unfolding count_of
count_of-same j k [] h = refl
count_of-same j k ((i, n) ∷ cs) h =
    let ih = count_of-same j k cs h in
    let e : same_key i j ≡ same_key i k = same_key_right i j k h in rw e (rw ih)

-- Whether the checks count a request under `k`, with a limit of `m` at most.
abbrev pub charged : LimitKey → ℕ → List (LimitKey × ℕ) → Bool
charged k m [] = false
charged k m ((j, n) ∷ checks) = same_key j k && leb n m || charged k m checks

module _ (now_sec window_sec : ℕ) (k : LimitKey) (m : ℕ) where
  check_all_mono :
      (checks : List (LimitKey × ℕ)) (cs : Counters)
      → count_of k cs ≤ count_of k (check_all now_sec window_sec checks cs).1
  unfolding check_all
  check_all_mono [] cs = omega arith
  check_all_mono ((j, n) ∷ checks) cs =
      let ih = check_all_mono checks (hit j cs) in let e = count_of-hit k j cs in ground arith

  check_all-charged :
      (checks : List (LimitKey × ℕ)) (cs : Counters)
      → (check_all now_sec window_sec checks cs).0 ≡ pass
      → charged k m checks ≡ true
      → (count_of k cs + 1 ≤ m)
        × (count_of k cs + 1 ≤ count_of k (check_all now_sec window_sec checks cs).1)
  unfolding check_all
  check_all-charged [] cs p h = cc
  check_all-charged ((j, n) ∷ checks) cs p h =
      let ih = check_all-charged checks (hit j cs) in
      let e = count_of-hit k j cs in
      let up = check_all_mono checks (hit j cs) in
      let same = count_of-same j k (hit j cs) in
      elim (Bool-cases (ltb n (count_of j (hit j cs)))) [
        | inl over ↦
            let refused : retry_after (window_sec - now_sec % window_sec) ≡ pass = rw over at p in
            cc
        | inr under ↦ elim (Bool-cases (same_key j k && leb n m)) [
          | inl mine ↦
              let here = same (ground arith) in
              let cap : count_of k cs + 1 ≤ m = ground arith in (cap, rw under (ground arith))
          | inr other ↦
              let (cap, more) = ih (rw under at p) (ground arith) in
              let kept : count_of k cs ≤ count_of k (hit j cs) = ground arith in
              (omega arith, rw under (omega arith))
        ]
      ]

module _ (cfg : LimitConfig) (k : LimitKey) (m : ℕ) where
  -- A request that the guard limits under `k`: it is not exempt, and `k` is among its checks.
  abbrev pub is_limited : Time → Request → Bool
  is_limited now req =
      not req.skip
      && not (is_none req.override && not (is_write req.method))
      && charged k m (checks_of cfg now req)

  abbrev passed : Verdict → ℕ
  passed pass = 1
  passed (retry_after n) = 0

  -- The requests limited under `k` that pass, of a sequence of requests each with its clock.
  pub passes : List (Time × Time × Request) → Counters → ℕ
  passes [] cs = 0
  passes ((now, later, req) ∷ reqs) cs =
      let (v, cs') = can_activate cfg now later req cs in
      (if is_limited now req then passed v else 0) + passes reqs cs'

  step_mono :
      (now later : Time) (req : Request) (cs : Counters)
      → count_of k cs ≤ count_of k (can_activate cfg now later req cs).1
  unfolding can_activate
  step_mono now later req cs =
      ground
        (arith, check_all_mono (later / 1000) (window_of cfg req) k m (checks_of cfg now req) cs)

  step_limited :
      (now later : Time) (req : Request) (cs : Counters)
      → is_limited now req ≡ true
      → (can_activate cfg now later req cs).0 ≡ pass
      → (count_of k cs + 1 ≤ m)
        × (count_of k cs + 1 ≤ count_of k (can_activate cfg now later req cs).1)
  unfolding can_activate
  step_limited now later req cs h p =
      let l = check_all-charged (later / 1000) (window_of cfg req) k m (checks_of cfg now req) cs in
      ground (arith, l)

  -- Of any sequence of requests, however it is spread over routes, no more pass that are
  -- charged to the key `k` with a limit of at most `m` than `m` less the count that `k` has
  -- at the start.
  pub window_limit :
      (reqs : List (Time × Time × Request)) (cs : Counters) → passes reqs cs ≤ m - count_of k cs
  unfolding passes
  window_limit [] cs = omega arith
  window_limit ((now, later, req) ∷ reqs) cs =
      let ih = window_limit reqs (can_activate cfg now later req cs).1 in
      let mono = step_mono now later req cs in
      let limited = step_limited now later req cs in ground (arith, ih, mono, limited)

next_window :
    (t w : ℕ) → 0 < w → (1 ≤ w - t % w) × (w - t % w ≤ w) × ((t + (w - t % w)) / w ≡ t / w + 1)
next_window t w h = (grind arith, omega arith, grind arith)

check_all-retry :
    (t w n : ℕ) (checks : List (LimitKey × ℕ)) (cs : Counters)
    → (check_all t w checks cs).0 ≡ retry_after n
    → n ≡ w - t % w
unfolding check_all
check_all-retry t w n [] cs e = cc
check_all-retry t w n ((j, m) ∷ checks) cs e = elim (Bool-cases (ltb m (count_of j (hit j cs)))) [
  | inl over ↦ let found : retry_after (w - t % w) ≡ retry_after n = rw over at e in cc
  | inr under ↦ check_all-retry t w n checks (hit j cs) (rw under at e)
]

-- Where the window is not zero and a request is refused, the header Retry-After is at least one
-- second and at most a window, and a client that waits so long, from the clock that the header
-- was computed from, is in the next window.
pub retry_after_next_window :
    (cfg : LimitConfig) (now later : Time) (req : Request) (cs : Counters) (n : ℕ)
    → 0 < window_of cfg req
    → (can_activate cfg now later req cs).0 ≡ retry_after n
    → (1 ≤ n)
      × (n ≤ window_of cfg req)
      × ((later / 1000 + n) / window_of cfg req ≡ later / 1000 / window_of cfg req + 1)
unfolding can_activate
retry_after_next_window cfg now later req cs n h e =
    let w = window_of cfg req in
    let t = later / 1000 in
    let r = check_all-retry t w n (checks_of cfg now req) cs in
    let e' : n ≡ w - t % w = ground (arith, r) in rw e' (next_window t w h)
