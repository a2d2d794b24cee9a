-- ===== src/RateLimit/Window.antt =====
-- src/common/rate-limit/rate-limit.guard.ts, rate-limit.store.ts and rate-limit.constants.ts. Time
-- is `Date.now()`, in milliseconds; the quotients of the code are those of natural numbers.
pub mod Bound
use estate_server.Base.{
  Bool, Key, List, Option, Time, [], false, get_or, if◌then◌else◌, is_none, ltb, no_key, none, not,
  some, true, ℕ, ◌%◌, ◌&&◌, ◌+◌, ◌-◌, ◌/◌, ◌==◌, ◌∷◌,
}
use estate_server.Base.Int.{ℤ, pos, negsuc}

abbrev pub default_window_sec : ℕ
default_window_sec = 60

abbrev pub default_user_max : ℕ
default_user_max = 60

abbrev pub default_ip_max : ℕ
default_ip_max = 120

pub data Method : Type 0 where
  get head options post patch put delete : Method

-- `WRITE_METHODS.includes(req.method)`
abbrev pub is_write : Method → Bool
is_write post = true
is_write patch = true
is_write put = true
is_write delete = true
is_write _ = false

pub data Scope : Type 0 where
  user ip : Scope

-- The parts of `ratelimit:{scope}:{id}:{windowStart}`.
pub record LimitKey : Type 0 where
  pub scope : Scope
  pub id : Key
  pub window_start : ℕ

abbrev pub same_scope : Scope → Scope → Bool
same_scope user user = true
same_scope ip ip = true
same_scope user ip = false
same_scope ip user = false

abbrev pub same_key : LimitKey → LimitKey → Bool
same_key a b = same_scope a.scope b.scope && a.id == b.id && a.window_start == b.window_start

-- RateLimitOptions
pub record Options : Type 0 where
  pub user_max : Option ℕ
  pub ip_max : Option ℕ
  pub window_sec : Option ℕ

-- What the environment configures; `none` where the variable is unset or no number.
pub record LimitConfig : Type 0 where
  pub window_sec : Option ℤ
  pub user_max : Option ℤ
  pub ip_max : Option ℤ

-- `intConfig`: a positive finite number, or the fallback.
abbrev pub int_config : Option ℤ → ℕ → ℕ
int_config none fallback = fallback
int_config (some (pos n)) fallback = if n == 0 then fallback else n
int_config (some (negsuc n)) fallback = fallback

-- A request as the guard sees it: the metadata of its route, its method, `req.ip`, and the `sub`
-- of its bearer token where that verifies.
pub record Request : Type 0 where
  pub skip : Bool
  pub override : Option Options
  pub method : Method
  pub ip : Option Key
  pub user_id : Option Key

-- The id that stands for `'unknown'`.
abbrev pub unknown_ip : Key
unknown_ip = 1

-- The counters that are alive in Redis. A key names its window, so the expiry that the script sets
-- on a new key only removes counters of windows that are over, and is left out.
abbrev pub Counters : Type 0
Counters = List (LimitKey × ℕ)

unfoldable pub count_of : LimitKey → Counters → ℕ
count_of k [] = 0
count_of k ((j, n) ∷ cs) = if same_key j k then n else count_of k cs

-- FIXED_WINDOW_LUA: `INCR` starts from 0 where the key is missing, and returns the new count.
unfoldable pub hit : LimitKey → Counters → Counters
hit k [] = (k, 1) ∷ []
hit k ((j, n) ∷ cs) = if same_key j k then (j, n + 1) ∷ cs else (j, n) ∷ hit k cs

pub data Verdict : Type 0 where
  pass : Verdict
  retry_after : ℕ → Verdict

-- The loop over `checks`: it stops at the first limit that is exceeded.
unfoldable pub check_all : ℕ → ℕ → List (LimitKey × ℕ) → Counters → Verdict × Counters
check_all now_sec window_sec [] cs = (pass, cs)
check_all now_sec window_sec ((k, max) ∷ checks) cs =
    let cs' = hit k cs in
    let rest = check_all now_sec window_sec checks cs' in
    if ltb max (count_of k cs')
    then (retry_after (window_sec - now_sec % window_sec), cs')
    else rest

abbrev pub option_of : (Options → Option ℕ) → Option Options → Option ℕ
option_of f none = none
option_of f (some o) = f o

module _ (cfg : LimitConfig) where
  abbrev pub window_of : Request → ℕ
  window_of req =
      get_or (option_of (λ o. o.window_sec) req.override)
        (int_config cfg.window_sec default_window_sec)

  abbrev pub ip_max_of : Request → ℕ
  ip_max_of req =
      get_or (option_of (λ o. o.ip_max) req.override) (int_config cfg.ip_max default_ip_max)

  abbrev pub user_max_of : Request → ℕ
  user_max_of req =
      get_or (option_of (λ o. o.user_max) req.override) (int_config cfg.user_max default_user_max)

  -- `rateLimitKey` of the window in which the clock stands.
  abbrev pub key_at : Time → Request → Scope → Key → LimitKey
  key_at now req scope id = record {
    scope = scope;
    id = id;
    window_start = now / 1000 / window_of req;
  }

  -- The address always, the user where the token names one (an empty `sub` is none).
  abbrev pub checks_of : Time → Request → List (LimitKey × ℕ)
  checks_of now req =
      (key_at now req ip (get_or req.ip unknown_ip), ip_max_of req) ∷ elim req.user_id [
        | none ↦ []
        | some id ↦ if id == no_key then [] else (key_at now req user id, user_max_of req) ∷ []
      ]

  -- `canActivate`, where Redis answers. (Where it throws, so does the guard, and the request ends
  -- with 500.) `later` is the clock that the header Retry-After is computed from.
  unfoldable pub can_activate : Time → Time → Request → Counters → Verdict × Counters
  unfolding check_all
  can_activate now later req cs =
      if req.skip
      then (pass, cs)
      else if is_none req.override && not (is_write req.method)
      then (pass, cs)
      else check_all (later / 1000) (window_of req) (checks_of now req) cs
