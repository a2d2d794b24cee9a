-- ===== src/Kakao/Config.antt =====
-- The settings of src/auth/infrastructure/kakao-resilience.ts: their parsing and their check.
use estate_server.Base.{
  Bool, List, [], false, if◌then◌else◌, is_empty, ltb, min, not, true, ℕ, ◌%◌, ◌*◌, ◌++◌, ◌+◌, ◌==◌,
  ◌||◌, ◌∷◌,
}

-- A number of the code as far as the check looks: NaN, an infinity, one below zero, or
-- `ratio n d`, which is n / (d + 1).
pub data Number : Type 0 where
  nan infinity negative : Number
  ratio : ℕ → ℕ → Number

abbrev pub natural : ℕ → Number
natural n = ratio n 0

-- A variable of the environment: not set, blank, or a text that `Number` reads as a number, which
-- may be NaN.
pub data Raw : Type 0 where
  unset blank : Raw
  text : Number → Raw

-- `Number.isFinite` and `Number.isInteger`; a negative number is refused by its bound in any case.
abbrev pub is_finite : Number → Bool
is_finite nan = false
is_finite infinity = false
is_finite _ = true

abbrev pub is_integer : Number → Bool
is_integer (ratio n d) = n % (d + 1) == 0
is_integer _ = false

-- `value < min`
abbrev pub is_below : Number → ℕ → Bool
is_below negative min = true
is_below (ratio n d) min = ltb n (min * (d + 1))
is_below _ min = false

-- `a < b` of numbers that are not negative.
abbrev pub is_less : Number → Number → Bool
is_less (ratio n d) (ratio n' d') = ltb (n * (d' + 1)) (n' * (d + 1))
is_less _ _ = false

abbrev pub plus_one : Number → Number
plus_one (ratio n d) = ratio (n + (d + 1)) d
plus_one x = x

-- `parseEnvNumber`
unfoldable pub parse_env_number : Raw → Number → Number
parse_env_number unset fallback = fallback
parse_env_number blank fallback = fallback
parse_env_number (text n) fallback = if is_finite n then n else fallback

-- ResilienceConfig
pub record ResilienceConfig : Type 0 where
  pub timeout_ms : Number
  pub retry_max_attempts : Number
  pub breaker_threshold : Number
  pub breaker_half_open_ms : Number
  pub bulkhead_concurrent : Number
  pub bulkhead_queue : Number
  pub total_timeout_ms : Number

pub data Field : Type 0 where
  timeout_ms retry_max_attempts breaker_threshold breaker_half_open_ms : Field
  bulkhead_concurrent bulkhead_queue total_timeout_ms : Field

-- `requireMin` and `requireIntMin`: the fields in error.
unfoldable pub require_min : Field → Number → ℕ → List Field
require_min field value min = if not (is_finite value) || is_below value min then field ∷ [] else []

unfoldable pub require_int_min : Field → Number → ℕ → List Field
require_int_min field value min =
    if not (is_integer value) || is_below value min then field ∷ [] else []

unfoldable pub errors_of : ResilienceConfig → List Field
unfolding require_min require_int_min
errors_of cfg =
    require_min timeout_ms cfg.timeout_ms 1
    ++ require_int_min retry_max_attempts cfg.retry_max_attempts 0
    ++ require_int_min breaker_threshold cfg.breaker_threshold 1
    ++ require_min breaker_half_open_ms cfg.breaker_half_open_ms 1
    ++ require_int_min bulkhead_concurrent cfg.bulkhead_concurrent 1
    ++ require_int_min bulkhead_queue cfg.bulkhead_queue 0
    ++ require_min total_timeout_ms cfg.total_timeout_ms 1

pub data Warning : Type 0 where
  threshold_below_attempts budget_below_timeout : Warning

unfoldable pub warnings_of : ResilienceConfig → List Warning
warnings_of cfg =
    (if is_less cfg.breaker_threshold (plus_one cfg.retry_max_attempts)
      then threshold_below_attempts ∷ []
      else [])
    ++ (if is_less cfg.total_timeout_ms cfg.timeout_ms then budget_below_timeout ∷ [] else [])

-- What the check ends with: an exception over the fields in error, or the warnings.
pub data Verdict : Type 0 where
  refused : List Field → Verdict
  accepted : List Warning → Verdict

-- `validateResilienceConfig`
unfoldable pub validate_resilience_config : ResilienceConfig → Verdict
unfolding errors_of warnings_of
validate_resilience_config cfg =
    if is_empty (errors_of cfg) then accepted (warnings_of cfg) else refused (errors_of cfg)

-- DEFAULTS
unfoldable pub defaults : ResilienceConfig
defaults = record {
  timeout_ms = natural 3000;
  retry_max_attempts = natural 3;
  breaker_threshold = natural 5;
  breaker_half_open_ms = natural 10000;
  bulkhead_concurrent = natural 10;
  bulkhead_queue = natural 20;
  total_timeout_ms = natural 8000;
}

-- The seven variables of the environment.
pub record RawConfig : Type 0 where
  pub timeout : Raw
  pub retries : Raw
  pub threshold : Raw
  pub half_open : Raw
  pub concurrent : Raw
  pub queue : Raw
  pub total : Raw

unfoldable pub parse_config : RawConfig → ResilienceConfig
unfolding parse_env_number
parse_config raw = record {
  timeout_ms = parse_env_number raw.timeout defaults.timeout_ms;
  retry_max_attempts = parse_env_number raw.retries defaults.retry_max_attempts;
  breaker_threshold = parse_env_number raw.threshold defaults.breaker_threshold;
  breaker_half_open_ms = parse_env_number raw.half_open defaults.breaker_half_open_ms;
  bulkhead_concurrent = parse_env_number raw.concurrent defaults.bulkhead_concurrent;
  bulkhead_queue = parse_env_number raw.queue defaults.bulkhead_queue;
  total_timeout_ms = parse_env_number raw.total defaults.total_timeout_ms;
}
