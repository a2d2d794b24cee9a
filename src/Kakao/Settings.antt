-- ===== src/Kakao/Settings.antt =====
-- The settings of the policies of Kakao where the environment says nothing usable:
-- src/auth/infrastructure/kakao-resilience.ts.
use estate_server.Base.{Bool, [], false, refl, ◌≡◌}
use estate_server.Kakao.Config.{
  Number, Raw, RawConfig, unset, blank, text, accepted, is_finite, defaults, parse_env_number,
  parse_config, errors_of, warnings_of, require_min, require_int_min, validate_resilience_config,
}

abbrev pub is_usable : Raw → Bool
is_usable (text n) = is_finite n
is_usable _ = false

pub record IsSilent (raw : RawConfig) : Type 0 where
  pub timeout : is_usable raw.timeout ≡ false
  pub retries : is_usable raw.retries ≡ false
  pub threshold : is_usable raw.threshold ≡ false
  pub half_open : is_usable raw.half_open ≡ false
  pub concurrent : is_usable raw.concurrent ≡ false
  pub queue : is_usable raw.queue ≡ false
  pub total : is_usable raw.total ≡ false

parse_env_number-fallback :
    (raw : Raw) (fallback : Number)
    → is_usable raw ≡ false
    → parse_env_number raw fallback ≡ fallback
unfolding parse_env_number
parse_env_number-fallback unset fallback e = refl
parse_env_number-fallback blank fallback e = refl
parse_env_number-fallback (text n) fallback e = rw e refl

-- The settings that stand in the code pass their own check, without a warning.
pub fallbacks_accepted :
    (raw : RawConfig) → IsSilent raw → validate_resilience_config (parse_config raw) ≡ accepted []
unfolding validate_resilience_config parse_config defaults errors_of warnings_of require_min
    require_int_min
fallbacks_accepted raw h =
    rw
      (
        parse_env_number-fallback raw.timeout defaults.timeout_ms h.timeout,
        parse_env_number-fallback raw.retries defaults.retry_max_attempts h.retries,
        parse_env_number-fallback raw.threshold defaults.breaker_threshold h.threshold,
        parse_env_number-fallback raw.half_open defaults.breaker_half_open_ms h.half_open,
        parse_env_number-fallback raw.concurrent defaults.bulkhead_concurrent h.concurrent,
        parse_env_number-fallback raw.queue defaults.bulkhead_queue h.queue,
        parse_env_number-fallback raw.total defaults.total_timeout_ms h.total,
      )
      refl
