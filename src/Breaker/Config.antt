-- ===== src/Breaker/Config.antt =====
-- `applyCircuitBreakerDefaults`: what a breaker's configuration satisfies.
use qcc_plus.Prelude.{ℕ, ◌<◌, ◌≡◌, pos_part, false, arith}
use qcc_plus.Floats.{FloatOps}
use qcc_plus.Breaker.Defs.{BreakerConfig, apply_defaults, new_breaker}

-- Every count and every duration is above 0.
pub record IsPositive {F : Type 0} (cfg : BreakerConfig F) : Type 0 where
  pub window : 0 < pos_part cfg.window_seconds
  pub fails : 0 < pos_part cfg.consecutive_fails
  pub cooldown : 0 < pos_part cfg.cooldown_seconds
  pub trials : 0 < pos_part cfg.half_open_max_calls

module _ {F : Type 0} (fl : FloatOps F) where
  open fl use {of_ℕ, div, leb_f, ltb_f}

  -- Whatever configuration is given, the breaker that is built from it has only positive limits.
  pub new_breaker-IsPositive :
      (cfg : BreakerConfig F) (now : ℕ) → IsPositive (new_breaker fl cfg now).config
  unfolding new_breaker
  new_breaker-IsPositive cfg now = ground arith

  -- If the fallback 1/2 is itself an accepted failure rate, to apply the defaults a second time
  -- changes nothing.
  pub apply_defaults_idem :
      (cfg : BreakerConfig F)
      → leb_f (div (of_ℕ 1) (of_ℕ 2)) (of_ℕ 0) ≡ false
      → ltb_f (of_ℕ 1) (div (of_ℕ 1) (of_ℕ 2)) ≡ false
      → apply_defaults fl (apply_defaults fl cfg) ≡ apply_defaults fl cfg
  unfolding apply_defaults
  apply_defaults_idem cfg above_zero below_one = ground arith
