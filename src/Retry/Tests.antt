-- ===== src/Retry/Tests.antt =====
-- The theorem about the configuration of the retries at a concrete environment: one variable is set,
-- and one is set to what is no number.
use qcc_plus.Prelude.{
  ℕ, ◌*◌, ◌+◌, ◌≡◌, ◌≢◌, refl, arith, negsuc, ltb_ℤ, pos, leb_ℤ, true, none, some, [], ◌∷◌, str_eq,
  if◌then◌else◌,
}
use qcc_plus.Retry.Config.{
  Environment, Floating, millisecond, wrap_64, env_number, positive, or_positive, load_retry_config,
  calculate_backoff,
}
use qcc_plus.Retry.Limits.{
  IsInRange, IsTimed, load_retry_config-IsBounded, load_retry_config-IsTimed,
}

abbrev environment : Environment
environment = record {
  getenv = λ name.
      if str_eq name "RETRY_BACKOFF_MIN_MS"
      then "250"
      else if str_eq name "RETRY_MAX_ATTEMPTS"
      then "many"
      else "";
  atoi = λ v. if str_eq v "250" then some (pos 250) else none;
  split = λ v. v ∷ [];
  trim_space = λ v. v;
}

-- Whole numbers in place of float64.
abbrev whole : Floating ℕ
whole = record {
  of_ℕ = λ n. n;
  pow_2 = λ n. 8;
  times = λ a b. a * b;
  plus = λ a b. a + b;
  random = 0;
  to_duration = λ a. pos a;
}

load_retry_config-IsBounded_example :
    let cfg = load_retry_config environment in
    (ltb_ℤ (pos 0) cfg.max_attempts ≡ true)
    × (cfg.retry_on_status ≢ [])
    × (leb_ℤ cfg.backoff_min cfg.backoff_max ≡ true)
    × (leb_ℤ
          (calculate_backoff whole (pos 3) cfg)
          (pos (or_positive (100 * millisecond) cfg.backoff_max))
        ≡ true)
load_retry_config-IsBounded_example = load_retry_config-IsBounded environment whole (pos 3)

environment-IsInRange : IsInRange environment
unfolding env_number positive
environment-IsInRange = record {
  least = λ n h. ground (arith, h);
  most = λ n h. absurd cc;
  request = λ n h. absurd cc;
  total = λ n h. absurd cc;
  attempts = ((λ n h. absurd cc), tt);
}

load_retry_config-IsTimed_example : IsTimed (load_retry_config environment)
load_retry_config-IsTimed_example = load_retry_config-IsTimed environment environment-IsInRange

-- 10^13 milliseconds do not fit into 64 bits of nanoseconds: the wait becomes negative.
wrapped_test : wrap_64 (10_000_000_000_000 * millisecond) ≡ negsuc 8_446_744_073_709_551_615
unfolding wrap_64
wrapped_test = refl
