-- ===== src/Retry/Config.antt =====
-- `loadRetryConfig` and `calculateBackoff`: internal/proxy/retry.go. The environment, the functions on
-- texts and the arithmetic of float64 are parameters; durations are nanoseconds, in 64 bits.
use qcc_plus.Prelude.{
  ℕ, suc, ◌*◌, ◌-◌, ◌%◌, ℤ, pos, negsuc, ltb_ℤ, ltb, String, Option, none, some, List, [], ◌∷◌,
  str_eq, second, if◌then◌else◌,
}
use qcc_plus.Request.Loop.{RetryConfig}

pub record Environment : Type 0 where
  pub getenv : String → String
  pub atoi : String → Option ℤ
  pub split : String → List String  -- at commas
  pub trim_space : String → String

abbrev pub millisecond : ℕ
millisecond = 1_000_000

-- A number that is positive.
unfoldable pub positive : Option ℤ → Option ℕ
positive none = none
positive (some (negsuc n)) = none
positive (some (pos n)) = if ltb 0 n then some n else none

-- The `int64` that a product of two positive numbers becomes: it wraps at 64 bits.
unfoldable pub wrap_64 : ℕ → ℤ
wrap_64 m =
    let low = m % 18_446_744_073_709_551_616 in
    if ltb low 9_223_372_036_854_775_808
    then pos low
    else negsuc (18_446_744_073_709_551_616 - suc low)

-- The positive number that a variable is set to, if it is.
unfoldable pub env_number : Environment → String → Option ℕ
unfolding positive
env_number env name = let v = env.getenv name in if str_eq v "" then none else positive (env.atoi v)

abbrev pub count_or : ℕ → Option ℕ → ℕ
count_or fallback none = fallback
count_or fallback (some n) = n

-- `time.Duration(n) * unit`
abbrev pub duration_or : ℕ → ℕ → Option ℕ → ℤ
duration_or unit fallback none = pos fallback
duration_or unit fallback (some n) = wrap_64 (n * unit)

unfoldable pub codes_of : Environment → List String → List ℤ
codes_of env [] = []
codes_of env (p ∷ ps) =
    let rest = codes_of env ps in
    if str_eq (env.trim_space p) ""
    then rest
    else elim (env.atoi (env.trim_space p)) [ none ↦ rest | some n ↦ n ∷ rest ]

abbrev pub or_defaults : List ℤ → List ℤ
or_defaults [] = pos 502 ∷ pos 503 ∷ pos 504 ∷ []
or_defaults (n ∷ ns) = n ∷ ns

unfoldable pub retry_codes : Environment → List ℤ
unfolding codes_of
retry_codes env =
    let v = env.getenv "RETRY_ON_STATUS" in
    if str_eq v "" then or_defaults [] else or_defaults (codes_of env (env.split v))

unfoldable pub timeouts_of : Environment → List String → List ℤ
unfolding positive wrap_64
timeouts_of env [] = []
timeouts_of env (p ∷ ps) =
    let rest = timeouts_of env ps in
    if str_eq (env.trim_space p) "" then rest else elim (positive (env.atoi (env.trim_space p))) [
      | none ↦ rest
      | some n ↦ wrap_64 (n * second) ∷ rest
    ]

unfoldable pub attempt_timeouts : Environment → List ℤ
unfolding timeouts_of
attempt_timeouts env =
    let v = env.getenv "RETRY_PER_ATTEMPT_TIMEOUTS_SEC" in
    if str_eq v "" then [] else timeouts_of env (env.split v)

unfoldable pub load_retry_config : Environment → RetryConfig
unfolding env_number wrap_64 retry_codes attempt_timeouts
load_retry_config env =
    let least =
      duration_or millisecond (10 * millisecond) (env_number env "RETRY_BACKOFF_MIN_MS") in
    let most =
      duration_or millisecond (100 * millisecond) (env_number env "RETRY_BACKOFF_MAX_MS") in
    record {
      max_attempts = pos (count_or 3 (env_number env "RETRY_MAX_ATTEMPTS"));
      backoff_min = least;
      backoff_max = if ltb_ℤ most least then least else most;
      retry_on_status = retry_codes env;
      per_request_timeout =
          duration_or second (30 * second) (env_number env "RETRY_PER_REQUEST_TIMEOUT_SEC");
      per_attempt_timeouts = attempt_timeouts env;
      total_timeout = duration_or second 0 (env_number env "RETRY_TOTAL_TIMEOUT_SEC");
    }

-- The arithmetic of float64 that the backoff uses, with the random number drawn.
pub record Floating (F : Type 0) : Type 0 where
  pub of_ℕ : ℕ → F
  pub pow_2 : ℕ → F
  pub times : F → F → F
  pub plus : F → F → F
  pub random : F
  pub to_duration : F → ℤ

abbrev pub or_positive : ℕ → ℤ → ℕ
or_positive fallback (pos n) = if ltb 0 n then n else fallback
or_positive fallback (negsuc n) = fallback

abbrev pub from_zero : ℤ → ℕ
from_zero (pos n) = n
from_zero (negsuc n) = 0

module _ {F : Type 0} where
  unfoldable pub calculate_backoff : Floating F → ℤ → RetryConfig → ℤ
  calculate_backoff fl attempt cfg =
      let least = or_positive (10 * millisecond) cfg.backoff_min in
      let most = or_positive (100 * millisecond) cfg.backoff_max in
      let base = fl.times (fl.of_ℕ least) (fl.pow_2 (from_zero attempt)) in
      let jitter = fl.times fl.random (fl.of_ℕ least) in
      let backoff = fl.to_duration (fl.plus base jitter) in
      if ltb_ℤ (pos most) backoff then pos most else backoff
