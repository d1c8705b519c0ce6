-- ===== src/Retry/Limits.antt =====
-- What holds of every configuration of the retries: internal/proxy/retry.go.
use qcc_plus.Prelude.{
  ℕ, ◌*◌, ◌<◌, ◌≡◌, ◌≢◌, ℤ, pos, negsuc, ltb_ℤ, leb_ℤ, String, Bool, true, false, Option, none,
  some, List, [], ◌∷◌, str_eq, second, arith, All, if◌then◌else◌, refl, sym, subst,
}
use native.Mathlib.Nat.{mul-pos}
use qcc_plus.Request.Loop.{RetryConfig}
use qcc_plus.Retry.Config.{
  Environment, Floating, millisecond, positive, wrap_64, env_number, count_or, duration_or,
  or_positive, or_defaults, codes_of, retry_codes, timeouts_of, attempt_timeouts, load_retry_config,
  calculate_backoff,
}

-- Durations at least as long as a nanosecond.
abbrev pub IsPositive : ℤ → Type 0
IsPositive d = ltb_ℤ (pos 0) d ≡ true

abbrev AllPositive : List ℤ → Type 0
AllPositive = All IsPositive

-- The durations of a configuration: waits in order, and timeouts that leave time.
pub record IsTimed (cfg : RetryConfig) : Type 0 where
  pub waits : IsPositive cfg.backoff_min
  pub ordered : leb_ℤ cfg.backoff_min cfg.backoff_max ≡ true
  pub limited : IsPositive cfg.per_request_timeout
  pub all_limited : All IsPositive cfg.per_attempt_timeouts
  pub total : leb_ℤ (pos 0) cfg.total_timeout ≡ true

-- A number that is read counts, in the unit, a duration that fits into 63 bits.
abbrev Fits : ℕ → Option ℕ → Type 0
Fits unit o = (n : ℕ) → o ≡ some n → n * unit < 9_223_372_036_854_775_808

-- All durations that the environment sets fit.
pub record IsInRange (env : Environment) : Type 0 where
  pub least : Fits millisecond (env_number env "RETRY_BACKOFF_MIN_MS")
  pub most : Fits millisecond (env_number env "RETRY_BACKOFF_MAX_MS")
  pub request : Fits second (env_number env "RETRY_PER_REQUEST_TIMEOUT_SEC")
  pub total : Fits second (env_number env "RETRY_TOTAL_TIMEOUT_SEC")
  pub attempts :
      All
        (λ (part : String). Fits second (positive (env.atoi (env.trim_space part))))
        (env.split (env.getenv "RETRY_PER_ATTEMPT_TIMEOUTS_SEC"))

positive-some : (o : Option ℤ) (n : ℕ) → positive o ≡ some n → 0 < n
unfolding positive
positive-some none n h = absurd cc
positive-some (some (negsuc m)) n h = absurd cc
positive-some (some (pos m)) n h = ground arith

product_positive : (n unit : ℕ) → 0 < n → 0 < unit → 0 < n * unit
product_positive n unit h k = mul-pos h k

wrap_64-small : (m : ℕ) → m < 9_223_372_036_854_775_808 → wrap_64 m ≡ pos m
unfolding wrap_64
wrap_64-small m small = ground (arith, small)

wrap_64-IsPositive :
    (n unit : ℕ)
    → 0 < n
    → 0 < unit
    → n * unit < 9_223_372_036_854_775_808
    → IsPositive (wrap_64 (n * unit))
wrap_64-IsPositive n unit h k small =
    subst IsPositive (sym (wrap_64-small (n * unit) small))
      (ground (arith, product_positive n unit h k))

env_number-positive :
    (env : Environment) (name : String) (n : ℕ) → env_number env name ≡ some n → 0 < n
unfolding env_number
env_number-positive env name n h = by_set (str_eq (env.getenv name) "") h
  where
    by_set :
        (b : Bool) → (if b then none else positive (env.atoi (env.getenv name))) ≡ some n → 0 < n
    by_set true h = absurd cc
    by_set false h = positive-some (env.atoi (env.getenv name)) n h

duration_or-IsPositive :
    (unit fallback : ℕ) (o : Option ℕ)
    → 0 < unit
    → 0 < fallback
    → ((n : ℕ) → o ≡ some n → 0 < n)
    → Fits unit o
    → IsPositive (duration_or unit fallback o)
duration_or-IsPositive unit fallback none h k given fits = ground (arith, k)
duration_or-IsPositive unit fallback (some n) h k given fits =
    wrap_64-IsPositive n unit (given n refl) h (fits n refl)

duration_or-not_negative :
    (o : Option ℕ) → Fits second o → leb_ℤ (pos 0) (duration_or second 0 o) ≡ true
duration_or-not_negative none fits = ground arith
duration_or-not_negative (some n) fits =
    subst (λ (d : ℤ). leb_ℤ (pos 0) d ≡ true) (sym (wrap_64-small (n * second) (fits n refl)))
      (ground arith)

timeouts_of-AllPositive :
    (env : Environment) (ps : List String)
    → All (λ (part : String). Fits second (positive (env.atoi (env.trim_space part)))) ps
    → AllPositive (timeouts_of env ps)
unfolding timeouts_of
timeouts_of-AllPositive env [] fits = tt
timeouts_of-AllPositive env (p ∷ ps) fits =
    by_part (str_eq (env.trim_space p) "") (positive (env.atoi (env.trim_space p)))
      (positive-some (env.atoi (env.trim_space p))) fits.0 (timeouts_of-AllPositive env ps fits.1)
  where
    by_part :
        (b : Bool) (q : Option ℕ)
        → ((n : ℕ) → q ≡ some n → 0 < n)
        → Fits second q
        → AllPositive (timeouts_of env ps)
        → AllPositive (
            if b then timeouts_of env ps else elim q [
              | none ↦ timeouts_of env ps
              | some n ↦ wrap_64 (n * second) ∷ timeouts_of env ps
            ])
    by_part true q all fit rest = rest
    by_part false none all fit rest = rest
    by_part false (some n) all fit rest =
        (wrap_64-IsPositive n second (all n refl) (omega arith) (fit n refl), rest)

attempt_timeouts-AllPositive :
    (env : Environment) → IsInRange env → AllPositive (attempt_timeouts env)
unfolding attempt_timeouts
attempt_timeouts-AllPositive env h =
    by_set (str_eq (env.getenv "RETRY_PER_ATTEMPT_TIMEOUTS_SEC") "")
  where
    by_set :
        (b : Bool)
        → AllPositive (
            if b
            then []
            else timeouts_of env (env.split (env.getenv "RETRY_PER_ATTEMPT_TIMEOUTS_SEC")))
    by_set true = tt
    by_set false =
        timeouts_of-AllPositive env (env.split (env.getenv "RETRY_PER_ATTEMPT_TIMEOUTS_SEC"))
          h.attempts

or_defaults-ne : (ns : List ℤ) → or_defaults ns ≢ []
or_defaults-ne [] h = cc
or_defaults-ne (n ∷ ns) h = cc

retry_codes-ne : (env : Environment) → retry_codes env ≢ []
unfolding retry_codes
retry_codes-ne env = by_set (str_eq (env.getenv "RETRY_ON_STATUS") "")
  where
    by_set :
        (b : Bool)
        → (if b
            then or_defaults []
            else or_defaults (codes_of env (env.split (env.getenv "RETRY_ON_STATUS"))))
          ≢ []
    by_set true = or_defaults-ne []
    by_set false = or_defaults-ne (codes_of env (env.split (env.getenv "RETRY_ON_STATUS")))

raised-ordered : (least most : ℤ) → leb_ℤ least (if ltb_ℤ most least then least else most) ≡ true
raised-ordered (pos m) (pos n) = ground arith
raised-ordered (pos m) (negsuc n) = ground arith
raised-ordered (negsuc m) (pos n) = ground arith
raised-ordered (negsuc m) (negsuc n) = ground arith

capped : (most : ℕ) (d : ℤ) → leb_ℤ (if ltb_ℤ (pos most) d then pos most else d) (pos most) ≡ true
capped most (pos n) = ground arith
capped most (negsuc n) = ground arith

-- Whatever the environment holds, and also where a duration wraps at 64 bits, the configuration has a
-- positive number of attempts and a status to retry, its largest wait is not below its smallest; and no
-- wait that is computed with it, for any attempt and any random number, is longer than the largest
-- wait, or than 100 ms where that is not positive.
pub load_retry_config-IsBounded :
    {F : Type 0} (env : Environment) (fl : Floating F) (attempt : ℤ)
    → let cfg = load_retry_config env in
      (ltb_ℤ (pos 0) cfg.max_attempts ≡ true)
      × (cfg.retry_on_status ≢ [])
      × (leb_ℤ cfg.backoff_min cfg.backoff_max ≡ true)
      × (leb_ℤ
            (calculate_backoff fl attempt cfg)
            (pos (or_positive (100 * millisecond) cfg.backoff_max))
          ≡ true)
unfolding load_retry_config calculate_backoff
load_retry_config-IsBounded env fl attempt =
    let least =
      duration_or millisecond (10 * millisecond) (env_number env "RETRY_BACKOFF_MIN_MS") in
    let most =
      duration_or millisecond (100 * millisecond) (env_number env "RETRY_BACKOFF_MAX_MS") in
    (
      tries (env_number env "RETRY_MAX_ATTEMPTS") (env_number-positive env "RETRY_MAX_ATTEMPTS"),
      retry_codes-ne env,
      raised-ordered least most,
      capped (or_positive (100 * millisecond) (load_retry_config env).backoff_max) _,
    )
  where
    tries :
        (o : Option ℕ) → ((n : ℕ) → o ≡ some n → 0 < n) → ltb_ℤ (pos 0) (pos (count_or 3 o)) ≡ true
    tries none given = refl
    tries (some n) given = ground (arith, given n refl)

-- If every duration that the environment sets fits into 63 bits of nanoseconds, then the smallest wait
-- is positive and not above the largest one, the timeouts of a request and of its attempts are positive,
-- and the total timeout is not negative.
pub load_retry_config-IsTimed :
    (env : Environment) → IsInRange env → IsTimed (load_retry_config env)
unfolding load_retry_config
load_retry_config-IsTimed env h = record {
  waits =
      duration_or-IsPositive millisecond (10 * millisecond) (env_number env "RETRY_BACKOFF_MIN_MS")
        (omega arith) (omega arith) (env_number-positive env "RETRY_BACKOFF_MIN_MS") h.least;
  ordered =
      raised-ordered
        (duration_or millisecond (10 * millisecond) (env_number env "RETRY_BACKOFF_MIN_MS"))
        (duration_or millisecond (100 * millisecond) (env_number env "RETRY_BACKOFF_MAX_MS"));
  limited =
      duration_or-IsPositive second (30 * second) (env_number env "RETRY_PER_REQUEST_TIMEOUT_SEC")
        (omega arith) (omega arith) (env_number-positive env "RETRY_PER_REQUEST_TIMEOUT_SEC")
        h.request;
  all_limited = attempt_timeouts-AllPositive env h;
  total = duration_or-not_negative (env_number env "RETRY_TOTAL_TIMEOUT_SEC") h.total;
}
