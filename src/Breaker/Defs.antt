-- ===== src/Breaker/Defs.antt =====
-- internal/proxy/circuit_breaker.go: the state of a breaker and its methods.
use qcc_plus.Prelude.{
  ℕ, suc, ℤ, pos, Bool, true, false, not, ◌||◌, Option, none, some, List, [], ◌∷◌, ◌++◌, String,
  if◌then◌else◌, leb_ℤ, ltb_ℤ, length, has_elapsed, is_within,
}
use qcc_plus.Floats.{FloatOps}

-- `closed` passes requests, `opened` rejects them, `half_open` passes a few trials.
pub data BreakerState : Type 0 where
  closed opened half_open : BreakerState

unfoldable pub state_name : BreakerState → String
state_name closed = "closed"
state_name opened = "open"
state_name half_open = "half-open"

-- `a == b` on states.
abbrev pub same_state : BreakerState → BreakerState → Bool
same_state closed closed = true
same_state opened opened = true
same_state half_open half_open = true
same_state _ _ = false

pub record BreakerConfig (F : Type 0) : Type 0 where
  pub enabled : Bool
  pub window_seconds : ℤ
  pub failure_rate : F
  pub consecutive_fails : ℤ
  pub cooldown_seconds : ℤ
  pub half_open_max_calls : ℤ

pub record RequestRecord : Type 0 where
  pub timestamp : ℕ
  pub failed : Bool

pub record Breaker (F : Type 0) : Type 0 where
  pub state : BreakerState
  pub requests : List RequestRecord
  pub consecutive_fails : ℕ
  pub state_changed_at : ℕ
  pub half_open_calls : ℕ
  pub half_open_success : ℕ
  pub config : BreakerConfig F

-- `if x <= 0 { x = d }`
abbrev pub positive_or : ℕ → ℤ → ℤ
positive_or d x = if leb_ℤ x (pos 0) then pos d else x

-- The loop that looks for the first record inside the window and cuts off what stands before it.
unfoldable pub trim : ℤ → ℕ → List RequestRecord → List RequestRecord
trim w now [] = []
trim w now (r ∷ rs) =
    let rest = trim w now rs in if is_within w now r.timestamp then r ∷ rs else rest

-- The loop of `shouldOpenLocked` that counts the failed records.
unfoldable pub count_failed : ℕ → List RequestRecord → ℕ
count_failed n [] = n
count_failed n (r ∷ rs) = count_failed (if r.failed then suc n else n) rs

module _ {F : Type 0} where
  unfoldable pub transition_locked : BreakerState → ℕ → Breaker F → Breaker F
  transition_locked next now cb =
      if same_state cb.state next then cb else record cb { state = next; state_changed_at = now }

  -- `AllowRequest` on an enabled breaker, by state.
  allow_in : BreakerState → ℕ → Breaker F → Breaker F × Bool
  unfolding transition_locked
  allow_in closed now cb = (cb, true)
  allow_in opened now cb =
      if has_elapsed cb.state_changed_at cb.config.cooldown_seconds now
      then (
        record (transition_locked half_open now cb) { half_open_calls = 1; half_open_success = 0 },
        true,
      )
      else (cb, false)
  allow_in half_open now cb =
      if ltb_ℤ (pos cb.half_open_calls) cb.config.half_open_max_calls
      then (record cb { half_open_calls = suc cb.half_open_calls }, true)
      else (cb, false)

  unfoldable pub allow_locked : ℕ → Breaker F → Breaker F × Bool
  unfolding allow_in
  allow_locked now cb = if not cb.config.enabled then (cb, true) else allow_in cb.state now cb

  unfoldable pub allow_request : ℕ → Option (Breaker F) → Option (Breaker F) × Bool
  unfolding allow_locked
  allow_request now none = (none, true)
  allow_request now (some cb) = let (cb', ok) = allow_locked now cb in (some cb', ok)

  unfoldable pub get_state : Option (Breaker F) → BreakerState
  get_state none = closed
  get_state (some cb) = cb.state

  unfoldable pub reset_locked : ℕ → Breaker F → Breaker F
  reset_locked now cb = record cb {
    state = closed;
    requests = [];
    consecutive_fails = 0;
    half_open_calls = 0;
    half_open_success = 0;
    state_changed_at = now;
  }

  unfoldable pub reset : ℕ → Option (Breaker F) → Option (Breaker F)
  unfolding reset_locked
  reset now none = none
  reset now (some cb) = some (reset_locked now cb)

  -- The first half of `RecordResult`: the window and the run of failures.
  unfoldable pub note_result : Bool → ℕ → Breaker F → Breaker F
  unfolding trim
  note_result success now cb = record cb {
    requests =
        trim cb.config.window_seconds now
          (cb.requests ++ record { timestamp = now; failed = not success } ∷ []);
    consecutive_fails = if not success then suc cb.consecutive_fails else 0;
  }

  count_trial : Bool → Breaker F → Breaker F
  count_trial success cb = record cb {
    half_open_success = if success then suc cb.half_open_success else cb.half_open_success;
  }

  -- Once all trials are given out: close if enough of them succeeded, else open again.
  judge_trials : ℕ → Breaker F → Breaker F
  unfolding transition_locked
  judge_trials now cb =
      if leb_ℤ cb.config.half_open_max_calls (pos cb.half_open_calls)
      then (if leb_ℤ cb.config.half_open_max_calls (pos cb.half_open_success)
          then record (transition_locked closed now cb) { consecutive_fails = 0; requests = [] }
          else transition_locked opened now cb)
      else cb

module _ {F : Type 0} (fl : FloatOps F) where
  open fl use {of_ℕ, div, leb_f, ltb_f}

  unfoldable pub apply_defaults : BreakerConfig F → BreakerConfig F
  apply_defaults cfg = record cfg {
    window_seconds = positive_or 60 cfg.window_seconds;
    failure_rate =
        if leb_f cfg.failure_rate (of_ℕ 0) || ltb_f (of_ℕ 1) cfg.failure_rate
        then div (of_ℕ 1) (of_ℕ 2)
        else cfg.failure_rate;
    consecutive_fails = positive_or 5 cfg.consecutive_fails;
    cooldown_seconds = positive_or 30 cfg.cooldown_seconds;
    half_open_max_calls = positive_or 3 cfg.half_open_max_calls;
  }

  unfoldable pub new_breaker : BreakerConfig F → ℕ → Breaker F
  unfolding apply_defaults
  new_breaker cfg now = record {
    state = closed;
    requests = [];
    consecutive_fails = 0;
    state_changed_at = now;
    half_open_calls = 0;
    half_open_success = 0;
    config = apply_defaults cfg;
  }

  -- The comparison of the failure rate, on the records that are left.
  unfoldable pub rate_reached : F → List RequestRecord → Bool
  unfolding count_failed
  rate_reached limit [] = false
  rate_reached limit (r ∷ rs) =
      leb_f limit (div (of_ℕ (count_failed 0 (r ∷ rs))) (of_ℕ (length (r ∷ rs))))

  unfoldable pub should_open_locked : Breaker F → Bool
  unfolding rate_reached
  should_open_locked cb =
      leb_ℤ cb.config.consecutive_fails (pos cb.consecutive_fails)
      || rate_reached cb.config.failure_rate cb.requests

  -- The `switch` of `RecordResult`.
  settle : BreakerState → Bool → ℕ → Breaker F → Breaker F
  unfolding transition_locked count_trial judge_trials
  settle closed success now cb =
      if should_open_locked cb then transition_locked opened now cb else cb
  settle opened success now cb = cb
  settle half_open success now cb = judge_trials now (count_trial success cb)

  unfoldable pub record_locked : Bool → ℕ → Breaker F → Breaker F
  unfolding note_result settle
  record_locked success now cb =
      if not cb.config.enabled then cb else settle cb.state success now (note_result success now cb)

  unfoldable pub record_result : Bool → ℕ → Option (Breaker F) → Option (Breaker F)
  unfolding record_locked
  record_result success now none = none
  record_result success now (some cb) = some (record_locked success now cb)
