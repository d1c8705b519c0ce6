-- ===== src/Breaker/Tests.antt =====
-- A breaker with the default configuration, and the theorems at concrete inputs.
use qcc_plus.Prelude.{◌+◌, ◌≤◌, ◌≡◌, refl, pos, negsuc, true, false, [], ◌∷◌, arith}
use qcc_plus.Floats.{Fraction, fractions}
use qcc_plus.Breaker.Defs.{
  closed, opened, half_open, Breaker, BreakerConfig, note_result, apply_defaults, new_breaker,
  allow_locked,
}
use qcc_plus.Breaker.Config.{IsPositive}
use qcc_plus.Breaker.Window.{requests-note_result}
use qcc_plus.Breaker.Transitions.{asks, reports, step, Edge, step-Edge}
use qcc_plus.Breaker.Trials.{
  IsValid, step-IsValid, run, episode, episode-bound, asking, half_open_stuck, rounds,
  recovers_in_sequence,
}
use qcc_plus.Breaker.Opening.{fail_at, failures_open, IsClean, succeed_at, successes_stay_closed}

-- `loadCircuitBreakerConfig` with an empty environment, in nanoseconds.
abbrev defaults : BreakerConfig Fraction
defaults = record {
  enabled = true;
  window_seconds = pos 60;
  failure_rate = record { num = 1; den = 2 };
  consecutive_fails = pos 5;
  cooldown_seconds = pos 30;
  half_open_max_calls = pos 3;
}

abbrev fresh : Breaker Fraction
fresh = record {
  state = closed;
  requests = [];
  consecutive_fails = 0;
  state_changed_at = 0;
  half_open_calls = 0;
  half_open_success = 0;
  config = defaults;
}

abbrev tripped : Breaker Fraction
tripped = record fresh { state = opened; consecutive_fails = 5 }

-- One trial is under way.
abbrev trying : Breaker Fraction
trying = record tripped {
  state = half_open;
  half_open_calls = 1;
  state_changed_at = 30_000_000_000;
}

-- All three trials are under way.
abbrev full : Breaker Fraction
full = record trying { half_open_calls = 3 }

limits : IsPositive defaults
limits = omega arith

trying-IsValid : IsValid trying
trying-IsValid = record { limits = limits; counted = λ _. omega arith; entered = λ _. omega arith }

fresh_config :
    apply_defaults fractions
      (record defaults { window_seconds = negsuc 0; half_open_max_calls = pos 0 })
    ≡ defaults
unfolding apply_defaults
fresh_config = refl

new_breaker_test : new_breaker fractions defaults 0 ≡ fresh
unfolding new_breaker
new_breaker_test = refl

cooldown_not_over : allow_locked 29_999_999_999 tripped ≡ (tripped, false)
unfolding allow_locked
cooldown_not_over = refl

cooldown_over : allow_locked 30_000_000_000 tripped ≡ (trying, true)
unfolding allow_locked
cooldown_over = refl

-- Two records of which the first has grown too old when a result comes at 61 s.
abbrev aged : Breaker Fraction
aged = record fresh {
  requests =
      record { timestamp = 0; failed = true }
      ∷ record { timestamp = 2_000_000_000; failed = false }
      ∷ [];
}

requests-note_result_example :
    (note_result true 61_000_000_000 aged).requests
    ≡ record { timestamp = 2_000_000_000; failed = false }
      ∷ record { timestamp = 61_000_000_000; failed = false }
      ∷ []
requests-note_result_example =
    requests-note_result true 61_000_000_000 aged (omega arith) (omega arith)

step-Edge_example :
    Edge fractions 30_000_000_000 asks tripped opened
      (step fractions 30_000_000_000 asks tripped).state
step-Edge_example = step-Edge fractions 30_000_000_000 asks tripped

step-IsValid_example : IsValid (step fractions 31_000_000_000 asks trying)
step-IsValid_example = step-IsValid fractions 31_000_000_000 asks trying trying-IsValid

-- Four more requests, of which two are let through.
episode-bound_example :
    1 + episode fractions ((31, asks) ∷ (32, asks) ∷ (33, asks) ∷ (34, reports true) ∷ []) trying
    ≤ 3
episode-bound_example =
    episode-bound fractions ((31, asks) ∷ (32, asks) ∷ (33, asks) ∷ (34, reports true) ∷ []) trying
      trying-IsValid refl refl

half_open_stuck_example :
    (run fractions (asking (40 ∷ 50 ∷ [])) full ≡ full)
    × (allow_locked 1_000_000_000_000 (run fractions (asking (40 ∷ 50 ∷ [])) full) ≡ (full, false))
half_open_stuck_example =
    half_open_stuck fractions (40 ∷ 50 ∷ []) full 1_000_000_000_000 refl refl (omega arith)

recovers_in_sequence_example :
    (run fractions (rounds (30_000_000_000 ∷ 31_000_000_000 ∷ 32_000_000_000 ∷ [])) tripped).state
    ≡ closed
recovers_in_sequence_example =
    recovers_in_sequence fractions 30_000_000_000 (31_000_000_000 ∷ 32_000_000_000 ∷ []) tripped
      refl refl refl refl

failures_open_example : (fail_at fractions (1 ∷ 2 ∷ 3 ∷ 4 ∷ 5 ∷ []) fresh).state ≡ opened
failures_open_example = failures_open fractions 1 (2 ∷ 3 ∷ 4 ∷ 5 ∷ []) fresh refl refl (omega arith)

fresh-IsClean : IsClean fractions fresh
fresh-IsClean = record {
  shut = refl;
  clean = refl;
  threshold = omega arith;
  rate = λ n some_records. ground (arith, some_records);
}

successes_stay_closed_example : (succeed_at fractions (1 ∷ 2 ∷ 3 ∷ []) fresh).state ≡ closed
successes_stay_closed_example = successes_stay_closed fractions (1 ∷ 2 ∷ 3 ∷ []) fresh fresh-IsClean
