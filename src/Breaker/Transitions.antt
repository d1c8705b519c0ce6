-- ===== src/Breaker/Transitions.antt =====
-- The state machine of circuit_breaker.go: which changes of state the methods make, and when.
use qcc_plus.Prelude.{
  ℕ, suc, ◌≡◌, refl, pos, Bool, true, false, arith, if◌then◌else◌, leb_ℤ, has_elapsed,
}
use qcc_plus.Floats.{FloatOps}
use qcc_plus.Breaker.Defs.{
  BreakerState, closed, opened, half_open, Breaker, note_result, allow_locked, reset_locked,
  record_locked, should_open_locked,
}

-- A call of one of the methods that change a breaker.
pub data Call : Type 0 where
  asks : Call
  reports : Bool → Call
  resets : Call

module _ {F : Type 0} where
  -- The successes of the trials, with one more result counted in.
  abbrev pub successes : Bool → Breaker F → ℕ
  successes success cb = if success then suc cb.half_open_success else cb.half_open_success

module _ {F : Type 0} (fl : FloatOps F) where
  unfoldable pub step : ℕ → Call → Breaker F → Breaker F
  step now asks cb = (allow_locked now cb).0
  step now (reports success) cb = record_locked fl success now cb
  step now resets cb = reset_locked now cb

  -- The diagram of the comments in the code: what each change of state needs.
  pub data Edge (now : ℕ) (c : Call) (cb : Breaker F) : BreakerState → BreakerState → Type 0 where
    trip :
        (success : Bool)
        → c ≡ reports success
        → should_open_locked fl (note_result success now cb) ≡ true
        → Edge now c cb closed opened
    cool :
        c ≡ asks
        → has_elapsed cb.state_changed_at cb.config.cooldown_seconds now ≡ true
        → Edge now c cb opened half_open
    recover :
        (success : Bool)
        → c ≡ reports success
        → leb_ℤ cb.config.half_open_max_calls (pos cb.half_open_calls) ≡ true
        → leb_ℤ cb.config.half_open_max_calls (pos (successes success cb)) ≡ true
        → Edge now c cb half_open closed
    relapse :
        (success : Bool)
        → c ≡ reports success
        → leb_ℤ cb.config.half_open_max_calls (pos cb.half_open_calls) ≡ true
        → leb_ℤ cb.config.half_open_max_calls (pos (successes success cb)) ≡ false
        → Edge now c cb half_open opened
    cleared : {s : BreakerState} → c ≡ resets → Edge now c cb s closed
    stay : {s : BreakerState} → Edge now c cb s s

  asks-Edge :
      (now : ℕ) (cb : Breaker F) (s : BreakerState)
      → cb.state ≡ s
      → Edge now asks cb s (allow_locked now cb).0.state
  unfolding allow_locked
  asks-Edge now cb closed e = grind (arith, stay)
  asks-Edge now cb opened e = grind (arith, stay, cool)
  asks-Edge now cb half_open e = grind (arith, stay)

  reports-Edge :
      (success : Bool) (now : ℕ) (cb : Breaker F) (s : BreakerState)
      → cb.state ≡ s
      → Edge now (reports success) cb s (record_locked fl success now cb).state
  unfolding record_locked
  reports-Edge success now cb closed e = grind (arith, stay, trip success)
  reports-Edge success now cb opened e = grind (arith, stay)
  reports-Edge success now cb half_open e = grind (arith, stay, recover success, relapse success)

  -- Each call either leaves the state as it is or follows an edge of the diagram: only a result
  -- opens a closed breaker, only a request after the cooldown makes an open one half-open, only
  -- a result after all trials were given out closes or opens a half-open one, and only `Reset`
  -- closes a breaker in any other way.
  pub step-Edge :
      (now : ℕ) (c : Call) (cb : Breaker F) → Edge now c cb cb.state (step now c cb).state
  unfolding step reset_locked
  step-Edge now asks cb = asks-Edge now cb cb.state refl
  step-Edge now (reports success) cb = reports-Edge success now cb cb.state refl
  step-Edge now resets cb = cleared refl
