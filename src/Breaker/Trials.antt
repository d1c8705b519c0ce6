-- ===== src/Breaker/Trials.antt =====
-- The half-open state: how many requests it lets through, and how it can be left.
use qcc_plus.Prelude.{
  ℕ, suc, ◌+◌, ◌≤◌, ◌<◌, ◌≡◌, refl, pos_part, true, false, List, [], ◌∷◌, arith, if◌then◌else◌,
  has_elapsed, Bool-cases, inl, inr, map, length, ap, ◌∙◌,
}
use qcc_plus.Floats.{FloatOps}
use qcc_plus.Breaker.Defs.{
  BreakerState, BreakerConfig, closed, opened, half_open, Breaker, same_state, allow_locked,
  reset_locked, record_locked,
}
use qcc_plus.Breaker.Config.{IsPositive}
use qcc_plus.Breaker.Transitions.{Call, asks, reports, resets, step}

-- What holds of a breaker between two calls.
pub record IsValid {F : Type 0} (cb : Breaker F) : Type 0 where
  pub limits : IsPositive cb.config
  pub counted : cb.state ≡ half_open → cb.half_open_calls ≤ pos_part cb.config.half_open_max_calls
  pub entered : cb.state ≡ half_open → 0 < cb.half_open_calls

-- Requests at the given times.
abbrev pub asking : List ℕ → List (ℕ × Call)
asking = map λ t. (t, asks)

-- Each time, one request and then its success.
abbrev pub rounds : List ℕ → List (ℕ × Call)
rounds [] = []
rounds (t ∷ ts) = (t, asks) ∷ (t, reports true) ∷ rounds ts

module _ {F : Type 0} (fl : FloatOps F) where
  -- Every call, on every branch, keeps the limits positive and the number of the trials between 1
  -- and their limit while the breaker is half-open.
  pub step-IsValid : (now : ℕ) (c : Call) (cb : Breaker F) → IsValid cb → IsValid (step fl now c cb)
  unfolding step allow_locked record_locked reset_locked
  step-IsValid now asks cb v = ground arith
  step-IsValid now (reports success) cb v = ground arith
  step-IsValid now resets cb v = ground arith

  unfoldable pub run : List (ℕ × Call) → Breaker F → Breaker F
  run [] cb = cb
  run ((now, c) ∷ calls) cb = run calls (step fl now c cb)

  pub run-IsValid : (calls : List (ℕ × Call)) (cb : Breaker F) → IsValid cb → IsValid (run calls cb)
  unfolding run
  run-IsValid [] cb v = v
  run-IsValid ((now, c) ∷ calls) cb v = run-IsValid calls _ (step-IsValid now c cb v)

  -- 1 if the call is a request that a half-open breaker lets through.
  unfoldable pub admitted : ℕ → Call → Breaker F → ℕ
  admitted now asks cb = if (allow_locked now cb).1 then 1 else 0
  admitted now (reports success) cb = 0
  admitted now resets cb = 0

  -- The requests let through before the breaker leaves the half-open state.
  unfoldable pub episode : List (ℕ × Call) → Breaker F → ℕ
  episode [] cb = 0
  episode ((now, c) ∷ calls) cb =
      let rest = episode calls (step fl now c cb) in
      if same_state cb.state half_open then admitted now c cb + rest else 0

  step-counts :
      (now : ℕ) (c : Call) (cb : Breaker F)
      → cb.config.enabled ≡ true
      → cb.state ≡ half_open
      → cb.half_open_calls ≤ pos_part cb.config.half_open_max_calls
      → ((step fl now c cb).config ≡ cb.config)
        × (admitted now c cb + cb.half_open_calls ≤ pos_part cb.config.half_open_max_calls)
        × ((step fl now c cb).state ≡ half_open
            → (step fl now c cb).half_open_calls ≡ admitted now c cb + cb.half_open_calls)
  unfolding step admitted allow_locked record_locked reset_locked
  step-counts now asks cb on trial le = ground arith
  step-counts now (reports success) cb on trial le = ground arith
  step-counts now resets cb on trial le = ground arith

  episode-left :
      (calls : List (ℕ × Call)) (cb : Breaker F)
      → same_state cb.state half_open ≡ false
      → episode calls cb ≡ 0
  unfolding episode
  episode-left [] cb left = refl
  episode-left ((now, c) ∷ calls) cb left = rw left

  episode-half_open :
      (now : ℕ) (c : Call) (calls : List (ℕ × Call)) (cb : Breaker F)
      → same_state cb.state half_open ≡ true
      → episode ((now, c) ∷ calls) cb ≡ admitted now c cb + episode calls (step fl now c cb)
  unfolding episode
  episode-half_open now c calls cb here = rw here

  same_state-half_open : (s : BreakerState) → same_state s half_open ≡ true → s ≡ half_open
  same_state-half_open s h = ground arith

  -- In one stay in the half-open state, whatever requests and results arrive in whatever order, a
  -- valid, enabled breaker lets through at most as many requests as its limit leaves.
  pub episode-bound :
      (calls : List (ℕ × Call)) (cb : Breaker F)
      → IsValid cb
      → cb.config.enabled ≡ true
      → cb.state ≡ half_open
      → cb.half_open_calls + episode calls cb ≤ pos_part cb.config.half_open_max_calls
  unfolding episode
  episode-bound [] cb v on trial = ground arith
  episode-bound ((now, c) ∷ calls) cb v on trial =
      let next = step fl now c cb in
      let (same, fits, counts) = step-counts now c cb on trial (v.counted trial) in
      let unrolled = episode-half_open now c calls cb (rw trial) in
      elim (Bool-cases (same_state next.state half_open)) [
        | inl still ↦
            let here = same_state-half_open next.state still in
            omega (
              arith,
              unrolled,
              counts here,
              ap (λ (k : BreakerConfig F). pos_part k.half_open_max_calls) same,
              episode-bound calls next (step-IsValid now c cb v)
                  (ap (λ (k : BreakerConfig F). k.enabled) same ∙ on) here,
            )
        | inr left ↦ omega (arith, unrolled, episode-left calls next left)
      ]

  ask_rejected :
      (cb : Breaker F) (now : ℕ)
      → cb.config.enabled ≡ true
      → cb.state ≡ half_open
      → pos_part cb.config.half_open_max_calls ≤ cb.half_open_calls
      → allow_locked now cb ≡ (cb, false)
  unfolding allow_locked
  ask_rejected cb now on trial full = ground arith

  step-rejected :
      (cb : Breaker F) (now : ℕ)
      → cb.config.enabled ≡ true
      → cb.state ≡ half_open
      → pos_part cb.config.half_open_max_calls ≤ cb.half_open_calls
      → step fl now asks cb ≡ cb
  unfolding step
  step-rejected cb now on trial full = ap (λ p. p.0) (ask_rejected cb now on trial full)

  run-asking-rejected :
      (times : List ℕ) (cb : Breaker F)
      → cb.config.enabled ≡ true
      → cb.state ≡ half_open
      → pos_part cb.config.half_open_max_calls ≤ cb.half_open_calls
      → run (asking times) cb ≡ cb
  unfolding run
  run-asking-rejected [] cb on trial full = refl
  run-asking-rejected (t ∷ times) cb on trial full =
      ap (run (asking times)) (step-rejected cb t on trial full)
      ∙ run-asking-rejected times cb on trial full

  -- Once all trials are given out, a half-open breaker whose trials report no result rejects
  -- every request and never changes again, however much time passes.
  pub half_open_stuck :
      (times : List ℕ) (cb : Breaker F) (now : ℕ)
      → cb.config.enabled ≡ true
      → cb.state ≡ half_open
      → pos_part cb.config.half_open_max_calls ≤ cb.half_open_calls
      → (run (asking times) cb ≡ cb) × (allow_locked now (run (asking times) cb) ≡ (cb, false))
  half_open_stuck times cb now on trial full =
      let same = run-asking-rejected times cb on trial full in
      (same, ap (allow_locked now) same ∙ ask_rejected cb now on trial full)

  -- The breaker `cb'` has given out `given` more trials than `cb`, and has no result of them.
  record HasGiven (given : ℕ) (cb cb' : Breaker F) : Type 0 where
    pub config : cb'.config ≡ cb.config
    pub trial : cb'.state ≡ half_open
    pub calls : cb'.half_open_calls ≡ given + cb.half_open_calls
    pub success : cb'.half_open_success ≡ cb.half_open_success

  -- Trials that succeeded one after the other.
  pub record OnTrack (left : ℕ) (cb : Breaker F) : Type 0 where
    pub on : cb.config.enabled ≡ true
    pub trial : cb.state ≡ half_open
    pub all_good : cb.half_open_success ≡ cb.half_open_calls
    pub remaining : cb.half_open_calls + left ≡ pos_part cb.config.half_open_max_calls

  round-OnTrack :
      (t left : ℕ) (cb : Breaker F)
      → OnTrack (suc (suc left)) cb
      → OnTrack (suc left) (step fl t (reports true) (step fl t asks cb))
  unfolding step allow_locked record_locked
  round-OnTrack t left cb o = ground arith

  last_round :
      (t : ℕ) (cb : Breaker F)
      → OnTrack 1 cb
      → (step fl t (reports true) (step fl t asks cb)).state ≡ closed
  unfolding step allow_locked record_locked
  last_round t cb o = ground arith

  run-rounds :
      (t : ℕ) (ts : List ℕ) (cb : Breaker F)
      → OnTrack (suc (length ts)) cb
      → (run (rounds (t ∷ ts)) cb).state ≡ closed
  unfolding run
  run-rounds t [] cb o = last_round t cb o
  run-rounds t (u ∷ ts) cb o = run-rounds u ts _ (round-OnTrack t (length ts) cb o)

  first_round :
      (t : ℕ) (left : ℕ) (cb : Breaker F)
      → cb.config.enabled ≡ true
      → cb.state ≡ opened
      → has_elapsed cb.state_changed_at cb.config.cooldown_seconds t ≡ true
      → pos_part cb.config.half_open_max_calls ≡ suc (suc left)
      → OnTrack (suc left) (step fl t (reports true) (step fl t asks cb))
  unfolding step allow_locked record_locked
  first_round t left cb on opn cooled n = ground arith

  only_round :
      (t : ℕ) (cb : Breaker F)
      → cb.config.enabled ≡ true
      → cb.state ≡ opened
      → has_elapsed cb.state_changed_at cb.config.cooldown_seconds t ≡ true
      → pos_part cb.config.half_open_max_calls ≡ 1
      → (step fl t (reports true) (step fl t asks cb)).state ≡ closed
  unfolding step allow_locked record_locked
  only_round t cb on opn cooled n = ground arith

  -- An open breaker recovers: after its cooldown, as many requests as the trial limit that succeed
  -- one after the other close it.
  pub recovers_in_sequence :
      (t : ℕ) (ts : List ℕ) (cb : Breaker F)
      → cb.config.enabled ≡ true
      → cb.state ≡ opened
      → has_elapsed cb.state_changed_at cb.config.cooldown_seconds t ≡ true
      → pos_part cb.config.half_open_max_calls ≡ length (t ∷ ts)
      → (run (rounds (t ∷ ts)) cb).state ≡ closed
  unfolding run
  recovers_in_sequence t [] cb on opn cooled n = only_round t cb on opn cooled n
  recovers_in_sequence t (u ∷ ts) cb on opn cooled n =
      run-rounds u ts _ (first_round t (length ts) cb on opn cooled n)
