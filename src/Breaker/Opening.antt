-- ===== src/Breaker/Opening.antt =====
-- When a closed breaker opens, and when it stays closed: internal/proxy/circuit_breaker.go.
use qcc_plus.Prelude.{
  ℤ, ◌++◌, Bool-cases, subst, sym, ◌⊎◌, inl, inr, ℕ, suc, ◌+◌, ◌≤◌, ◌≡◌, refl, pos_part, Bool, true,
  false, List, [], ◌∷◌, arith, length, countb, ◌<◌, ap, ◌∙◌,
}
use qcc_plus.Floats.{FloatOps}
use qcc_plus.Breaker.Defs.{
  closed, opened, Breaker, BreakerConfig, note_result, record_locked, should_open_locked,
  rate_reached, RequestRecord, count_failed, trim,
}
use qcc_plus.Breaker.Window.{count_failed-eq-countb}

module _ {F : Type 0} (fl : FloatOps F) where
  open fl use {of_ℕ, div, leb_f}

  -- A run of results, all of them successes, at the given times.
  unfoldable pub succeed_at : List ℕ → Breaker F → Breaker F
  succeed_at [] cb = cb
  succeed_at (t ∷ ts) cb = succeed_at ts (record_locked fl true t cb)

  -- A closed breaker with no failure in its window, whose thresholds are above zero.
  pub record IsClean (cb : Breaker F) : Type 0 where
    pub shut : cb.state ≡ closed
    pub clean : countb (λ (r : RequestRecord). r.failed) cb.requests ≡ 0
    pub threshold : 0 < pos_part cb.config.consecutive_fails
    pub rate : (n : ℕ) → 0 < n → leb_f cb.config.failure_rate (div (of_ℕ 0) (of_ℕ n)) ≡ false

  rate_reached_clean :
      (limit : F) (rs : List RequestRecord)
      → countb (λ (r : RequestRecord). r.failed) rs ≡ 0
      → ((n : ℕ) → 0 < n → leb_f limit (div (of_ℕ 0) (of_ℕ n)) ≡ false)
      → rate_reached fl limit rs ≡ false
  unfolding rate_reached
  rate_reached_clean limit [] clean rate = refl
  rate_reached_clean limit (r ∷ rs) clean rate =
      let none_failed : count_failed 0 (r ∷ rs) ≡ 0 =
        omega (arith, count_failed-eq-countb 0 (r ∷ rs), clean) in
      ap (λ (k : ℕ). leb_f limit (div (of_ℕ k) (of_ℕ (length (r ∷ rs))))) none_failed
      ∙ rate (length (r ∷ rs)) (omega arith)

  trim_clean :
      (w : ℤ) (now : ℕ) (rs : List RequestRecord)
      → countb (λ (r : RequestRecord). r.failed) rs ≡ 0
      → countb (λ (r : RequestRecord). r.failed) (trim w now rs) ≡ 0
  unfolding trim
  trim_clean w now [] clean = refl
  trim_clean w now (r ∷ rs) clean = ground (arith, clean, trim_clean w now rs)

  appended_clean :
      (rs : List RequestRecord) (t : ℕ)
      → countb (λ (r : RequestRecord). r.failed) rs ≡ 0
      → countb
          (λ (r : RequestRecord). r.failed)
          (rs ++ (record { timestamp = t; failed = false } ∷ []))
        ≡ 0
  appended_clean [] t clean = omega arith
  appended_clean (r ∷ rs) t clean = ground (arith, clean, appended_clean rs t)

  note_result-IsClean : (t : ℕ) (cb : Breaker F) → IsClean cb → IsClean (note_result true t cb)
  unfolding note_result
  note_result-IsClean t cb h = record {
    shut = h.shut;
    clean =
        trim_clean cb.config.window_seconds t
          (cb.requests ++ (record { timestamp = t; failed = false } ∷ []))
          (appended_clean cb.requests t h.clean);
    threshold = h.threshold;
    rate = h.rate;
  }

  clean-stays :
      (cb : Breaker F) → IsClean cb → cb.consecutive_fails ≡ 0 → should_open_locked fl cb ≡ false
  unfolding should_open_locked
  clean-stays cb h no_run = ground (
    arith,
    no_run,
    h.threshold,
    rate_reached_clean cb.config.failure_rate cb.requests h.clean h.rate,
  )

  no_run_after_success : (t : ℕ) (cb : Breaker F) → (note_result true t cb).consecutive_fails ≡ 0
  unfolding note_result
  no_run_after_success t cb = refl

  record_locked-success :
      (t : ℕ) (cb : Breaker F)
      → IsClean cb
      → cb.config.enabled ≡ true
      → record_locked fl true t cb ≡ note_result true t cb
  unfolding record_locked
  record_locked-success t cb h on =
      let noted = note_result-IsClean t cb h in
      let stays = clean-stays (note_result true t cb) noted (no_run_after_success t cb) in
      ground (arith, on, h.shut, stays)

  record_locked-disabled :
      (success : Bool) (t : ℕ) (cb : Breaker F)
      → cb.config.enabled ≡ false
      → record_locked fl success t cb ≡ cb
  unfolding record_locked
  record_locked-disabled success t cb off = ground (arith, off)

  success-IsClean : (t : ℕ) (cb : Breaker F) → IsClean cb → IsClean (record_locked fl true t cb)
  success-IsClean t cb h = elim (Bool-cases cb.config.enabled) [
    | inl on ↦ subst IsClean (sym (record_locked-success t cb h on)) (note_result-IsClean t cb h)
    | inr off ↦ subst IsClean (sym (record_locked-disabled true t cb off)) h
  ]

  -- Successes never open a breaker: one that is closed, with no failure in its window and thresholds
  -- above zero, is closed after any run of successes at any times, enabled or not, if the share of no
  -- failures among some records is below the failure rate.
  pub successes_stay_closed :
      (ts : List ℕ) (cb : Breaker F) → IsClean cb → (succeed_at ts cb).state ≡ closed
  unfolding succeed_at
  successes_stay_closed [] cb h = h.shut
  successes_stay_closed (t ∷ ts) cb h =
      successes_stay_closed ts (record_locked fl true t cb) (success-IsClean t cb h)

  -- A run of results, all of them failures, at the given times.
  unfoldable pub fail_at : List ℕ → Breaker F → Breaker F
  fail_at [] cb = cb
  fail_at (t ∷ ts) cb = fail_at ts (record_locked fl false t cb)

  fail_at-opened :
      (ts : List ℕ) (cb : Breaker F) → cb.state ≡ opened → (fail_at ts cb).state ≡ opened
  unfolding fail_at record_locked
  fail_at-opened [] cb e = e
  fail_at-opened (t ∷ ts) cb e = fail_at-opened ts _ (ground arith)

  -- What one failure does to a closed breaker.
  fail_once :
      (t : ℕ) (cb : Breaker F)
      → cb.config.enabled ≡ true
      → cb.state ≡ closed
      → ((record_locked fl false t cb).state ≡ opened)
        ⊎ (((record_locked fl false t cb).state ≡ closed)
            × (suc cb.consecutive_fails < pos_part cb.config.consecutive_fails)
            × ((record_locked fl false t cb).consecutive_fails ≡ suc cb.consecutive_fails)
            × ((record_locked fl false t cb).config ≡ cb.config))
  unfolding record_locked should_open_locked
  fail_once t cb on shut = ground arith

  -- As many failures in a row as the threshold asks for open a closed breaker, whenever they come
  -- and whatever the window holds.
  pub failures_open :
      (t : ℕ) (ts : List ℕ) (cb : Breaker F)
      → cb.config.enabled ≡ true
      → cb.state ≡ closed
      → pos_part cb.config.consecutive_fails ≤ cb.consecutive_fails + length (t ∷ ts)
      → (fail_at (t ∷ ts) cb).state ≡ opened
  unfolding fail_at
  failures_open t [] cb on shut enough = elim (fail_once t cb on shut) [
    | inl done ↦ done
    | inr rest ↦ absurd (omega arith)
  ]
  failures_open t (u ∷ ts) cb on shut enough =
      let after = record_locked fl false t cb in
      elim (fail_once t cb on shut) [
        | inl done ↦ fail_at-opened (u ∷ ts) after done
        | inr (still, below, counted, same) ↦
            failures_open u ts after (ap (λ (k : BreakerConfig F). k.enabled) same ∙ on) still (
              omega
                (arith, counted, ap (λ (k : BreakerConfig F). pos_part k.consecutive_fails) same))
      ]
