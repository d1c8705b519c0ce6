-- ===== src/Breaker/Window.antt =====
-- The sliding window of `RecordResult`, against the set of the records that are young enough.
use qcc_plus.Prelude.{
  ℕ, suc, ◌+◌, ◌≤◌, ◌≡◌, refl, ℤ, Bool, true, not, List, [], ◌∷◌, ◌++◌, arith, if◌then◌else◌,
  filterb, countb, All, is_within, inl, inr, Bool-cases,
}
use qcc_plus.Breaker.Defs.{Breaker, RequestRecord, trim, count_failed, note_result, record_locked}
use qcc_plus.Floats.{FloatOps}

-- Oldest first.
abbrev pub IsChronological : List RequestRecord → Type 0
IsChronological [] = Unit {0}
IsChronological (r ∷ rs) = All (λ s. r.timestamp ≤ s.timestamp) rs × IsChronological rs

-- The records that are not older than the window.
abbrev pub recent : ℤ → ℕ → List RequestRecord → List RequestRecord
recent w now = filterb λ r. is_within w now r.timestamp

recent-All :
    (w : ℤ) (now t : ℕ) (rs : List RequestRecord)
    → is_within w now t ≡ true
    → All (λ s. t ≤ s.timestamp) rs
    → recent w now rs ≡ rs
recent-All w now t [] young later = refl
recent-All w now t (r ∷ rs) young later = ground (arith, recent-All w now t rs young later.1)

pub trim-eq-recent :
    (w : ℤ) (now : ℕ) (rs : List RequestRecord)
    → IsChronological rs
    → trim w now rs ≡ recent w now rs
unfolding trim
trim-eq-recent w now [] ordered = refl
trim-eq-recent w now (r ∷ rs) ordered = elim (Bool-cases (is_within w now r.timestamp)) [
  | inl young ↦ ground (arith, recent-All w now r.timestamp rs young ordered.0)
  | inr old ↦ ground (arith, trim-eq-recent w now rs ordered.1)
]

All-append_one :
    (t : ℕ) (r : RequestRecord) (rs : List RequestRecord)
    → All (λ s. t ≤ s.timestamp) rs
    → t ≤ r.timestamp
    → All (λ s. t ≤ s.timestamp) (rs ++ r ∷ [])
All-append_one t r [] h last = (last, tt)
All-append_one t r (s ∷ rs) h last = (h.0, All-append_one t r rs h.1 last)

pub IsChronological-append :
    (r : RequestRecord) (rs : List RequestRecord)
    → IsChronological rs
    → All (λ s. s.timestamp ≤ r.timestamp) rs
    → IsChronological (rs ++ r ∷ [])
IsChronological-append r [] ordered early = (tt, tt)
IsChronological-append r (s ∷ rs) ordered early = (
  All-append_one s.timestamp r rs ordered.0 early.0,
  IsChronological-append r rs ordered.1 early.1,
)

-- With the records in the order of time and a clock that does not run backwards, the window after a
-- result holds exactly those records, the new one included, that are not older than the window.
pub requests-note_result :
    {F : Type 0} (success : Bool) (now : ℕ) (cb : Breaker F)
    → IsChronological cb.requests
    → All (λ s. s.timestamp ≤ now) cb.requests
    → (note_result success now cb).requests
      ≡ recent cb.config.window_seconds now
          (cb.requests ++ record { timestamp = now; failed = not success } ∷ [])
unfolding note_result
requests-note_result success now cb ordered early =
    trim-eq-recent _ now _ (IsChronological-append _ cb.requests ordered early)

-- The counting loop adds the number of the failed records to where it starts.
pub count_failed-eq-countb :
    (n : ℕ) (rs : List RequestRecord) → count_failed n rs ≡ n + countb (λ r. r.failed) rs
unfolding count_failed
count_failed-eq-countb n [] = omega arith
count_failed-eq-countb n (r ∷ rs) =
    ground (arith, count_failed-eq-countb (if r.failed then suc n else n) rs)

-- The records are in the order of time, and none is younger than `t`.
pub record IsOrdered {F : Type 0} (t : ℕ) (cb : Breaker F) : Type 0 where
  pub ordered : IsChronological cb.requests
  pub early : All (λ s. s.timestamp ≤ t) cb.requests

All-trim :
    (P : RequestRecord → Type 0) (w : ℤ) (now : ℕ) (rs : List RequestRecord)
    → All P rs
    → All P (trim w now rs)
unfolding trim
All-trim P w now [] h = tt
All-trim P w now (r ∷ rs) h = elim (Bool-cases (is_within w now r.timestamp)) [
  | inl young ↦ rw young h
  | inr old ↦ rw old (All-trim P w now rs h.1)
]

IsChronological-trim :
    (w : ℤ) (now : ℕ) (rs : List RequestRecord)
    → IsChronological rs
    → IsChronological (trim w now rs)
unfolding trim
IsChronological-trim w now [] h = tt
IsChronological-trim w now (r ∷ rs) h = elim (Bool-cases (is_within w now r.timestamp)) [
  | inl young ↦ rw young h
  | inr old ↦ rw old (IsChronological-trim w now rs h.1)
]

All-append_le :
    (t now : ℕ) (r : RequestRecord) (rs : List RequestRecord)
    → t ≤ now
    → r.timestamp ≤ now
    → All (λ s. s.timestamp ≤ t) rs
    → All (λ s. s.timestamp ≤ now) (rs ++ r ∷ [])
All-append_le t now r [] le new h = (new, tt)
All-append_le t now r (s ∷ rs) le new h = (omega arith, All-append_le t now r rs le new h.1)

All-le :
    (t now : ℕ) (rs : List RequestRecord)
    → t ≤ now
    → All (λ s. s.timestamp ≤ t) rs
    → All (λ s. s.timestamp ≤ now) rs
All-le t now [] le h = tt
All-le t now (r ∷ rs) le h = (omega arith, All-le t now rs le h.1)

note_result-IsOrdered :
    {F : Type 0} (success : Bool) (t now : ℕ) (cb : Breaker F)
    → t ≤ now
    → IsOrdered t cb
    → IsOrdered now (note_result success now cb)
unfolding note_result
note_result-IsOrdered success t now cb le o = record {
  ordered =
      IsChronological-trim _ now _
        (IsChronological-append _ cb.requests o.ordered (All-le t now cb.requests le o.early));
  early = All-trim _ _ now _ (All-append_le t now _ cb.requests le (omega arith) o.early);
}

-- Every result that is recorded, at a clock that does not run backwards, keeps the window in the
-- order of time.
pub record_locked-IsOrdered :
    {F : Type 0} (fl : FloatOps F) (success : Bool) (t now : ℕ) (cb : Breaker F)
    → t ≤ now
    → IsOrdered t cb
    → IsOrdered now (record_locked fl success now cb)
unfolding record_locked
record_locked-IsOrdered fl success t now cb le o =
    let noted = note_result-IsOrdered success t now cb le o in
    let kept = All-le t now cb.requests le o.early in ground (arith, noted, kept)
