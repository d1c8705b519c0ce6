-- ===== src/Transport/Outcome.antt =====
-- What `RoundTrip` returns, by the answers of the tries: internal/proxy/reverse_proxy.go.
use qcc_plus.Prelude.{
  ℕ, zero, suc, ℤ, pos, negsuc, ◌+◌, ◌<◌, ◌≡◌, ◌⊎◌, inl, inr, refl, sym, ◌∙◌, ap, subst, String,
  Bool, true, false, Option, none, some, ◌==◌, str_eq, arith, if◌then◌else◌,
}
use qcc_plus.Transport.Defs.{
  Read, Answer, broken, replied, Result, passed, stopped, forwarded, given_up, Transport, Tries,
  no_tries, attempt_count, kept_body, note_reply, leave, stay, one_try, turn, final_body, exhausted,
  try_loop, round_trip, from_base,
}

-- A try that does not end the loop: an error that is not the context's, or a status that is not 200.
unfoldable pub is_failure : Answer → Bool
is_failure (broken is_context e) = if is_context then false else true
is_failure (replied status body) = if status == 200 then false else true

at_or_below : (j n : ℕ) → j < suc n → (j < n) ⊎ (j ≡ n)
at_or_below j n below = ground (arith, below)

module _ (t : Transport) (answer : ℕ → Answer) where
  -- The first `n` tries were made and failed.
  abbrev pub AllFailed : ℕ → Type 0
  AllFailed n = (j : ℕ) → j < n → (t.cancelled j ≡ none) × (is_failure (answer j) ≡ true)

  abbrev status_of : Answer → Option ℕ → Option ℕ
  status_of (broken b e) old = old
  status_of (replied status body) old = some status

  -- The status of the last response among the first `n` answers.
  unfoldable pub last_status : ℕ → Option ℕ
  last_status zero = none
  last_status (suc n) = status_of (answer n) (last_status n)

  abbrev body_of : Answer → String → String
  body_of (broken b e) old = old
  body_of (replied status body) old = kept_body body old

  -- The last body among the first `n` answers that could be read and is not empty.
  unfoldable pub last_body : ℕ → String
  last_body zero = ""
  last_body (suc n) = body_of (answer n) (last_body n)

  abbrev error_of : Answer → Option String
  error_of (broken b e) = some e
  error_of (replied status body) = some (t.describe status body)

  -- The error of the last of the first `n` answers.
  unfoldable pub last_error : ℕ → Option String
  last_error zero = none
  last_error (suc n) = error_of (answer n)

  error_of-some : (a : Answer) → (e : String) × (error_of a ≡ some e)
  error_of-some (broken b e) = (e, refl)
  error_of-some (replied status body) = (t.describe status body, refl)

  last_error-some : (n : ℕ) → 0 < n → (e : String) × (last_error n ≡ some e)
  unfolding last_error
  last_error-some zero some_try = absurd (omega arith)
  last_error-some (suc n) some_try = error_of-some (answer n)

  -- What each result tells of the tries, `n` of which are allowed.
  abbrev pub Explains : ℕ → Result → Type 0
  Explains n (passed i) = (i < n) × (AllFailed i × ((body : Read) × (answer i ≡ replied 200 body)))
  Explains n (stopped e) =
      (i : ℕ) × (i < n) × (AllFailed i) × ((t.cancelled i ≡ some e) ⊎ (answer i ≡ broken true e))
  Explains n (forwarded status body tries) =
      (tries ≡ n)
      × (AllFailed n)
      × (last_status n ≡ some status)
      × (str_eq (last_body n) "" ≡ false → body ≡ last_body n)
      × (str_eq (last_body n) "" ≡ true → body ≡ t.error_json (last_error n))
  Explains n (given_up e) =
      AllFailed n
      × (last_status n ≡ none)
      × ((message : String) × (e ≡ some message) × (last_error n ≡ some message))

  -- What the variables of the loop hold after `n` failed tries.
  record IsAfter (n : ℕ) (s : Tries) : Type 0 where
    pub failed_before : AllFailed n
    pub resp : s.last_resp ≡ last_status n
    pub body : s.last_body ≡ last_body n
    pub error : s.last_err ≡ last_error n

  next_failed :
      (n : ℕ)
      → AllFailed n
      → t.cancelled n ≡ none
      → is_failure (answer n) ≡ true
      → AllFailed (suc n)
  next_failed n before going failed j below = elim (at_or_below j n below) [
    | inl less ↦ before j less
    | inr same ↦ (ap t.cancelled same ∙ going, ap (λ (k : ℕ). is_failure (answer k)) same ∙ failed)
  ]

  exhausted-Explains : (n : ℕ) (s : Tries) → 0 < n → IsAfter n s → Explains n (exhausted t n s)
  unfolding exhausted
  exhausted-Explains n s some_try h = by_resp s.last_resp refl
    where
      by_resp :
          (o : Option ℕ)
          → s.last_resp ≡ o
          → Explains n (elim o [
            | some status ↦ forwarded status (final_body t s) n
            | none ↦ given_up s.last_err
          ])
      by_resp none was =
          let (message, there) = last_error-some n some_try in
          (h.failed_before, sym h.resp ∙ was, (message, h.error ∙ there, there))
      by_resp (some status) was =
          let full : str_eq (last_body n) "" ≡ false → final_body t s ≡ last_body n =
            λ is_full. ground (arith, h.body, is_full) in
          let empty : str_eq (last_body n) "" ≡ true
              → final_body t s ≡ t.error_json (last_error n) =
            λ is_empty. ground (arith, h.body, is_empty, h.error) in
          (refl, h.failed_before, sym h.resp ∙ was, full, empty)

  -- The variables after one more try that failed.
  broken-IsAfter :
      (n : ℕ) (s : Tries) (e : String)
      → IsAfter n s
      → t.cancelled n ≡ none
      → answer n ≡ broken false e
      → IsAfter (suc n) (record s { last_err = some e })
  unfolding last_status last_body last_error is_failure
  broken-IsAfter n s e h going was = record {
    failed_before = next_failed n h.failed_before going (ap is_failure was);
    resp = h.resp ∙ sym (ap (λ (a : Answer). status_of a (last_status n)) was);
    body = h.body ∙ sym (ap (λ (a : Answer). body_of a (last_body n)) was);
    error = sym (ap error_of was);
  }

  replied-IsAfter :
      (n : ℕ) (s : Tries) (status : ℕ) (body : Read)
      → IsAfter n s
      → t.cancelled n ≡ none
      → answer n ≡ replied status body
      → (status == 200) ≡ false
      → IsAfter (suc n) (note_reply t status body s)
  unfolding last_status last_body last_error is_failure note_reply
  replied-IsAfter n s status body h going was other = record {
    failed_before =
        next_failed n h.failed_before going
          (ap is_failure was ∙ ap (λ (b : Bool). if b then false else true) other);
    resp = sym (ap (λ (a : Answer). status_of a (last_status n)) was);
    body = ap (kept_body body) h.body ∙ sym (ap (λ (a : Answer). body_of a (last_body n)) was);
    error = sym (ap error_of was);
  }

  -- What a try leads to, given what the tries behind it lead to.
  one_try-Explains :
      (n i : ℕ) (s : Tries) (a : Answer) (rest : Tries → Result)
      → i < n
      → IsAfter i s
      → t.cancelled i ≡ none
      → answer i ≡ a
      → ((s' : Tries) → IsAfter (suc i) s' → Explains n (rest s'))
      → Explains n (elim (one_try t i a s) [ leave r ↦ r | stay s' ↦ rest s' ])
  unfolding one_try
  one_try-Explains n i s (broken true e) rest below h going was later =
      (i, below, h.failed_before, inr was)
  one_try-Explains n i s (broken false e) rest below h going was later =
      later (record s { last_err = some e }) (broken-IsAfter i s e h going was)
  one_try-Explains n i s (replied status body) rest below h going was later =
      by_status (status == 200) refl
    where
      by_status :
          (b : Bool)
          → (status == 200) ≡ b
          → Explains n (elim (if b then leave (passed i) else stay (note_reply t status body s)) [
            | leave r ↦ r
            | stay s' ↦ rest s'
          ])
      by_status true good =
          (below, (h.failed_before, (body, was ∙ ap (λ (k : ℕ). replied k body) (ground arith))))
      by_status false other =
          later (note_reply t status body s) (replied-IsAfter i s status body h going was other)

  turn-Explains :
      (n i : ℕ) (s : Tries) (o : Option String) (rest : Tries → Result)
      → i < n
      → IsAfter i s
      → t.cancelled i ≡ o
      → ((s' : Tries) → IsAfter (suc i) s' → Explains n (rest s'))
      → Explains n (elim (turn t answer i o s) [ leave r ↦ r | stay s' ↦ rest s' ])
  unfolding turn
  turn-Explains n i s (some e) rest below h was later = (i, below, h.failed_before, inl was)
  turn-Explains n i s none rest below h was later =
      one_try-Explains n i s (answer i) rest below h was refl later

  try_loop-Explains :
      (n left i : ℕ) (s : Tries)
      → 0 < n
      → n ≡ left + i
      → IsAfter i s
      → Explains n (try_loop t answer left i s)
  unfolding try_loop
  try_loop-Explains n zero i s some_try whole h =
      let same : i ≡ n = omega (arith, whole) in
      let enough : 0 < i = omega (arith, some_try, whole) in
      subst (λ (k : ℕ). Explains k (exhausted t i s)) same (exhausted-Explains i s enough h)
  try_loop-Explains n (suc left) i s some_try whole h =
      turn-Explains n i s (t.cancelled i) (try_loop t answer left (suc i)) (omega (arith, whole)) h
        refl (λ s' h'. try_loop-Explains n left (suc i) s' some_try (omega (arith, whole)) h')

  nothing_tried : IsAfter 0 no_tries
  unfolding last_status last_body last_error
  nothing_tried = record {
    failed_before = λ j below. absurd (omega (arith, below));
    resp = refl;
    body = refl;
    error = refl;
  }

attempt_count-positive : (k : ℤ) → 0 < attempt_count k
unfolding attempt_count
attempt_count-positive (pos n) = ground arith
attempt_count-positive (negsuc n) = ground arith

-- Whatever the upstream answers, a call ends after at most the number of tries that is configured, at
-- least one, and its result tells which tries were made. The response of a try is returned if its
-- status is 200 and all tries before it failed; an error at once is the context's, before or in a try
-- after failed ones; a made response has the status of the last response there was, after all tries
-- failed, with the last body that could be read and is not empty, or if there is none the one made of
-- the last try's error; and an error is returned if all tries failed and none had a response, and it
-- is the error of the last try, never a missing one.
pub round_trip-Explains :
    (t : Transport) (answer : ℕ → Answer)
    → t.base ≡ some answer
    → Explains t answer (attempt_count t.attempts) (round_trip t)
unfolding round_trip from_base
round_trip-Explains t answer there =
    subst (λ o. Explains t answer (attempt_count t.attempts) (from_base t o)) (sym there)
      (try_loop-Explains t answer (attempt_count t.attempts) (attempt_count t.attempts) 0 no_tries
        (attempt_count-positive t.attempts) (omega arith) (nothing_tried t answer))
