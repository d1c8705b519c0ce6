-- ===== src/Transport/Defs.antt =====
-- `retryTransport.RoundTrip`: internal/proxy/reverse_proxy.go. The answers of the base transport and
-- the state of the request's context before each try are parameters; the waits between the tries and
-- the log are left out.
use qcc_plus.Prelude.{
  ℕ, zero, suc, ℤ, pos, pos_part, ltb_ℤ, String, Bool, true, false, Option, none, some, ◌==◌,
  str_eq, if◌then◌else◌,
}

-- What reading at most 4096 bytes of a body gives.
pub data Read : Type 0 where
  bytes : String → Read
  read_error : String → Read

-- What the base transport answers: an error, which may be the context's, or a response.
pub data Answer : Type 0 where
  broken : Bool → String → Answer
  replied : ℕ → Read → Answer

-- What `RoundTrip` returns: the response of a try, an error at once, the last status with a body after
-- the given number of tries, or the last error.
pub data Result : Type 0 where
  passed : ℕ → Result
  stopped : String → Result
  forwarded : ℕ → String → ℕ → Result
  given_up : Option String → Result

-- `base` is missing or answers the tries; `describe` is the text of the error of a response that is not
-- 200, `error_json` the body made of an error.
pub record Transport : Type 0 where
  pub base : Option (ℕ → Answer)
  pub attempts : ℤ
  pub cancelled : ℕ → Option String
  pub describe : ℕ → Read → String
  pub error_json : Option String → String

-- The variables of the loop.
pub record Tries : Type 0 where
  pub last_resp : Option ℕ
  pub last_err : Option String
  pub last_body : String

abbrev pub no_tries : Tries
no_tries = record { last_resp = none; last_err = none; last_body = "" }

-- The number of tries is at least one.
unfoldable pub attempt_count : ℤ → ℕ
attempt_count n = if ltb_ℤ n (pos 1) then 1 else pos_part n

-- A body that is read and is not empty replaces the one kept before.
abbrev pub kept_body : Read → String → String
kept_body (bytes b) old = if str_eq b "" then old else b
kept_body (read_error e) old = old

unfoldable pub note_reply : Transport → ℕ → Read → Tries → Tries
note_reply t status body s = record s {
  last_resp = some status;
  last_err = some (t.describe status body);
  last_body = kept_body body s.last_body;
}

-- The end of the loop: a result at once, or the variables for the next try.
pub data Turn : Type 0 where
  leave : Result → Turn
  stay : Tries → Turn

unfoldable pub one_try : Transport → ℕ → Answer → Tries → Turn
unfolding note_reply
one_try t i (broken true e) s = leave (stopped e)
one_try t i (broken false e) s = stay (record s { last_err = some e })
one_try t i (replied status body) s =
    if status == 200 then leave (passed i) else stay (note_reply t status body s)

unfoldable pub turn : Transport → (ℕ → Answer) → ℕ → Option String → Tries → Turn
unfolding one_try
turn t answer i (some e) s = leave (stopped e)
turn t answer i none s = one_try t i (answer i) s

-- The body of the response that is made after the last try.
abbrev pub final_body : Transport → Tries → String
final_body t s = if str_eq s.last_body "" then t.error_json s.last_err else s.last_body

unfoldable pub exhausted : Transport → ℕ → Tries → Result
exhausted t attempts s = elim s.last_resp [
  | some status ↦ forwarded status (final_body t s) attempts
  | none ↦ given_up s.last_err
]

-- The tries `i`, `i + 1` and so on, `left` of them.
unfoldable pub try_loop : Transport → (ℕ → Answer) → ℕ → ℕ → Tries → Result
unfolding turn exhausted
try_loop t answer zero i s = exhausted t i s
try_loop t answer (suc left) i s = elim (turn t answer i (t.cancelled i) s) [
  | leave r ↦ r
  | stay s' ↦ try_loop t answer left (suc i) s'
]

unfoldable pub from_base : Transport → Option (ℕ → Answer) → Result
unfolding try_loop attempt_count
from_base t none = given_up (some "nil base transport")
from_base t (some answer) = try_loop t answer (attempt_count t.attempts) 0 no_tries

unfoldable pub round_trip : Transport → Result
unfolding from_base
round_trip t = from_base t t.base

-- A failure is published once all tries are used up and one of them has left an error.
unfoldable pub publishes : Result → Bool
publishes (passed i) = false
publishes (stopped e) = false
publishes (forwarded status body n) = true
publishes (given_up none) = false
publishes (given_up (some e)) = true
