-- ===== src/Request/Loop.antt =====
-- internal/proxy/handler.go: the loop of a request to /v1/messages over the nodes of an account.
use qcc_plus.Prelude.{
  eq_ℤ, ℕ, zero, suc, ◌+◌, ◌*◌, ◌-◌, ℤ, pos, String, Bool, true, false, not, ◌&&◌, ◌||◌, Option,
  none, some, List, [], ◌∷◌, ◌==◌, ltb, leb, leb_ℤ, ltb_ℤ, pos_part, if◌then◌else◌, lookup, length,
  get_elem?,
}
use qcc_plus.Floats.{FloatOps}
use qcc_plus.Breaker.Defs.{allow_locked, record_locked}
use qcc_plus.Server.Defs.{Server, Node, Account}
use qcc_plus.Health.Probe.{Probe}
use qcc_plus.Health.Record.{Check, record_health_event}
use qcc_plus.Health.Apply.{get_or_create_breaker, put_breaker}
use qcc_plus.Select.Warmup.{World}
use qcc_plus.Select.Pick.{select_healthy_excluding}
use qcc_plus.Recovery.Failing.{should_fail, handle_failure}
use qcc_plus.Request.Metrics.{Attempt, record_metrics}

-- `RetryConfig`; a duration is a number of nanoseconds that may be negative.
pub record RetryConfig : Type 0 where
  pub max_attempts : ℤ
  pub backoff_min : ℤ
  pub backoff_max : ℤ
  pub retry_on_status : List ℤ
  pub per_request_timeout : ℤ
  pub per_attempt_timeouts : List ℤ
  pub total_timeout : ℤ

-- `shouldRetryStatus`
unfoldable pub should_retry_status : ℕ → List ℤ → Bool
should_retry_status status [] = false
should_retry_status status (s ∷ ss) = eq_ℤ (pos status) s || should_retry_status status ss

abbrev pub is_context_error : Attempt → Bool
is_context_error t = t.status == 499 || t.status == 504

-- `statusForRetry`
abbrev retry_status : Attempt → ℕ
retry_status t = if t.upstream == 0 then t.status else t.upstream

abbrev pub has_failed : Attempt → Bool
has_failed t = not (t.status == 200) || leb 500 (retry_status t)

abbrev pub should_retry : RetryConfig → Attempt → Bool
should_retry cfg t =
    has_failed t
    && leb 500 (retry_status t)
    && should_retry_status (retry_status t) cfg.retry_on_status
    && not (is_context_error t)

-- How a request ends: with the answer of a node, with the answer of a node that failed and is not
-- retried, because its time is over, or because no node is left.
pub data Ending : Type 0 where
  served gave_up : String → Ending
  out_of_time all_unavailable : Ending

-- What the loop meets outside: the clock, and what the upstream makes of an attempt at a node within a
-- timeout.
pub record Upstream : Type 0 where
  pub clock : ℕ → ℕ
  pub answer : ℕ → String → ℤ → Attempt

-- The variables of the loop.
pub record Progress : Type 0 where
  pub skip : List String
  pub attempt : ℕ
  pub first_failed : Bool
  pub loops : ℕ

-- `overallDeadline`
abbrev pub overall_deadline : RetryConfig → ℕ → Option ℕ
overall_deadline cfg now =
    if ltb_ℤ (pos 0) cfg.total_timeout then some (now + pos_part cfg.total_timeout) else none

-- The timeout of the next attempt, `none` if the deadline is over.
unfoldable pub attempt_timeout : RetryConfig → Option ℕ → ℕ → ℕ → Option ℤ
attempt_timeout cfg deadline attempt now =
    let own : ℤ = elim (get_elem? cfg.per_attempt_timeouts attempt) [
      | none ↦ cfg.per_request_timeout
      | some d ↦ d
    ] in
    elim deadline [
      | none ↦ some own
      | some end ↦
          if leb end now
          then none
          else if ltb_ℤ (pos (end - now)) own
          then some (pos (end - now))
          else some own
    ]

abbrev pub skipping : String → Progress → Progress
skipping id s = record s { skip = id ∷ s.skip; loops = suc s.loops }

-- `maxLoops`
abbrev pub max_loops : Account → ℕ
max_loops acc = if ltb (length acc.nodes * 2) 20 then 20 else length acc.nodes * 2

module _ {F : Type 0} (fl : FloatOps F) (w : World) (cfg : RetryConfig) (up : Upstream) where
  -- A result for the breaker, unless it is a context error.
  unfoldable pub report_to_breaker : Node → Attempt → Server F → Server F
  unfolding get_or_create_breaker put_breaker
  report_to_breaker n t p =
      if p.cb_config.enabled && not (is_context_error t)
      then (let (p', cb) = get_or_create_breaker fl t.ended n.id p in
          put_breaker n.id (record_locked fl (not (has_failed t)) t.ended cb) p')
      else p

  -- The failure is recorded, counted, and on the last attempt handled.
  unfoldable pub note_failure : Account → Node → ℕ → Attempt → Server F → Server F
  unfolding record_health_event should_fail handle_failure
  note_failure acc n attempt t p =
      let pr : Probe = record { ok = false; err = t.error; latency = t.ended - t.started } in
      let c : Check = record {
        account_id = acc.id;
        node_id = n.id;
        method = "proxy";
        source = "proxy_fail";
        probe = pr;
        at = t.ended;
      } in
      let (p', reached) = should_fail n.id t.error (record_health_event w.latest t.ended c p) in
      if reached && leb_ℤ cfg.max_attempts (pos attempt)
      then handle_failure fl w t.ended n.id t.error p'
      else p'

  -- The metrics of an attempt, which is the `attempt`-th.
  unfoldable pub note_attempt : Node → ℕ → Bool → Attempt → Server F → Server F
  unfolding record_metrics
  note_attempt n attempt first_failed t p =
      let final =
        not (has_failed t) || not (should_retry cfg t) || leb_ℤ cfg.max_attempts (pos attempt) in
      record_metrics n.id t (if final then attempt else 0)
        (if final && not (has_failed t) && first_failed then 1 else 0) final p

  -- Behind the attempt: the request ends, or `again` goes on with the next node.
  unfoldable pub after_attempt :
      (Progress → Server F → Server F × Ending)
      → Account
      → Node
      → Progress
      → Attempt
      → Server F
      → Server F × Ending
  unfolding report_to_breaker note_attempt note_failure
  after_attempt again acc n s t p =
      let attempt = suc s.attempt in
      let first_failed = if attempt == 1 then has_failed t else s.first_failed in
      let p' = note_attempt n attempt first_failed t (report_to_breaker n t p) in
      let p'' = note_failure acc n attempt t p' in
      let next =
        again
          (record {
            skip = n.id ∷ s.skip;
            attempt = attempt;
            first_failed = first_failed;
            loops = suc s.loops;
          })
          p'' in
      if not (has_failed t)
      then (p', served n.id)
      else if is_context_error t
      then (p', gave_up n.id)
      else if should_retry cfg t
      then next
      else (p'', gave_up n.id)

  unfoldable pub try_attempt :
      (Progress → Server F → Server F × Ending)
      → Account
      → Node
      → Progress
      → Option ℤ
      → Server F
      → Server F × Ending
  unfolding after_attempt
  try_attempt again acc n s none p = (p, out_of_time)
  try_attempt again acc n s (some timeout) p =
      after_attempt again acc n s (up.answer s.attempt n.id timeout) p

  -- The breaker's answer: the node is tried, or skipped without an attempt.
  unfoldable pub if_allowed :
      (Progress → Server F → Server F × Ending)
      → Account
      → Node
      → Progress
      → Option ℤ
      → Bool
      → Server F
      → Server F × Ending
  unfolding try_attempt
  if_allowed again acc n s timeout true p = try_attempt again acc n s timeout p
  if_allowed again acc n s timeout false p = again (skipping n.id s) p

  -- The breaker is asked, if breakers are in use.
  unfoldable pub ask_breaker : ℕ → Node → Server F → Server F × Bool
  unfolding get_or_create_breaker put_breaker
  ask_breaker now n p =
      if p.cb_config.enabled
      then (let (p', cb) = get_or_create_breaker fl now n.id p in
          let (cb', ok) = allow_locked now cb in (put_breaker n.id cb' p', ok))
      else (p, true)

  unfoldable pub on_node :
      (Progress → Server F → Server F × Ending)
      → ℕ
      → Option ℕ
      → Account
      → Option Node
      → Progress
      → Server F
      → Server F × Ending
  unfolding ask_breaker if_allowed attempt_timeout
  on_node again now deadline acc none s p = (p, all_unavailable)
  on_node again now deadline acc (some n) s p =
      let (p', ok) = ask_breaker now n p in
      if_allowed again acc n s (attempt_timeout cfg deadline s.attempt now) ok p'

  -- The loop; `left` counts the rounds up to `maxLoops`, and `acc` is the account behind `a`, of which
  -- the loop reads the id.
  unfoldable pub serve_loop :
      ℕ → Option ℕ → String → Account → Progress → Server F → Server F × Ending
  unfolding on_node select_healthy_excluding
  serve_loop zero deadline a acc s p = (p, all_unavailable)
  serve_loop (suc left) deadline a acc s p =
      on_node (serve_loop left deadline a acc) (up.clock s.loops) deadline acc
        (select_healthy_excluding p (lookup a p.account_by_id) s.skip) s p

  -- The request as a whole, for an account that is found.
  unfoldable pub serve : ℕ → String → Account → Server F → Server F × Ending
  unfolding serve_loop
  serve now a acc p =
      serve_loop (max_loops acc) (overall_deadline cfg now) a acc
        (record { skip = []; attempt = 0; first_failed = false; loops = 0 }) p
