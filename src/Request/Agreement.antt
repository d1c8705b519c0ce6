-- ===== src/Request/Agreement.antt =====
-- A request keeps a node's `Failed` and its account's `FailedSet` in agreement:
-- internal/proxy/handler.go.
use qcc_plus.Prelude.{
  ℤ, ℕ, zero, suc, ◌-◌, ◌==◌, ◌≡◌, leb_ℤ, pos, String, Bool, true, false, not, ◌&&◌, Option, none,
  some, ◌∷◌, arith, if◌then◌else◌, lookup,
}
use qcc_plus.Floats.{FloatOps}
use qcc_plus.Server.Defs.{Server, Node, Account}
use qcc_plus.Health.Probe.{Probe}
use qcc_plus.Health.Record.{Check, record_health_event}
use qcc_plus.Select.Warmup.{World}
use qcc_plus.Select.Pick.{select_healthy_excluding}
use qcc_plus.Recovery.Failing.{should_fail, handle_failure}
use qcc_plus.Recovery.Coherent.{IsCoherent, record_health_event-IsCoherent}
use qcc_plus.Recovery.Agreement.{same_maps, if-IsCoherent, handle_failure-IsCoherent}
use qcc_plus.Request.Metrics.{Attempt}
use qcc_plus.Request.Loop.{
  RetryConfig, Upstream, Progress, Ending, served, gave_up, has_failed, should_retry,
  attempt_timeout, skipping, is_context_error, report_to_breaker, note_failure, note_attempt,
  after_attempt, try_attempt, if_allowed, ask_breaker, on_node, serve_loop, serve, max_loops,
}
use qcc_plus.Request.Flags.{record_metrics-IsCoherent, should_fail-IsCoherent}

module _ {F : Type 0} (fl : FloatOps F) (w : World) (cfg : RetryConfig) (up : Upstream) where
  pub report_to_breaker-maps :
      (n : Node) (t : Attempt) (p : Server F)
      → let q = report_to_breaker fl w cfg up n t p in
        (q.node_index ≡ p.node_index)
        × (q.node_account ≡ p.node_account)
        × (q.account_by_id ≡ p.account_by_id)
  unfolding report_to_breaker
  report_to_breaker-maps n t p = ground arith

  pub ask_breaker-maps :
      (now : ℕ) (n : Node) (p : Server F)
      → let q = (ask_breaker fl w cfg up now n p).0 in
        (q.node_index ≡ p.node_index)
        × (q.node_account ≡ p.node_account)
        × (q.account_by_id ≡ p.account_by_id)
  unfolding ask_breaker
  ask_breaker-maps now n p = ground arith

  note_attempt-IsCoherent :
      (n : Node) (k : ℕ) (first_failed : Bool) (t : Attempt) (p : Server F)
      → IsCoherent p
      → IsCoherent (note_attempt fl w cfg up n k first_failed t p)
  unfolding note_attempt
  note_attempt-IsCoherent n k first_failed t p h = record_metrics-IsCoherent n.id t _ _ _ p h

  note_failure-IsCoherent :
      (acc : Account) (n : Node) (k : ℕ) (t : Attempt) (p : Server F)
      → IsCoherent p
      → IsCoherent (note_failure fl w cfg up acc n k t p)
  unfolding note_failure
  note_failure-IsCoherent acc n k t p h =
      let pr : Probe = record { ok = false; err = t.error; latency = t.ended - t.started } in
      let c : Check = record {
        account_id = acc.id;
        node_id = n.id;
        method = "proxy";
        source = "proxy_fail";
        probe = pr;
        at = t.ended;
      } in
      let p1 = record_health_event w.latest t.ended c p in
      let h1 = record_health_event-IsCoherent w.latest t.ended c p h in
      let p2 = (should_fail n.id t.error p1).0 in
      let h2 = should_fail-IsCoherent n.id t.error p1 h1 in
      if-IsCoherent ((should_fail n.id t.error p1).1 && leb_ℤ cfg.max_attempts (pos k))
        (handle_failure fl w t.ended n.id t.error p2) p2
        (handle_failure-IsCoherent fl w t.ended n.id t.error p2 h2) h2

  -- The calls for the next node that the loop relies on.
  abbrev GoesOn : (Progress → Server F → Server F × Ending) → Type 0
  GoesOn again = (s : Progress) (p : Server F) → IsCoherent p → IsCoherent (again s p).0

  either-IsCoherent :
      (b : Bool) (r r' : Server F × Ending)
      → IsCoherent r.0
      → IsCoherent r'.0
      → IsCoherent (if b then r else r').0
  either-IsCoherent true r r' h k = h
  either-IsCoherent false r r' h k = k

  after_attempt-IsCoherent :
      (again : Progress → Server F → Server F × Ending) (acc : Account) (n : Node) (s : Progress)
      (t : Attempt) (p : Server F)
      → GoesOn again
      → IsCoherent p
      → IsCoherent (after_attempt fl w cfg up again acc n s t p).0
  unfolding after_attempt
  after_attempt-IsCoherent again acc n s t p rest h =
      let k = suc s.attempt in
      let first_failed = if k == 1 then has_failed t else s.first_failed in
      let p1 = report_to_breaker fl w cfg up n t p in
      let h1 = same_maps p p1 (report_to_breaker-maps n t p) h in
      let p2 = note_attempt fl w cfg up n k first_failed t p1 in
      let h2 = note_attempt-IsCoherent n k first_failed t p1 h1 in
      let p3 = note_failure fl w cfg up acc n k t p2 in
      let h3 = note_failure-IsCoherent acc n k t p2 h2 in
      let s' : Progress = record {
        skip = n.id ∷ s.skip;
        attempt = k;
        first_failed = first_failed;
        loops = suc s.loops;
      } in
      either-IsCoherent (not (has_failed t)) (p2, served n.id) _ h2
        (either-IsCoherent (is_context_error t) (p2, gave_up n.id) _ h2
          (either-IsCoherent (should_retry cfg t) (again s' p3) (p3, gave_up n.id) (rest s' p3 h3)
            h3))

  try_attempt-IsCoherent :
      (again : Progress → Server F → Server F × Ending) (acc : Account) (n : Node) (s : Progress)
      (o : Option ℤ) (p : Server F)
      → GoesOn again
      → IsCoherent p
      → IsCoherent (try_attempt fl w cfg up again acc n s o p).0
  unfolding try_attempt
  try_attempt-IsCoherent again acc n s none p rest h = h
  try_attempt-IsCoherent again acc n s (some timeout) p rest h =
      after_attempt-IsCoherent again acc n s (up.answer s.attempt n.id timeout) p rest h

  if_allowed-IsCoherent :
      (again : Progress → Server F → Server F × Ending) (acc : Account) (n : Node) (s : Progress)
      (o : Option ℤ) (ok : Bool) (p : Server F)
      → GoesOn again
      → IsCoherent p
      → IsCoherent (if_allowed fl w cfg up again acc n s o ok p).0
  unfolding if_allowed
  if_allowed-IsCoherent again acc n s o true p rest h =
      try_attempt-IsCoherent again acc n s o p rest h
  if_allowed-IsCoherent again acc n s o false p rest h = rest (skipping n.id s) p h

  on_node-IsCoherent :
      (again : Progress → Server F → Server F × Ending) (now : ℕ) (deadline : Option ℕ)
      (acc : Account) (o : Option Node) (s : Progress) (p : Server F)
      → GoesOn again
      → IsCoherent p
      → IsCoherent (on_node fl w cfg up again now deadline acc o s p).0
  unfolding on_node
  on_node-IsCoherent again now deadline acc none s p rest h = h
  on_node-IsCoherent again now deadline acc (some n) s p rest h =
      let (p', ok) = ask_breaker fl w cfg up now n p in
      if_allowed-IsCoherent again acc n s (attempt_timeout cfg deadline s.attempt now) ok p' rest
        (same_maps p p' (ask_breaker-maps now n p) h)

  serve_loop-IsCoherent :
      (left : ℕ) (deadline : Option ℕ) (a : String) (acc : Account) (s : Progress) (p : Server F)
      → IsCoherent p
      → IsCoherent (serve_loop fl w cfg up left deadline a acc s p).0
  unfolding serve_loop
  serve_loop-IsCoherent zero deadline a acc s p h = h
  serve_loop-IsCoherent (suc left) deadline a acc s p h =
      on_node-IsCoherent (serve_loop fl w cfg up left deadline a acc) (up.clock s.loops) deadline
        acc (select_healthy_excluding p (lookup a p.account_by_id) s.skip) s p
        (λ s' p' h'. serve_loop-IsCoherent left deadline a acc s' p' h') h

  -- If every node of a known account is in the account's failed set exactly when it is marked failed,
  -- then this still holds after a request, whatever the upstreams answer: over all its attempts, the
  -- breakers that are asked and told, the metrics and the failures that are handled.
  pub serve-IsCoherent :
      (now : ℕ) (a : String) (acc : Account) (p : Server F)
      → IsCoherent p
      → IsCoherent (serve fl w cfg up now a acc p).0
  unfolding serve
  serve-IsCoherent now a acc p h = serve_loop-IsCoherent (max_loops acc) _ a acc _ p h
