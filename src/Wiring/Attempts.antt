-- ===== src/Wiring/Attempts.antt =====
-- What an attempt at a node does keeps the wiring: internal/proxy/handler.go and
-- internal/proxy/metrics.go.
use qcc_plus.Prelude.{
  ℕ, ◌-◌, ◌==◌, ◌≡◌, refl, ◌∙◌, ap, inl, inr, pos, leb_ℤ, String, Bool, true, false, ◌&&◌, Option,
  none, some, List, lookup, insert, remove_key, Bool-cases, if◌then◌else◌,
}
use qcc_plus.Floats.{FloatOps}
use qcc_plus.Server.Defs.{Server, Node, Account, account_of}
use qcc_plus.Health.Probe.{Probe}
use qcc_plus.Health.Record.{Check, record_health_event}
use qcc_plus.Health.Keeps.{account_of-lookup, record_health_event-Keeps}
use qcc_plus.Select.Warmup.{World}
use qcc_plus.Recovery.Failing.{should_fail, failed_again, handle_failure}
use qcc_plus.Request.Metrics.{Attempt, served_node, clear_served, record_found, record_metrics}
use qcc_plus.Request.Flags.{record_found-frame, clear_served-accounts, should_fail-maps}
use qcc_plus.Request.Loop.{RetryConfig, Upstream, report_to_breaker, note_failure, note_attempt}
use qcc_plus.Request.Agreement.{report_to_breaker-maps}
use qcc_plus.Wiring.Same.{
  SameWiring, SameWiring-refl, SameWiring-trans, Keeps-SameWiring, wired_node, wired_both,
  wired_maps,
}
use qcc_plus.Wiring.Search.{handle_failure-SameWiring}

module _ {F : Type 0} where
  pub if-SameWiring :
      (b : Bool) (p q r : Server F)
      → SameWiring p q
      → SameWiring p r
      → SameWiring p (if b then q else r)
  if-SameWiring true p q r h k = h
  if-SameWiring false p q r h k = k

  record_found-SameWiring :
      (t : Attempt) (k s : ℕ) (final : Bool) (id : String) (n : Node) (p : Server F)
      (o : Option (String × Account))
      → lookup id p.node_index ≡ some n
      → account_of p id ≡ o
      → SameWiring p (record_found t k s final id (some n) p)
  unfolding clear_served
  record_found-SameWiring t k s final id n p none there owner =
      let (index, owners, accounts) = record_found-frame t k s final id n p in
      wired_node p (record_found t k s final id (some n) p) id n (served_node t n) index owners
        (accounts
          ∙ ap (λ (o : Option (String × Account)). (clear_served t id o p).account_by_id) owner)
        there refl
  record_found-SameWiring t k s final id n p (some (a, acc)) there owner =
      let (index, owners, accounts) = record_found-frame t k s final id n p in
      let q = record_found t k s final id (some n) p in
      let acc' = record acc { failed_set = remove_key id acc.failed_set } in
      let accounts' =
        accounts
        ∙ ap (λ (o : Option (String × Account)). (clear_served t id o p).account_by_id) owner
        ∙ clear_served-accounts t id a acc p in
      let written : Bool → List (String × Account) =
        λ b. if b then insert a acc' p.account_by_id else p.account_by_id in
      elim (Bool-cases (t.status == 200)) [
        | inl ok ↦
            wired_both p q id a n (served_node t n) acc acc' index owners
              (accounts' ∙ ap written ok) there refl (account_of-lookup p id a acc owner) refl
        | inr bad ↦
            wired_node p q id n (served_node t n) index owners (accounts' ∙ ap written bad) there
              refl
      ]

  record_metrics-SameWiring :
      (id : String) (t : Attempt) (k s : ℕ) (final : Bool) (p : Server F)
      → SameWiring p (record_metrics id t k s final p)
  unfolding record_metrics record_found
  record_metrics-SameWiring id t k s final p = from (lookup id p.node_index) refl
    where
      from :
          (o : Option Node)
          → lookup id p.node_index ≡ o
          → SameWiring p (record_found t k s final id o p)
      from none gone = SameWiring-refl p
      from (some n) there = record_found-SameWiring t k s final id n p (account_of p id) there refl

  should_fail-SameWiring : (id err : String) (p : Server F) → SameWiring p (should_fail id err p).0
  should_fail-SameWiring id err p =
      let (owners, accounts, index) = should_fail-maps id err p in
      elim index [
        | inl same ↦ wired_maps p (should_fail id err p).0 (same, owners, accounts)
        | inr (n, there, written) ↦
            wired_node p (should_fail id err p).0 id n (failed_again err n) written owners accounts
              there refl
      ]

module _ {F : Type 0} (fl : FloatOps F) (w : World) (cfg : RetryConfig) (up : Upstream) where
  note_attempt-SameWiring :
      (n : Node) (k : ℕ) (first_failed : Bool) (t : Attempt) (p : Server F)
      → SameWiring p (note_attempt fl w cfg up n k first_failed t p)
  unfolding note_attempt
  note_attempt-SameWiring n k first_failed t p = record_metrics-SameWiring n.id t _ _ _ p

  note_failure-SameWiring :
      (acc : Account) (n : Node) (k : ℕ) (t : Attempt) (p : Server F)
      → SameWiring p (note_failure fl w cfg up acc n k t p)
  unfolding note_failure
  note_failure-SameWiring acc n k t p =
      let pr : Probe = record { ok = false; err = t.error; latency = t.ended - t.started } in
      let c : Check = record {
        account_id = acc.id;
        node_id = n.id;
        method = "proxy";
        source = "proxy_fail";
        probe = pr;
        at = t.ended;
      } in
      let p1 = record_health_event w.latest t.ended c p in
      let h1 = Keeps-SameWiring p p1 (record_health_event-Keeps w.latest t.ended c p) in
      let p2 = (should_fail n.id t.error p1).0 in
      let h2 = SameWiring-trans p p1 p2 h1 (should_fail-SameWiring n.id t.error p1) in
      let p3 = handle_failure fl w t.ended n.id t.error p2 in
      if-SameWiring ((should_fail n.id t.error p1).1 && leb_ℤ cfg.max_attempts (pos k)) p p3 p2
        (SameWiring-trans p p2 p3 h2 (handle_failure-SameWiring fl w t.ended n.id t.error p2)) h2

  -- An attempt, with all that is noted about it, keeps the wiring.
  pub attempt-SameWiring :
      (acc : Account) (n : Node) (k : ℕ) (first_failed : Bool) (t : Attempt) (p : Server F)
      → let p1 = report_to_breaker fl w cfg up n t p in
        let p2 = note_attempt fl w cfg up n k first_failed t p1 in
        SameWiring p p2 × SameWiring p (note_failure fl w cfg up acc n k t p2)
  attempt-SameWiring acc n k first_failed t p =
      let p1 = report_to_breaker fl w cfg up n t p in
      let p2 = note_attempt fl w cfg up n k first_failed t p1 in
      let h1 = wired_maps p p1 (report_to_breaker-maps fl w cfg up n t p) in
      let h2 = SameWiring-trans p p1 p2 h1 (note_attempt-SameWiring n k first_failed t p1) in
      (
        h2,
        SameWiring-trans p p2 (note_failure fl w cfg up acc n k t p2) h2
            (note_failure-SameWiring acc n k t p2),
      )
