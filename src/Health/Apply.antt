-- ===== src/Health/Apply.antt =====
-- internal/proxy/health.go: what `checkNodeHealth` does under the lock with the result of a probe,
-- and server.go: the breaker of a node.
use qcc_plus.Prelude.{
  ℕ, ◌+◌, ◌/◌, ℤ, pos, String, Bool, not, ◌&&◌, Option, none, some, str_eq, ltb, ◌==◌,
  if◌then◌else◌, lookup, insert, add_key, remove_key,
}
use mathlib.Core.Option
use qcc_plus.Floats.{FloatOps}
use qcc_plus.Breaker.Defs.{Breaker, new_breaker, reset_locked}
use qcc_plus.Server.Defs.{
  Server, Node, Metrics, Account, Env, account_of, account_node, put_node, put_account, to_store,
  to_hub, to_notify, upsert_node, publish, node_failed, node_status, choose_non_empty,
}
use qcc_plus.Health.Probe.{Probe, Outside, probe_node, probe_method}
use qcc_plus.Health.Record.{Check, Latest, record_health_event}

-- The largest Go `int`: the weight that stands for "no active node".
abbrev pub max_int : ℤ
max_int = pos 9_223_372_036_854_775_807

-- What `checkNodeHealth` notes under the lock for its decisions after it.
pub record Noted : Type 0 where
  pub was_failed : Bool
  pub active_id : String
  pub active_weight : ℤ

-- The node after a check at `now`.
abbrev pub checked_metrics : Probe → ℕ → Metrics → Metrics
checked_metrics pr now m = record m {
  last_health_check_at = now;
  last_ping_ms = if ltb 0 pr.latency then pr.latency / 1_000_000 else m.last_ping_ms;
  last_ping_err = if pr.ok then "" else pr.err;
  fail_streak = if pr.ok then 0 else if m.fail_streak == 0 then 1 else m.fail_streak;
}

abbrev pub checked_node : Probe → ℕ → Node → Node
checked_node pr now n = record n {
  failed = not pr.ok;
  last_error = if pr.ok then "" else pr.err;
  metrics = checked_metrics pr now n.metrics;
}

-- The account's `FailedSet` after a check of one of its nodes.
abbrev pub checked_account : Probe → String → Account → Account
checked_account pr id acc = record acc {
  failed_set = if pr.ok then remove_key id acc.failed_set else add_key id acc.failed_set;
}

module _ {F : Type 0} where
  note_active : Server F → Option (String × Account) → Node → Noted
  note_active p none n = record { was_failed = n.failed; active_id = ""; active_weight = max_int }
  note_active p (some (a, acc)) n = record {
    was_failed = n.failed;
    active_id = acc.active_id;
    active_weight = elim (account_node p acc acc.active_id) [ none ↦ max_int | some a ↦ a.weight ];
  }

  mark_account : Probe → String → Option (String × Account) → Server F → Server F
  mark_account pr id none p = p
  mark_account pr id (some (a, acc)) p = put_account a (checked_account pr id acc) p

  -- The messages about a node that was found down: one to the dashboard if it was up before, and a
  -- notification if it is the active one.
  report_down : Probe → String → Node → Option (String × Account) → Server F → Server F
  report_down pr id n none p = p
  report_down pr id n (some (a, acc)) p =
      let p' = if n.failed then p else to_hub (node_status acc.id n.id n.name "offline" none) p in
      if str_eq id acc.active_id then to_notify (publish acc.id node_failed n.id) p' else p'

  unfoldable pub put_breaker : String → Breaker F → Server F → Server F
  put_breaker id cb p = record p { circuit_breakers = insert id cb p.circuit_breakers }

module _ {F : Type 0} (fl : FloatOps F) where
  unfoldable pub get_or_create_breaker : ℕ → String → Server F → Server F × Breaker F
  get_or_create_breaker now id p = elim (lookup id p.circuit_breakers) [
    | some cb ↦ (p, cb)
    | none ↦
        let cb = new_breaker fl p.cb_config now in
        (record p { circuit_breakers = insert id cb p.circuit_breakers }, cb)
  ]

  -- A node that is up gets its breaker reset, if breakers are in use.
  reset_breaker : Probe → ℕ → String → Server F → Server F
  unfolding get_or_create_breaker put_breaker
  reset_breaker pr now id p =
      if pr.ok && p.cb_config.enabled
      then (let (p', cb) = get_or_create_breaker now id p in
          put_breaker id (reset_locked now cb) p')
      else p

  apply_to : Probe → ℕ → String → Option (String × Account) → Node → Server F → Server F
  unfolding mark_account reset_breaker report_down
  apply_to pr now id acc n p =
      let n' = checked_node pr now n in
      let p' = reset_breaker pr now id (mark_account pr id acc (put_node id n' p)) in
      to_store (upsert_node n') (if pr.ok then p' else report_down pr id n acc p')

  -- The part of `checkNodeHealth` under the lock, with the write to the store behind it. `none`
  -- says that the node is no longer there.
  unfoldable pub apply_check : Probe → ℕ → String → Server F → Server F × Option Noted
  unfolding apply_to note_active
  apply_check pr now id p = elim (lookup id p.node_index) [
    | none ↦ (p, none)
    | some n ↦ (apply_to pr now id (account_of p id) n p, some (note_active p (account_of p id) n))
  ]

  unfoldable pub check_found :
      Env
      → Outside
      → (String → String → Latest)
      → ℕ
      → String
      → Account
      → String
      → Option Node
      → Server F
      → Server F × Option (Probe × Noted)
  unfolding probe_node probe_method record_health_event apply_check
  check_found env out latest now source acc id none p = (p, none)
  check_found env out latest now source acc id (some n) p =
      let pr = probe_node env out n in
      let c : Check = record {
        account_id = choose_non_empty n.account_id acc.id;
        node_id = n.id;
        method = probe_method env n;
        source = source;
        probe = pr;
        at = now + pr.latency;
      } in
      let (p', noted) = apply_check pr now id (record_health_event latest (now + pr.latency) c p) in
      (p', Option.map (λ k. (pr, k)) noted)

  unfoldable pub check_in :
      Env
      → Outside
      → (String → String → Latest)
      → ℕ
      → String
      → Option Account
      → String
      → Server F
      → Server F × Option (Probe × Noted)
  unfolding check_found
  check_in env out latest now source none id p = (p, none)
  check_in env out latest now source (some acc) id p =
      check_found env out latest now source acc id (account_node p acc id) p

  -- `checkNodeHealth` up to that point: find the node, probe it, record the check, apply it. The
  -- clock stands at `now` before the probe and at `now` plus its duration behind it.
  unfoldable pub check_node :
      Env
      → Outside
      → (String → String → Latest)
      → ℕ
      → String
      → String
      → String
      → Server F
      → Server F × Option (Probe × Noted)
  unfolding check_in
  check_node env out latest now source a id p =
      check_in env out latest now source (lookup a p.account_by_id) id p
