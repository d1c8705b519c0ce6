-- ===== src/Recovery/Failing.antt =====
-- internal/proxy/health.go: `shouldFail` and `handleFailure`.
use qcc_plus.Prelude.{
  ℕ, suc, ℤ, pos, pos_part, String, Bool, true, false, not, Option, none, some, ltb, ◌==◌, ltb_ℤ,
  if◌then◌else◌, lookup, add_key,
}
use qcc_plus.Floats.{FloatOps}
use qcc_plus.Server.Defs.{
  Server, Node, Account, account_of, put_node, put_account, to_store, to_hub, to_notify,
  upsert_node, publish, node_failed, node_status, choose_non_empty,
}
use qcc_plus.Select.Warmup.{World}
use qcc_plus.Select.Activate.{reselect}

-- `failLimit`, at least 1.
abbrev pub streak_limit : ℤ → ℕ
streak_limit limit = if ltb_ℤ limit (pos 1) then 1 else pos_part limit

-- A node with one more failure in a row.
abbrev pub failed_again : String → Node → Node
failed_again err n = record n {
  metrics = record n.metrics { fail_streak = suc n.metrics.fail_streak };
  last_error = choose_non_empty err "unknown error";
}

-- A node that is marked failed.
abbrev pub marked_failed : String → Node → Node
marked_failed err n = record n {
  metrics = record n.metrics {
    fail_streak = if n.metrics.fail_streak == 0 then 1 else n.metrics.fail_streak;
  };
  last_error = choose_non_empty err "unknown error";
  failed = true;
}

module _ {F : Type 0} where
  -- `shouldFail`: the state with the failure counted, and whether the threshold is reached.
  unfoldable pub should_fail : String → String → Server F → Server F × Bool
  should_fail id err p = elim (lookup id p.node_index) [
    | none ↦ (p, false)
    | some n ↦ (
      put_node id (failed_again err n) p,
      not (ltb (suc n.metrics.fail_streak) (streak_limit p.fail_limit)),
    )
  ]

  unfoldable pub mark_in_account : String → Option (String × Account) → Server F → Server F
  mark_in_account id none p = p
  mark_in_account id (some (a, acc)) p =
      put_account a (record acc { failed_set = add_key id acc.failed_set }) p

  unfoldable pub report_failed : String → Node → Option (String × Account) → Server F → Server F
  report_failed id n none p = p
  report_failed id n (some (a, acc)) p =
      to_hub (node_status acc.id id n.name "offline" none)
        (to_notify (publish acc.id node_failed n.id) p)

  -- `handleFailure` up to the switch.
  unfoldable pub mark_failed : String → String → Node → Server F → Server F
  unfolding mark_in_account report_failed
  mark_failed id err n p =
      let n' = marked_failed err n in
      report_failed id n' (account_of p id)
        (to_store (upsert_node n') (mark_in_account id (account_of p id) (put_node id n' p)))

module _ {F : Type 0} (fl : FloatOps F) (w : World) (now : ℕ) where
  -- A switch for the account behind a pointer, which may be nil.
  unfoldable pub reselect_for : Option (String × Account) → Server F → Server F
  unfolding reselect
  reselect_for none p = p
  reselect_for (some (a, acc)) p = (reselect fl w now a p).0

  unfoldable pub handle_found : String → String → Option Node → Server F → Server F
  unfolding mark_failed reselect_for
  handle_found id err none p = p
  handle_found id err (some n) p = reselect_for (account_of p id) (mark_failed id err n p)

  unfoldable pub handle_failure : String → String → Server F → Server F
  unfolding handle_found
  handle_failure id err p = handle_found id err (lookup id p.node_index) p
