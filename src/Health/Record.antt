-- ===== src/Health/Record.antt =====
-- internal/proxy/health.go: `recordHealthEvent` and `shouldInsertHealthRecord`; the status texts of
-- internal/proxy/api_monitor.go.
use qcc_plus.Prelude.{
  ℕ, ◌+◌, ◌*◌, ◌/◌, ℤ, pos, pos_part, String, Bool, true, false, not, ◌&&◌, ◌||◌, Option, none,
  some, str_eq, leb, ltb, ◌==◌, ltb_ℤ, leb_ℤ, if◌then◌else◌, lookup, second,
}
use qcc_plus.Server.Defs.{
  Server, Node, Metrics, Account, account_of, put_node, to_store, to_hub, insert_health,
  health_check, node_metrics, default_account_id, choose_non_empty,
}
use qcc_plus.Health.Probe.{Probe}

-- What `LatestHealthCheck` answers.
pub data Latest : Type 0 where
  lookup_failed no_record : Latest
  last_check : ℕ → Bool → Latest

-- `last.Success != success`
abbrev pub differ : Bool → Bool → Bool
differ true b = not b
differ false b = b

-- sameStateRecordGap
abbrev pub same_state_gap : ℕ
same_state_gap = 300 * second

unfoldable pub should_insert : Latest → Bool → ℕ → Bool
should_insert lookup_failed success check_time = true
should_insert no_record success check_time = true
should_insert (last_check at last_success) success check_time =
    if ltb check_time at
    then false
    else if differ last_success success
    then true
    else leb (at + same_state_gap) check_time

-- Instants are nanoseconds, and 0 is the zero time.
unfoldable pub compute_health_status : ℕ → String → ℤ → ℕ → String
compute_health_status last_check_at last_ping_err interval now =
    if ltb_ℤ (pos 0) interval
      && not (last_check_at == 0)
      && ltb (last_check_at + 2 * pos_part interval) now
    then "stale"
    else if str_eq last_ping_err ""
    then "up"
    else "down"

-- The status that `recordHealthEvent` sends to the dashboard.
unfoldable pub event_status : Bool → Bool → String → String
event_status disabled success health =
    if disabled
    then "disabled"
    else if not success || str_eq health "down"
    then "offline"
    else if str_eq health "stale"
    then "degraded"
    else "online"

-- The metrics of a node after a check.
abbrev pub check_metrics : Probe → ℕ → Metrics → Metrics
check_metrics pr check_time m = record m {
  last_health_check_at = check_time;
  last_ping_ms = if ltb 0 pr.latency then pr.latency / 1_000_000 else m.last_ping_ms;
  last_ping_err = if pr.ok then "" else pr.err;
}

-- One check as it is recorded: whose it is, how and why it was made, what it found and when. Every
-- caller gives a source and a time, so the fallbacks for an empty source and a zero time are left out.
pub record Check : Type 0 where
  pub account_id : String
  pub node_id : String
  pub method : String
  pub source : String
  pub probe : Probe
  pub at : ℕ

module _ {F : Type 0} where
  -- The row that goes to the store, unless the last row makes it superfluous.
  store_check : (String → String → Latest) → Check → Server F → Server F
  unfolding should_insert
  store_check latest c p =
      if should_insert (latest (choose_non_empty c.account_id default_account_id) c.node_id)
        c.probe.ok c.at
      then to_store
          (insert_health (choose_non_empty c.account_id default_account_id) c.node_id c.method
            c.source c.probe.ok c.probe.err c.at)
          p
      else p

  -- The dashboard message about a node that still belongs to an account.
  send_metrics : ℕ → Check → Node → Option (String × Account) → Server F → Server F
  unfolding event_status compute_health_status
  send_metrics now c n none p = p
  send_metrics now c n (some (a, acc)) p =
      let interval =
        if leb_ℤ acc.config.health_every (pos 0) then p.health_every else acc.config.health_every in
      let health =
        compute_health_status n.metrics.last_health_check_at n.metrics.last_ping_err interval now in
      to_hub
        (node_metrics (choose_non_empty c.account_id default_account_id) c.node_id
          (event_status n.disabled c.probe.ok health))
        p

  update_checked : ℕ → Check → Option Node → Server F → Server F
  unfolding send_metrics
  update_checked now c none p =
      to_hub (health_check (choose_non_empty c.account_id default_account_id) c.node_id c.probe.ok)
        p
  update_checked now c (some n) p =
      let n' = record n { metrics = check_metrics c.probe c.at n.metrics } in
      let p' = put_node c.node_id n' p in
      send_metrics now c n' (account_of p' c.node_id) (
        to_hub
          (health_check (choose_non_empty c.account_id default_account_id) c.node_id c.probe.ok) p')

  unfoldable pub record_health_event : (String → String → Latest) → ℕ → Check → Server F → Server F
  unfolding store_check update_checked
  record_health_event latest now c p =
      let p' = store_check latest c p in update_checked now c (lookup c.node_id p'.node_index) p'
