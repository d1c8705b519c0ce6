-- ===== src/Request/Metrics.antt =====
-- internal/proxy/metrics.go: `recordMetrics` and `buildMetricsRecord`. The writer and the usage are
-- never nil where the request loop calls them.
use qcc_plus.Prelude.{
  ℕ, suc, ◌+◌, ◌-◌, ◌/◌, ℤ, pos, ◌+ℤ◌, String, Bool, false, not, ◌&&◌, ◌||◌, Option, none, some,
  str_eq, ◌==◌, ltb_ℤ, if◌then◌else◌, lookup, remove_key,
}
use qcc_plus.Server.Defs.{
  Server, Node, Metrics, Account, MetricsRecord, account_of, put_node, put_account, to_store,
  to_hub, upsert_node, insert_metrics, insert_usage, node_status, node_metrics, choose_non_empty,
  default_account_id,
}
use qcc_plus.Health.Record.{compute_health_status, event_status}

-- What one attempt left in the `metricsWriter` and the `usage`: the status, the upstream's status
-- from the header (0 if there is none), the error message, when it began and ended, the times of the
-- first and the last write if anything was written, the bytes and the tokens.
pub record Attempt : Type 0 where
  pub status : ℕ
  pub upstream : ℕ
  pub error : String
  pub started : ℕ
  pub ended : ℕ
  pub written : Option (ℕ × ℕ)
  pub bytes : ℕ
  pub input : ℤ
  pub output : ℤ
  pub model_id : String
  pub request_id : String

-- `d.Milliseconds()` of the duration between two instants of a clock that does not run backwards.
abbrev ms_between : ℕ → ℕ → ℕ
ms_between from to = (to - from) / 1_000_000

unfoldable pub build_metrics_record : String → String → Attempt → ℕ → ℕ → MetricsRecord
build_metrics_record account_id node_id t attempts success = record {
  account_id = account_id;
  node_id = node_id;
  timestamp = t.ended;
  requests_total = 1;
  requests_success = if t.status == 200 then 1 else 0;
  requests_failed = if t.status == 200 then 0 else 1;
  retry_attempts_total = attempts;
  retry_success = success;
  response_time_sum_ms = elim t.written [
    | none ↦ ms_between t.started t.ended
    | some (first, last) ↦ ms_between t.started last
  ];
  response_time_count = 1;
  bytes_total = t.bytes;
  first_byte_time_sum_ms = elim t.written [
    | none ↦ 0
    | some (first, last) ↦ ms_between t.started first
  ];
  stream_duration_sum_ms = elim t.written [ none ↦ 0 | some (first, last) ↦ ms_between first last ];
  input_tokens_total = t.input;
  output_tokens_total = t.output;
}

-- The three sums that count only if something was written.
abbrev add_written : Attempt → Metrics → Metrics
add_written t m = elim t.written [
  | none ↦ m
  | some (first, last) ↦ record m {
    first_byte_dur = m.first_byte_dur + (first - t.started);
    stream_dur = m.stream_dur + (last - first);
    total_bytes = m.total_bytes + t.bytes;
  }
]

abbrev counted : Attempt → Metrics → Metrics
counted t m =
    let m' = add_written t m in
    record m' {
      requests = suc m.requests;
      total_input_tokens = m.total_input_tokens +ℤ t.input;
      total_output_tokens = m.total_output_tokens +ℤ t.output;
      fail_count = if t.status == 200 then m.fail_count else suc m.fail_count;
      fail_streak = if t.status == 200 then 0 else m.fail_streak;
    }

-- The node after an attempt.
abbrev pub served_node : Attempt → Node → Node
served_node t n = record n {
  metrics = counted t n.metrics;
  last_error = if t.status == 200 then "" else n.last_error;
  failed = if t.status == 200 then false else n.failed;
}

-- `accountID`
abbrev pub metrics_account : Option (String × Account) → Node → String
metrics_account none n = choose_non_empty n.account_id default_account_id
metrics_account (some (a, acc)) n =
    choose_non_empty acc.id (choose_non_empty n.account_id default_account_id)

module _ {F : Type 0} where
  unfoldable pub clear_served : Attempt → String → Option (String × Account) → Server F → Server F
  clear_served t id none p = p
  clear_served t id (some (a, acc)) p =
      if t.status == 200
      then put_account a (record acc { failed_set = remove_key id acc.failed_set }) p
      else p

  -- The rows for the store: the node, the metrics, and the usage on the final attempt.
  unfoldable pub store_served : Attempt → ℕ → ℕ → Bool → String → Node → Server F → Server F
  unfolding build_metrics_record
  store_served t attempts success final acc_id n p =
      let p' =
        to_store (insert_metrics (build_metrics_record acc_id n.id t attempts success))
          (to_store (upsert_node n) p) in
      if final && not (str_eq t.model_id "") && (ltb_ℤ (pos 0) t.input || ltb_ℤ (pos 0) t.output)
      then to_store
          (insert_usage (record {
            account_id = acc_id;
            node_id = n.id;
            model_id = t.model_id;
            input_tokens = t.input;
            output_tokens = t.output;
            success = t.status == 200;
            request_id = t.request_id;
          }))
          p'
      else p'

  -- The interval of the account, or else the server's.
  abbrev check_interval : Option (String × Account) → Server F → ℤ
  check_interval none p = p.health_every
  check_interval (some (a, acc)) p =
      if ltb_ℤ (pos 0) acc.config.health_every then acc.config.health_every else p.health_every

  unfoldable pub show_served :
      ℕ → Bool → Option (String × Account) → String → Node → Server F → Server F
  unfolding compute_health_status event_status
  show_served now recovered acc acc_id n p =
      let health =
        compute_health_status n.metrics.last_health_check_at n.metrics.last_ping_err
          (check_interval acc p) now in
      let p' = if recovered then to_hub (node_status acc_id n.id n.name "online" none) p else p in
      to_hub (node_metrics acc_id n.id (event_status n.disabled (not n.failed) health)) p'

  unfoldable pub record_found : Attempt → ℕ → ℕ → Bool → String → Option Node → Server F → Server F
  unfolding clear_served store_served show_served
  record_found t attempts success final id none p = p
  record_found t attempts success final id (some n) p =
      let acc = account_of p id in
      let acc_id = metrics_account acc n in
      let n' = served_node t n in
      show_served t.ended (t.status == 200 && n.failed) acc acc_id n'
        (store_served t attempts success final acc_id n' (clear_served t id acc (put_node id n' p)))

  -- `recordMetrics`
  unfoldable pub record_metrics : String → Attempt → ℕ → ℕ → Bool → Server F → Server F
  unfolding record_found
  record_metrics id t attempts success final p =
      record_found t attempts success final id (lookup id p.node_index) p
