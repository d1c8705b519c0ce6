-- ===== src/Server/Defs.antt =====
-- internal/proxy/types.go, server.go: nodes, accounts, the server's maps and what it sends out.
--
-- A `*Node` is shared by `acc.Nodes` and `p.nodeIndex`, and a `*Account` by the server's maps. Here
-- a pointer is a key: a `*Node` is its key in `node_index`, where the node itself is kept, a
-- `*Account` its key in `account_by_id`, and an account keeps the keys of its `Nodes` in the order in
-- which a `range` visits them. Writes to the store, notifications and
-- WebSocket messages go to `effects`, newest first; the texts made for people to read are left out.
use qcc_plus.Prelude.{
  ℕ, ℤ, String, Bool, ◌&&◌, ◌||◌, ◌⊎◌, str_eq, Option, none, some, List, ◌∷◌, lookup, insert,
  contains, if◌then◌else◌,
}
use qcc_plus.Breaker.Defs.{Breaker, BreakerConfig}

-- `*url.URL`, as far as the proxy reads it: its host and its text.
pub record Url : Type 0 where
  pub host : String
  pub text : String

pub record Metrics : Type 0 where
  pub requests : ℕ
  pub stream_dur : ℕ
  pub first_byte_dur : ℕ
  pub total_input_tokens : ℤ
  pub total_output_tokens : ℤ
  pub total_bytes : ℕ
  pub last_ping_ms : ℕ
  pub last_ping_err : String
  pub last_health_check_at : ℕ
  pub fail_count : ℕ
  pub fail_streak : ℕ

abbrev pub no_metrics : Metrics
no_metrics = record {
  requests = 0;
  stream_dur = 0;
  first_byte_dur = 0;
  total_input_tokens = ℤ.pos 0;
  total_output_tokens = ℤ.pos 0;
  total_bytes = 0;
  last_ping_ms = 0;
  last_ping_err = "";
  last_health_check_at = 0;
  fail_count = 0;
  fail_streak = 0;
}

pub record Node : Type 0 where
  pub id : String
  pub name : String
  pub url : Url
  pub api_key : String
  pub health_check_method : String
  pub health_check_model : String
  pub account_id : String
  pub created_at : ℕ
  pub metrics : Metrics
  pub weight : ℤ
  pub failed : Bool
  pub disabled : Bool
  pub last_error : String

pub record Config : Type 0 where
  pub retries : ℤ
  pub fail_limit : ℤ
  pub health_every : ℤ

pub record Account : Type 0 where
  pub id : String
  pub name : String
  pub password : String
  pub proxy_api_key : String
  pub is_admin : Bool
  pub nodes : List String
  pub active_id : String
  pub config : Config
  pub failed_set : List String

pub record WarmupConfig : Type 0 where
  pub enabled : Bool
  pub attempts : ℤ
  pub required_success : ℤ

-- The event types of internal/notify/types.go that the node manager publishes.
pub data NodeEvent : Type 0 where
  node_added node_updated node_deleted node_switched node_failed node_recovered node_enabled :
      NodeEvent
  node_disabled : NodeEvent

-- `store.MetricsRecord`, as `buildMetricsRecord` fills it; its time stamp is an instant.
pub record MetricsRecord : Type 0 where
  pub account_id : String
  pub node_id : String
  pub timestamp : ℕ
  pub requests_total : ℕ
  pub requests_success : ℕ
  pub requests_failed : ℕ
  pub retry_attempts_total : ℕ
  pub retry_success : ℕ
  pub response_time_sum_ms : ℕ
  pub response_time_count : ℕ
  pub bytes_total : ℕ
  pub first_byte_time_sum_ms : ℕ
  pub stream_duration_sum_ms : ℕ
  pub input_tokens_total : ℤ
  pub output_tokens_total : ℤ

-- `store.UsageLogRecord` without the cost, which the store calculates.
pub record UsageLog : Type 0 where
  pub account_id : String
  pub node_id : String
  pub model_id : String
  pub input_tokens : ℤ
  pub output_tokens : ℤ
  pub success : Bool
  pub request_id : String

-- What leaves the server.
pub data Effect : Type 0 where
  upsert_node : Node → Effect
  delete_node : String → Effect
  set_active : String → String → Effect
  update_account : String → String → Effect
  create_account_row : Account → Effect
  update_config : String → Config → Effect
  insert_health : String → String → String → String → Bool → String → ℕ → Effect
  publish : String → NodeEvent → String → Effect
  node_status : String → String → String → String → Option Bool → Effect
  health_check : String → String → Bool → Effect
  node_metrics : String → String → String → Effect
  insert_metrics : MetricsRecord → Effect
  insert_usage : UsageLog → Effect

pub record Server (F : Type 0) : Type 0 where
  pub accounts : List (String × String)
  pub account_by_id : List (String × Account)
  pub node_index : List (String × Node)
  pub node_account : List (String × String)
  pub default_account : Option String
  pub default_acc_name : String
  pub retries : ℤ
  pub fail_limit : ℤ
  pub health_every : ℤ
  pub transport_attempts : ℤ
  pub has_store : Bool
  pub has_notify : Bool
  pub has_hub : Bool
  pub warmup_config : WarmupConfig
  pub cb_config : BreakerConfig F
  pub circuit_breakers : List (String × Breaker F)
  pub effects : List Effect

pub data Error : Type 0 where
  account_required base_url_required no_active_node nil_account : Error
  bad_url : String → Error
  node_not_found : String → Error
  store_failed : String → Error

-- What the proxy takes from outside the repository: `strings.ToLower`, `url.Parse`, and the global
-- `defaultHealthCheckMethod`, which the environment may set.
pub record Env : Type 0 where
  pub to_lower : String → String
  pub parse_url : String → String ⊎ Url
  pub default_method : String

abbrev pub default_model : String
default_model = "claude-haiku-4-5-20251001"

abbrev pub default_account_id : String
default_account_id = "default"

-- `chooseNonEmpty(a, b)`.
abbrev pub choose_non_empty : String → String → String
choose_non_empty a b = if str_eq a "" then b else a

unfoldable pub normalize_method : Env → String → String
normalize_method env method =
    let m = env.to_lower method in
    if str_eq m "api"
    then "api"
    else if str_eq m "head"
    then "head"
    else if str_eq m "cli"
    then "cli"
    else env.default_method

unfoldable pub requires_api_key : Env → String → Bool
unfolding normalize_method
requires_api_key env method =
    let m = normalize_method env method in str_eq m "api" || str_eq m "cli"

-- A method that needs a key falls back to `head` where there is none.
abbrev pub usable_method : Env → String → String → String
usable_method env method api_key =
    if requires_api_key env method && str_eq api_key "" then "head" else method

module _ {F : Type 0} where
  -- The account behind a pointer, with the pointer.
  abbrev pub load_account : Server F → String → Option (String × Account)
  load_account p a = elim (lookup a p.account_by_id) [ none ↦ none | some acc ↦ some (a, acc) ]

  -- `p.nodeAccount[id]`
  abbrev pub account_of : Server F → String → Option (String × Account)
  account_of p id = elim (lookup id p.node_account) [ none ↦ none | some a ↦ load_account p a ]

  -- `acc.Nodes[id]`
  abbrev pub account_node : Server F → Account → String → Option Node
  account_node p acc id = if contains id acc.nodes then lookup id p.node_index else none

  -- Writes through a pointer.
  abbrev pub put_account : String → Account → Server F → Server F
  put_account a acc p = record p { account_by_id = insert a acc p.account_by_id }

  abbrev pub put_node : String → Node → Server F → Server F
  put_node id n p = record p { node_index = insert id n p.node_index }

  -- Effects that need the store, the notification manager or the WebSocket hub.
  abbrev pub emit : Bool → Effect → Server F → Server F
  emit on e p = if on then record p { effects = e ∷ p.effects } else p

  abbrev pub to_store : Effect → Server F → Server F
  to_store e p = emit p.has_store e p

  abbrev pub to_notify : Effect → Server F → Server F
  to_notify e p = emit p.has_notify e p

  abbrev pub to_hub : Effect → Server F → Server F
  to_hub e p = emit p.has_hub e p
