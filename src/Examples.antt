-- ===== src/Examples.antt =====
-- A server with one account and two nodes, for the theorems at concrete inputs.
use qcc_plus.Prelude.{inr, pos, true, false, some, [], ◌∷◌, arith, lookup, contains, eq_iff}
use qcc_plus.Floats.{Fraction}
use qcc_plus.Breaker.Defs.{BreakerConfig}
use qcc_plus.Server.Defs.{Server, Node, Account, Url, no_metrics}
use qcc_plus.Health.Probe.{Outside, response, printed}
use qcc_plus.Health.Record.{no_record}
use qcc_plus.Select.Warmup.{World}
use qcc_plus.Recovery.Coherent.{IsCoherent}

abbrev pub defaults : BreakerConfig Fraction
defaults = record {
  enabled = true;
  window_seconds = pos 60;
  failure_rate = record { num = 1; den = 2 };
  consecutive_fails = pos 5;
  cooldown_seconds = pos 30;
  half_open_max_calls = pos 3;
}

abbrev pub home : Url
home = record { host = "one.example"; text = "https://one.example" }

-- A node that is down.
abbrev pub one : Node
one = record {
  id = "n-1";
  name = "one";
  url = home;
  api_key = "";
  health_check_method = "head";
  health_check_model = "m";
  account_id = "acc";
  created_at = 1;
  metrics = no_metrics;
  weight = pos 1;
  failed = true;
  disabled = false;
  last_error = "HTTP 500";
}

-- A node that is up.
abbrev pub two : Node
two = record one {
  id = "n-2";
  name = "two";
  created_at = 2;
  weight = pos 2;
  failed = false;
  last_error = "";
}

abbrev pub acc : Account
acc = record {
  id = "acc";
  name = "team";
  password = "";
  proxy_api_key = "key";
  is_admin = false;
  nodes = "n-1" ∷ "n-2" ∷ [];
  active_id = "n-1";
  config = record { retries = pos 3; fail_limit = pos 2; health_every = pos 30_000_000_000 };
  failed_set = "n-1" ∷ [];
}

abbrev pub server : Server Fraction
server = record {
  accounts = ("key", "acc") ∷ [];
  account_by_id = ("acc", acc) ∷ [];
  node_index = ("n-1", one) ∷ ("n-2", two) ∷ [];
  node_account = ("n-1", "acc") ∷ ("n-2", "acc") ∷ [];
  default_account = some "acc";
  default_acc_name = "team";
  retries = pos 3;
  fail_limit = pos 2;
  health_every = pos 30_000_000_000;
  transport_attempts = pos 3;
  has_store = true;
  has_notify = true;
  has_hub = true;
  warmup_config = record { enabled = true; attempts = pos 2; required_success = pos 1 };
  cb_config = defaults;
  circuit_breakers = [];
  effects = [];
}

-- Every node answers a HEAD request with 200.
abbrev pub up : Outside
up = record {
  http_answer = λ m n. response 200 "";
  cli_answer = λ n. printed "ok";
  took = λ m n. 2_000_000;
  status_text = λ s b. b;
  trim_space = λ s. s;
}

abbrev pub world : World
world = record {
  env = record {
    to_lower = λ s. s;
    parse_url = λ s. inr (record { host = s; text = s });
    default_method = "head";
  };
  latest = λ a n. no_record;
  outside = up;
  attempt = λ id i. some up;
}

pub server-IsCoherent : IsCoherent server
unfolding lookup contains
server-IsCoherent = record {
  agree = λ id a n cur e f g. ground (arith, eq_iff "n-1" id, eq_iff "n-2" id, eq_iff "acc" a);
}
