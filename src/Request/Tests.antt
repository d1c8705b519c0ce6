-- ===== src/Request/Tests.antt =====
-- The theorems about a request at concrete inputs: every node answers 500 at first.
use qcc_plus.Prelude.{
  ℕ, ◌≡◌, ◌<◌, refl, pos, false, some, none, [], ◌∷◌, arith, lookup, length, eq_iff,
}
use qcc_plus.Floats.{fractions}
use qcc_plus.Examples.{server, world, server-IsCoherent, acc}
use qcc_plus.Recovery.Coherent.{IsCoherent}
use qcc_plus.Request.Metrics.{Attempt}
use qcc_plus.Request.Loop.{RetryConfig, Upstream, serve, serve_loop}
use qcc_plus.Request.Bound.{IsKeyed, serve-enough}
use qcc_plus.Request.Agreement.{serve-IsCoherent}

abbrev answered : ℕ → Attempt
answered status = record {
  status = status;
  upstream = 0;
  error = "HTTP 500";
  started = 100;
  ended = 200;
  written = some (150, 180);
  bytes = 10;
  input = pos 3;
  output = pos 4;
  model_id = "m";
  request_id = "r";
}

abbrev retrying : RetryConfig
retrying = record {
  max_attempts = pos 1;
  backoff_min = pos 10;
  backoff_max = pos 100;
  retry_on_status = pos 500 ∷ [];
  per_request_timeout = pos 30_000_000_000;
  per_attempt_timeouts = [];
  total_timeout = pos 0;
}

abbrev failing : Upstream
failing = record { clock = λ left. 100; answer = λ k id timeout. answered 500 }

serve-IsCoherent_example :
    IsCoherent (serve fractions world retrying failing 100 "acc" acc server).0
serve-IsCoherent_example =
    serve-IsCoherent fractions world retrying failing 100 "acc" acc server server-IsCoherent

server-IsKeyed : IsKeyed server
unfolding lookup
server-IsKeyed = record { keyed = λ id n e. ground (arith, eq_iff "n-1" id, eq_iff "n-2" id) }

acc_there : lookup "acc" server.account_by_id ≡ some acc
unfolding lookup
acc_there = refl

two_nodes : length acc.nodes < 50
two_nodes = omega arith

serve-enough_example :
    serve_loop fractions world retrying failing 50 none "acc" acc
      (record { skip = []; attempt = 0; first_failed = false; loops = 0 })
      server
    ≡ serve fractions world retrying failing 100 "acc" acc server
serve-enough_example =
    serve-enough fractions world retrying failing 100 50 "acc" acc server server-IsKeyed acc_there
      two_nodes
