-- ===== src/Health/Probe.antt =====
-- internal/proxy/health.go: the three ways to probe a node. What the network or the CLI process
-- answers is an argument; the answer comes with the time that it took, in nanoseconds.
use qcc_plus.Prelude.{ℕ, String, Bool, true, false, ◌&&◌, str_eq, leb, ltb, ◌==◌, if◌then◌else◌}
use qcc_plus.Server.Defs.{Node, Env, normalize_method}

-- An error of the client, or an HTTP status with a body.
pub data HttpAnswer : Type 0 where
  failure : String → HttpAnswer
  response : ℕ → String → HttpAnswer

-- An error of the process, or what the CLI printed.
pub data CliAnswer : Type 0 where
  crashed : String → CliAnswer
  printed : String → CliAnswer

-- `(ok, pingErr, latency)`.
pub record Probe : Type 0 where
  pub ok : Bool
  pub err : String
  pub latency : ℕ

abbrev bad : String → ℕ → Probe
bad err latency = record { ok = false; err = err; latency = latency }

abbrev good : ℕ → Probe
good latency = record { ok = true; err = ""; latency = latency }

-- What stands outside the repository: the answers of a node, how a status is printed in an error,
-- and `strings.TrimSpace`.
pub record Outside : Type 0 where
  pub http_answer : String → Node → HttpAnswer
  pub cli_answer : Node → CliAnswer
  pub took : String → Node → ℕ
  pub status_text : ℕ → String → String
  pub trim_space : String → String

api_result : Outside → ℕ → HttpAnswer → Probe
api_result out t (failure e) = bad e t
api_result out t (response s body) =
    if leb 200 s && ltb s 300 then good t else bad (out.status_text s body) t

unfoldable pub via_api : Outside → Node → Probe
unfolding api_result
via_api out n =
    if str_eq n.api_key ""
    then bad "api health check requires api key" 0
    else api_result out (out.took "api" n) (out.http_answer "api" n)

head_result : Outside → ℕ → HttpAnswer → Probe
head_result out t (failure e) = bad e t
head_result out t (response s body) = if s == 200 then good t else bad (out.status_text s "") t

unfoldable pub via_head : Outside → Node → Probe
unfolding head_result
via_head out n = head_result out (out.took "head" n) (out.http_answer "head" n)

cli_result : Outside → ℕ → CliAnswer → Probe
cli_result out t (crashed e) = bad e t
cli_result out t (printed s) =
    if str_eq (out.trim_space s) "" then bad "cli health check returned empty output" t else good t

-- A node always has a URL here, so the check for a nil URL is left out.
unfoldable pub via_cli : Outside → Node → Probe
unfolding cli_result
via_cli out n =
    if str_eq n.api_key ""
    then bad "cli health check requires api key" 0
    else cli_result out (out.took "cli" n) (out.cli_answer n)

-- The method that `checkNodeHealth` settles on.
unfoldable pub probe_method : Env → Node → String
probe_method env n =
    let m = normalize_method env n.health_check_method in
    if str_eq m "cli" && str_eq n.api_key "" then "head" else m

-- The `switch` of `checkNodeHealth`.
unfoldable pub probe_node : Env → Outside → Node → Probe
unfolding probe_method
probe_node env out n =
    let m = probe_method env n in
    if str_eq m "head"
    then via_head out n
    else if str_eq m "cli"
    then via_cli out n
    else via_api out n
