-- ===== src/Lib.antt =====
-- The core of qcc_plus, a multi-tenant reverse proxy for /v1/messages, in Go. An account owns
-- upstream nodes, one of which is active. The proxy sends requests to nodes, counts their failures,
-- probes them, cuts off a node that keeps failing by a circuit breaker, and activates the best node
-- that is left.
--
-- The parts and the files that model them:
--   - Prelude and its modules: names that all files share, Boolean tests on native numbers and
--     strings, lists and integers over native numbers, and Go maps with string keys as association
--     lists (Prelude.Dict), whose order stands for the order of a `range`.
--   - Floats: float64 as a parameter, with fractions for the tests.
--   - Breaker: internal/proxy/circuit_breaker.go. Breaker.Defs has one function for each method
--     (`AllowRequest` is `allow_request`, `RecordResult` is `record_result`, `Reset` is `reset`); the
--     receiver that may be nil is an option, the lock makes each call one step, and instants are
--     nanoseconds. Breaker.Config, Window, Transitions, Trials and Opening are about the defaults, the
--     window of results, the state machine, the half-open state and the opening of a closed breaker.
--   - Server: internal/proxy/types.go and server.go. A pointer is a key: a `*Node` its key in
--     `nodeIndex`, a `*Account` its key in `accountByID`. What the server writes to the store, to the
--     notifications and to the dashboard is a list of effects. Server.Accounts has the accounts of
--     account_manager.go, server.go and api_config.go, Server.Keys is about their keys.
--   - Health: internal/proxy/health.go up to the decisions that follow a check. Health.Probe has the
--     three ways to probe, with the answers as parameters; Health.Record has `recordHealthEvent`;
--     Health.Apply has the part of `checkNodeHealth` under the lock; Health.Keeps says what a check
--     leaves alone.
--   - Select: internal/proxy/node_manager.go and warmup.go. Select.Pick has the loops that look for the
--     best node, Select.Warmup the warmup, Select.Activate `selectBestAndActivate` and its variant
--     with skipped nodes. Select.Best and Select.Order are about the choice, Select.Rounds and
--     Select.Settles about the whole search.
--   - Recovery: internal/proxy/health.go. Recovery.Failing has `shouldFail` and `handleFailure`,
--     Recovery.Check `checkNodeHealth` as a whole and `checkFailedNodes`; Recovery.Coherent and
--     Recovery.Agreement are about the two places where a failure is kept.
--   - Nodes: internal/proxy/node_manager.go. Nodes.Manage adds, changes, deletes and activates nodes,
--     Nodes.Toggle disables and enables them; Nodes.Agreement, Nodes.Enabling and Nodes.Effects are
--     about what they leave.
--   - Request: internal/proxy/handler.go and metrics.go. Request.Loop has the loop of /v1/messages over
--     the nodes of an account, Request.Metrics `recordMetrics`; Request.Flags and Request.Agreement are
--     about the flags of the nodes behind a request, Request.Bound about the bound on its rounds.
--   - Wiring: the nodes, accounts and owners that a search for a node and a request leave as they were.
--   - System: the operations above as steps, in any order, and what holds of the states they lead to.
--   - Retry: internal/proxy/retry.go, the configuration of the retries from the environment and the
--     backoff, with float64 and the environment as parameters.
--   - Transport: internal/proxy/reverse_proxy.go. Transport.Defs has `retryTransport.RoundTrip`, whose
--     answers are a parameter, Transport.Usage the reader that keeps the start of a body.
--   - Settings: internal/store/mysql.go, internal/proxy/settings_cache.go and settings_handler.go.
--     Settings.Table has the rows and what a statement does to them, Settings.Store the operations of
--     the store with the failures of each statement as a parameter, Settings.Seed the defaults,
--     Settings.Cache and Settings.Typed the cache, Settings.Handler the requests with their status
--     codes. The other modules are about the version check, batches, reading after writing, settings
--     of no account, the rights, and refreshes.
--   - Notify: internal/notify/manager.go, the queue, the deduplication and the history.
--   - Hub: internal/proxy/ws_hub.go, the clients of the dashboard; Hub.Defs has each turn of `Run` and
--     what happens outside as steps.
--   - Shares: internal/store/monitor_share.go, the shared links of the dashboard.
--   - Sessions: internal/proxy/session.go, the login sessions and their expiry.
--   - Examples and the modules Tests: the theorems at concrete inputs.
--
-- How they interact: a health check (Health) may reset a breaker (Breaker); the search for a node
-- (Select) probes nodes by health checks; failures, recoveries and changes of nodes (Recovery, Nodes)
-- end in such a search. A request (Request) picks nodes by the same loops, asks and tells their
-- breakers, and reports failures to Recovery.
--
-- Bounds: the search for a node calls itself after a failed warmup. It runs on fuel, one round for
-- each node of the account behind the first round; that is enough, since each round skips a node more.
-- The loop of a request runs for as many rounds as the code allows; each round tries a node that was
-- not tried before, so that more rounds change nothing. All other loops follow a list or a count.
-- Integers that the code only counts up, and instants and durations, are unbounded, but for the
-- durations of the retries, which wrap at 64 bits where they are multiplied.
--
-- Left out: what runs between the critical sections of one call (the server's lock is free during a
-- probe and a warmup), the texts of messages and of the log, the HTTP handlers but for those of the
-- settings, the SQL store but for its tables of settings and shared links, the tunnel, the
-- notification channels, the command line client and the frontend. An SQL statement is modelled by what it does to a list of rows;
-- a unique index takes two NULLs as different. A switch that a failed check starts in a goroutine is
-- returned to the caller as due.
pub mod Prelude
pub mod Floats
pub mod Breaker
pub mod Server
pub mod Health
pub mod Select
pub mod Recovery
pub mod Nodes
pub mod Request
pub mod Wiring
pub mod System
pub mod Sessions
pub mod Settings
pub mod Transport
pub mod Retry
pub mod Notify
pub mod Hub
pub mod Shares
pub mod Examples
