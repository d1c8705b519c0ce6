-- ===== src/Health/Keeps.antt =====
-- What a health check leaves alone: everything of an account but its failed set, the nodes
-- but for their health, and the server's settings.
use mathlib.Core.Option
use qcc_plus.Prelude.{
  ℕ, ◌+◌, ◌≡◌, refl, ◌∙◌, ap, ◌⊎◌, inl, inr, String, false, Option, none, some, List, [], arith,
  lookup, insert, map-insert, Option-cases,
}
use qcc_plus.Floats.{FloatOps}
use qcc_plus.Server.Defs.{
  Server, Node, Metrics, Account, Env, account_of, account_node, choose_non_empty,
}
use qcc_plus.Health.Probe.{Probe, Outside, probe_node, probe_method}
use qcc_plus.Health.Record.{Check, Latest, check_metrics, record_health_event}
use qcc_plus.Health.Apply.{
  apply_check, check_found, check_in, check_node, checked_account, checked_node, Noted,
}

-- An account without its failed set.
abbrev pub shape : Account → Account
shape acc = record acc { failed_set = [] }

-- The metrics without what a health check writes: the requests, times, tokens, bytes and failures.
abbrev pub traffic : Metrics → Metrics
traffic m = record m {
  last_ping_ms = 0;
  last_ping_err = "";
  last_health_check_at = 0;
  fail_streak = 0;
}

-- A node without what a health check writes.
abbrev pub static : Node → Node
static n = record n { metrics = traffic n.metrics; failed = false; last_error = "" }

module _ {F : Type 0} where
  abbrev pub shape_at : Server F → String → Option Account
  shape_at p a = Option.map shape (lookup a p.account_by_id)

  pub record Keeps (p q : Server F) : Type 0 where
    pub shapes : (a : String) → shape_at q a ≡ shape_at p a
    pub keys :
        (id : String)
        → Option.map static (lookup id q.node_index) ≡ Option.map static (lookup id p.node_index)
    pub owners : q.node_account ≡ p.node_account
    pub warmups : q.warmup_config ≡ p.warmup_config

  pub Keeps-refl : (p : Server F) → Keeps p p
  Keeps-refl p = record { shapes = λ a. refl; keys = λ id. refl; owners = refl; warmups = refl }

  pub Keeps-trans : (p q r : Server F) → Keeps p q → Keeps q r → Keeps p r
  Keeps-trans p q r h k = record {
    shapes = λ a. k.shapes a ∙ h.shapes a;
    keys = λ id. k.keys id ∙ h.keys id;
    owners = k.owners ∙ h.owners;
    warmups = k.warmups ∙ h.warmups;
  }

  -- What a recorded check may change: the metrics of the node that it is about.
  pub record_health_event-frame :
      (latest : String → String → Latest) (now : ℕ) (c : Check) (p : Server F)
      → let q = record_health_event latest now c p in
        (q.account_by_id ≡ p.account_by_id)
        × (q.node_account ≡ p.node_account)
        × (q.warmup_config ≡ p.warmup_config)
        × (q.circuit_breakers ≡ p.circuit_breakers)
        × (q.cb_config ≡ p.cb_config)
  unfolding record_health_event
  record_health_event-frame latest now c p = ground arith

  pub record_health_event-index :
      (latest : String → String → Latest) (now : ℕ) (c : Check) (p : Server F)
      → ((record_health_event latest now c p).node_index ≡ p.node_index)
        ⊎ ((n : Node) × (m : Metrics) × (traffic m ≡ traffic n.metrics)
            × (lookup c.node_id p.node_index ≡ some n)
            × ((record_health_event latest now c p).node_index
                ≡ insert c.node_id (record n { metrics = m }) p.node_index))
  unfolding record_health_event
  record_health_event-index latest now c p = elim (Option-cases (lookup c.node_id p.node_index)) [
    | inl gone ↦ inl (ground arith)
    | inr (n, there) ↦ inr (n, check_metrics c.probe c.at n.metrics, refl, there, ground arith)
  ]

  pub record_health_event-Keeps :
      (latest : String → String → Latest) (now : ℕ) (c : Check) (p : Server F)
      → Keeps p (record_health_event latest now c p)
  record_health_event-Keeps latest now c p =
      let (accs, owners, warm, _, _) = record_health_event-frame latest now c p in
      record {
        shapes = λ a. ap (λ (m : List (String × Account)). Option.map shape (lookup a m)) accs;
        keys = λ id. elim (record_health_event-index latest now c p) [
          | inl same ↦ ap (λ (m : List (String × Node)). Option.map static (lookup id m)) same
          | inr (n, m, as_before, there, same) ↦
              ap (λ (m : List (String × Node)). Option.map static (lookup id m)) same
              ∙ map-insert static c.node_id id n (record n { metrics = m }) p.node_index there
                  (ap (λ (k : Metrics). record n { metrics = k; failed = false; last_error = "" })
                    as_before)
        ];
        owners = owners;
        warmups = warm;
      }

  pub account_of-owner :
      (p : Server F) (id a : String) (acc : Account)
      → account_of p id ≡ some (a, acc)
      → lookup id p.node_account ≡ some a
  account_of-owner p id a acc e = ground arith

  pub account_of-lookup :
      (p : Server F) (id a : String) (acc : Account)
      → account_of p id ≡ some (a, acc)
      → lookup a p.account_by_id ≡ some acc
  account_of-lookup p id a acc e = ground arith

module _ {F : Type 0} (fl : FloatOps F) where
  -- What a check changes: the node becomes the checked one, its account's failed set follows, and
  -- its breaker may be reset.
  pub apply_check-index :
      (pr : Probe) (now : ℕ) (id : String) (p : Server F)
      → ((lookup id p.node_index ≡ none) × (apply_check fl pr now id p ≡ (p, none)))
        ⊎ ((n : Node) × (lookup id p.node_index ≡ some n)
            × ((apply_check fl pr now id p).0.node_index
                ≡ insert id (checked_node pr now n) p.node_index))
  unfolding apply_check
  apply_check-index pr now id p = elim (Option-cases (lookup id p.node_index)) [
    | inl gone ↦ inl (gone, rw (gone, apply_check))
    | inr (n, there) ↦ inr (n, there, ground arith)
  ]

  pub apply_check-accounts :
      (pr : Probe) (now : ℕ) (id : String) (p : Server F)
      → (((lookup id p.node_index ≡ none) ⊎ (account_of p id ≡ none))
          × ((apply_check fl pr now id p).0.account_by_id ≡ p.account_by_id))
        ⊎ ((a : String) × (acc : Account) × (account_of p id ≡ some (a, acc))
            × ((apply_check fl pr now id p).0.account_by_id
                ≡ insert a (checked_account pr id acc) p.account_by_id))
  unfolding apply_check
  apply_check-accounts pr now id p = elim (Option-cases (lookup id p.node_index)) [
    | inl gone ↦ inl (inl gone, ground arith)
    | inr (n, there) ↦ elim (Option-cases (account_of p id)) [
      | inl alone ↦ inl (inr alone, ground arith)
      | inr ((a, acc), owner) ↦ inr (a, acc, owner, ground arith)
    ]
  ]

  pub apply_check-frame :
      (pr : Probe) (now : ℕ) (id : String) (p : Server F)
      → let q = (apply_check fl pr now id p).0 in
        (q.node_account ≡ p.node_account)
        × (q.warmup_config ≡ p.warmup_config)
        × (q.cb_config ≡ p.cb_config)
  unfolding apply_check
  apply_check-frame pr now id p = ground arith

  apply_check-shapes :
      (pr : Probe) (now : ℕ) (id : String) (p : Server F) (b : String)
      → shape_at (apply_check fl pr now id p).0 b ≡ shape_at p b
  apply_check-shapes pr now id p b = elim (apply_check-accounts pr now id p) [
    | inl (_, same) ↦ ap (λ (m : List (String × Account)). Option.map shape (lookup b m)) same
    | inr (a, acc, owner, same) ↦
        ap (λ (m : List (String × Account)). Option.map shape (lookup b m)) same
        ∙ map-insert shape a b acc (checked_account pr id acc) p.account_by_id
            (account_of-lookup p id a acc owner) refl
  ]

  apply_check-keys :
      (pr : Probe) (now : ℕ) (id : String) (p : Server F) (j : String)
      → Option.map static (lookup j (apply_check fl pr now id p).0.node_index)
        ≡ Option.map static (lookup j p.node_index)
  apply_check-keys pr now id p j = elim (apply_check-index pr now id p) [
    | inl (gone, same) ↦
        ap (λ (r : Server F × Option Noted). Option.map static (lookup j r.0.node_index)) same
    | inr (n, there, same) ↦
        ap (λ (m : List (String × Node)). Option.map static (lookup j m)) same
        ∙ map-insert static id j n (checked_node pr now n) p.node_index there refl
  ]

  apply_check-Keeps :
      (pr : Probe) (now : ℕ) (id : String) (p : Server F) → Keeps p (apply_check fl pr now id p).0
  apply_check-Keeps pr now id p =
      let (owners, warm, _) = apply_check-frame pr now id p in
      record {
        shapes = apply_check-shapes pr now id p;
        keys = apply_check-keys pr now id p;
        owners = owners;
        warmups = warm;
      }

  check_found-Keeps :
      (env : Env) (out : Outside) (latest : String → String → Latest) (now : ℕ) (source : String)
      (acc : Account) (id : String) (o : Option Node) (p : Server F)
      → Keeps p (check_found fl env out latest now source acc id o p).0
  unfolding check_found
  check_found-Keeps env out latest now source acc id none p = Keeps-refl p
  check_found-Keeps env out latest now source acc id (some n) p =
      let pr = probe_node env out n in
      let c : Check = record {
        account_id = choose_non_empty n.account_id acc.id;
        node_id = n.id;
        method = probe_method env n;
        source = source;
        probe = pr;
        at = now + pr.latency;
      } in
      let p' = record_health_event latest (now + pr.latency) c p in
      Keeps-trans p p' (apply_check fl pr now id p').0
        (record_health_event-Keeps latest (now + pr.latency) c p) (apply_check-Keeps pr now id p')

  check_in-Keeps :
      (env : Env) (out : Outside) (latest : String → String → Latest) (now : ℕ) (source : String)
      (o : Option Account) (id : String) (p : Server F)
      → Keeps p (check_in fl env out latest now source o id p).0
  unfolding check_in
  check_in-Keeps env out latest now source none id p = Keeps-refl p
  check_in-Keeps env out latest now source (some acc) id p =
      check_found-Keeps env out latest now source acc id (account_node p acc id) p

  -- A check of a node, whatever the probe finds, changes no account but for its failed set; of a node
  -- it changes nothing but the failed flag, the last error, the time and the result of the last check
  -- and the run of failures, so that its address, key, weight and counts of requests, bytes and tokens
  -- stay; and it leaves the owners of the nodes and the settings of the warmup alone.
  pub check_node-Keeps :
      (env : Env) (out : Outside) (latest : String → String → Latest) (now : ℕ)
      (source a id : String) (p : Server F)
      → Keeps p (check_node fl env out latest now source a id p).0
  unfolding check_node
  check_node-Keeps env out latest now source a id p =
      check_in-Keeps env out latest now source (lookup a p.account_by_id) id p
