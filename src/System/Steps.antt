-- ===== src/System/Steps.antt =====
-- The operations that change the server, as steps, in any order: internal/proxy/handler.go, health.go
-- and node_manager.go. Each step is one call, from its start to its end.
use qcc_plus.Prelude.{ℕ, ◌≡◌, String, Bool, false, Option, some, contains, lookup}
use qcc_plus.Floats.{FloatOps}
use qcc_plus.Server.Defs.{Server, Account}
use qcc_plus.Select.Warmup.{World}
use qcc_plus.Select.Activate.{reselect}
use qcc_plus.Recovery.Failing.{handle_failure}
use qcc_plus.Recovery.Check.{check_node_health, check_failed_nodes}
use qcc_plus.Nodes.Manage.{
  NewNode, NodeChange, add_node, update_node, delete_from_server, activate, get_active_node,
}
use qcc_plus.Nodes.Toggle.{disable_node, enable_node}
use qcc_plus.Request.Loop.{RetryConfig, Upstream, serve}

module _ {F : Type 0} where
  -- An id that stands in no failed set; `addNodeWithMethod` makes its ids from the clock.
  abbrev pub IsUnused : String → Server F → Type 0
  IsUnused id p =
      (a : String) (acc : Account)
      → lookup a p.account_by_id ≡ some acc
      → contains id acc.failed_set ≡ false

module _ {F : Type 0} (fl : FloatOps F) where
  pub data Step (p : Server F) : Server F → Type 0 where
    serves :
        (w : World) (cfg : RetryConfig) (up : Upstream) (now : ℕ) (a : String) (acc : Account)
        → Step p (serve fl w cfg up now a acc p).0
    checks :
        (w : World) (now : ℕ) (source a id : String)
        → Step p (check_node_health fl w now source a id p).0
    rechecks :
        (w : World) (now : ℕ) (skip_disabled : Bool)
        → Step p (check_failed_nodes fl w now skip_disabled p).0
    fails : (w : World) (now : ℕ) (id err : String) → Step p (handle_failure fl w now id err p)
    switches : (w : World) (now : ℕ) (a : String) → Step p (reselect fl w now a p).0
    asks :
        (w : World) (now : ℕ) (acc : Option (String × Account))
        → Step p (get_active_node fl w now acc p).0
    adds :
        (w : World) (now : ℕ) (a : String) (acc : Account) (r : NewNode)
        → lookup a p.account_by_id ≡ some acc
        → IsUnused r.id p
        → Step p (add_node fl w now (some (a, acc)) r p).0
    updates :
        (w : World) (now : ℕ) (store_err : Option String) (id : String) (r : NodeChange)
        → Step p (update_node fl w now store_err id r p).0
    deletes :
        (store_err : Option String) (id : String) → Step p (delete_from_server store_err id p).0
    activates : (id : String) → Step p (activate id p).0
    disables :
        (w : World) (now : ℕ) (store_err : Option String) (id : String)
        → Step p (disable_node fl w now store_err id p).0
    enables :
        (w : World) (now : ℕ) (store_err : Option String) (id : String)
        → Step p (enable_node fl w now store_err id p).0

  -- The states that steps lead to from `p`.
  pub data Reach (p : Server F) : Server F → Type 0 where
    begin : Reach p p
    later : (q r : Server F) → Reach p q → Step q r → Reach p r
