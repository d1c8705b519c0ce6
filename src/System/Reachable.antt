-- ===== src/System/Reachable.antt =====
-- What holds in every state that the operations lead to: internal/proxy.
use qcc_plus.Floats.{FloatOps}
use qcc_plus.Server.Defs.{Server}
use qcc_plus.Recovery.Coherent.{IsCoherent}
use qcc_plus.Recovery.Agreement.{
  reselect-IsCoherent, handle_failure-IsCoherent, check_node_health-IsCoherent,
  check_failed_nodes-IsCoherent,
}
use qcc_plus.Request.Agreement.{serve-IsCoherent}
use qcc_plus.Nodes.Agreement.{
  delete_from_server-IsCoherent, activate-IsCoherent, disable_node-IsCoherent,
  update_node-IsCoherent,
}
use qcc_plus.Nodes.Enabling.{enable_node-IsCoherent, get_active_node-IsCoherent}
use qcc_plus.System.Adding.{add_node-IsCoherent}
use qcc_plus.System.Steps.{
  Step, serves, checks, rechecks, fails, switches, asks, adds, updates, deletes, activates,
  disables, enables, Reach, begin, later,
}

module _ {F : Type 0} (fl : FloatOps F) where
  pub Step-IsCoherent : (p q : Server F) → Step fl p q → IsCoherent p → IsCoherent q
  Step-IsCoherent p q (serves w cfg up now a acc) h = serve-IsCoherent fl w cfg up now a acc p h
  Step-IsCoherent p q (checks w now source a id) h =
      check_node_health-IsCoherent fl w now source a id p h
  Step-IsCoherent p q (rechecks w now skip) h = check_failed_nodes-IsCoherent fl w now skip p h
  Step-IsCoherent p q (fails w now id err) h = handle_failure-IsCoherent fl w now id err p h
  Step-IsCoherent p q (switches w now a) h = reselect-IsCoherent fl w now a p h
  Step-IsCoherent p q (asks w now acc) h = get_active_node-IsCoherent fl w now acc p h
  Step-IsCoherent p q (adds w now a acc r there unused) h =
      add_node-IsCoherent fl w now a acc r p there unused h
  Step-IsCoherent p q (updates w now store_err id r) h =
      update_node-IsCoherent fl w now store_err id r p h
  Step-IsCoherent p q (deletes store_err id) h = delete_from_server-IsCoherent store_err id p h
  Step-IsCoherent p q (activates id) h = activate-IsCoherent id p h
  Step-IsCoherent p q (disables w now store_err id) h =
      disable_node-IsCoherent fl w now store_err id p h
  Step-IsCoherent p q (enables w now store_err id) h =
      enable_node-IsCoherent fl w now store_err id p h

  -- From a state in which every node of a known account is in the account's failed set exactly when it
  -- is marked failed, any sequence of requests, health checks, recovery rounds, failures, switches and
  -- changes of nodes leads to a state in which this still holds; nodes are added under ids that stand
  -- in no failed set, and the store may fail at any call.
  pub Reach-IsCoherent : (p q : Server F) → Reach fl p q → IsCoherent p → IsCoherent q
  Reach-IsCoherent p q begin h = h
  Reach-IsCoherent p q (later m r path step) h =
      Step-IsCoherent m r step (Reach-IsCoherent p m path h)
