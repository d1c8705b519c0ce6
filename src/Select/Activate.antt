-- ===== src/Select/Activate.antt =====
-- internal/proxy/node_manager.go: `selectBestAndActivate` and `selectBestAndActivateExcluding`.
-- A returned `*Node` is the key of the node. The server's lock is free during a warmup; what other
-- requests do meanwhile is not modelled.
use qcc_plus.Prelude.{
  ℕ, zero, suc, String, Bool, true, false, Option, none, some, List, [], ◌∷◌, str_eq, if◌then◌else◌,
  lookup, length,
}
use qcc_plus.Floats.{FloatOps}
use qcc_plus.Server.Defs.{
  Server, Node, Account, account_node, put_account, to_store, to_notify, to_hub, set_active,
  publish, node_switched, node_status,
}
use qcc_plus.Select.Warmup.{World, warmup_node, is_warmed_up}
use qcc_plus.Select.Pick.{best_node}

-- `resolveNodeStatus`
unfoldable pub resolve_node_status : Option Node → String
resolve_node_status none = "unknown"
resolve_node_status (some n) =
    if n.disabled then "disabled" else if n.failed then "offline" else "online"

-- The chosen node, `ErrNoActiveNode`, or that the model has run out of fuel.
pub data Selection : Type 0 where
  chosen : String → Selection
  no_node exhausted : Selection

module _ {F : Type 0} where
  -- The two messages to the dashboard; the first one only if there was an active node.
  send_switch : Account → String → Option Node → String → Node → Server F → Server F
  unfolding resolve_node_status
  send_switch acc prev_id none id n p = to_hub (node_status acc.id id n.name "online" (some true)) p
  send_switch acc prev_id (some prev) id n p =
      to_hub (node_status acc.id id n.name "online" (some true)) (
        to_hub (node_status acc.id prev_id prev.name (resolve_node_status (some prev)) (some false))
          p)

  announce : Account → String → Option Node → String → Node → Server F → Server F
  unfolding send_switch
  announce acc prev_id prev id n p =
      if str_eq prev_id id
      then p
      else send_switch acc prev_id prev id n (to_notify (publish acc.id node_switched acc.id) p)

  -- The account as it stands now is given the new active node.
  make_active : String → String → Option Account → Server F → Server F
  make_active a id none p = p
  make_active a id (some cur) p = put_account a (record cur { active_id = id }) p

  -- From `acc.ActiveID = bestID` on; `acc` is the account as it was before the warmup.
  unfoldable pub activate_best : String → Account → String → Node → Server F → Server F
  unfolding announce make_active
  activate_best a acc id n p =
      let p' = to_store (set_active acc.id id) (make_active a id (lookup a p.account_by_id) p) in
      announce acc acc.active_id (account_node p' acc acc.active_id) id n p'

module _ {F : Type 0} where
  -- The rounds behind the first one: as many as the account has nodes.
  abbrev pub node_count : String → Server F → ℕ
  node_count a p = elim (lookup a p.account_by_id) [ none ↦ 0 | some acc ↦ length acc.nodes ]

module _ {F : Type 0} (fl : FloatOps F) (w : World) (now : ℕ) where
  -- Behind a warmup: a node that is warmed up becomes the active one, and otherwise the search goes
  -- on. `again` is the call for the next node.
  unfoldable pub activate_warm :
      (List String → Server F → Server F × Selection)
      → List String
      → String
      → Account
      → String
      → Node
      → Bool
      → Server F
      → Server F × Selection
  unfolding activate_best
  activate_warm again skip a acc id n true p = (activate_best a acc id n p, chosen id)
  activate_warm again skip a acc id n false p = again (id ∷ skip) p

  -- The flag says whether nodes are warmed up.
  unfoldable pub try_node :
      (List String → Server F → Server F × Selection)
      → List String
      → String
      → Account
      → String
      → Node
      → Bool
      → Server F
      → Server F × Selection
  unfolding activate_best activate_warm warmup_node
  try_node again skip a acc id n false p = (activate_best a acc id n p, chosen id)
  try_node again skip a acc id n true p =
      let (p', successes) = warmup_node fl w now id n p in
      activate_warm again skip a acc id n (is_warmed_up successes p'.warmup_config) p'

  -- One round: the best node that is left, warmed up if that is asked for.
  unfoldable pub select_found :
      (List String → Server F → Server F × Selection)
      → List String
      → String
      → Account
      → Option (String × Node)
      → Server F
      → Server F × Selection
  unfolding try_node
  select_found again skip a acc none p = (p, no_node)
  select_found again skip a acc (some (id, n)) p =
      try_node again skip a acc id n p.warmup_config.enabled p

  unfoldable pub select_round :
      (List String → Server F → Server F × Selection)
      → List String
      → String
      → Option Account
      → Server F
      → Server F × Selection
  unfolding select_found best_node
  select_round again skip a none p = (p, no_node)
  select_round again skip a (some acc) p = select_found again skip a acc (best_node p acc skip) p

  -- The fuel counts the rounds.
  unfoldable pub select_excluding : ℕ → String → List String → Server F → Server F × Selection
  unfolding select_round
  select_excluding zero a skip p = (p, exhausted)
  select_excluding (suc fuel) a skip p =
      select_round (select_excluding fuel a) skip a (lookup a p.account_by_id) p

  -- The first round skips nothing.
  unfoldable pub select_best : ℕ → String → Server F → Server F × Selection
  unfolding select_round select_excluding
  select_best fuel a p = select_round (select_excluding fuel a) [] a (lookup a p.account_by_id) p

  -- `selectBestAndActivate`, as the other operations call it.
  unfoldable pub reselect : String → Server F → Server F × Selection
  unfolding select_best
  reselect a p = select_best (node_count a p) a p
