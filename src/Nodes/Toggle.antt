-- ===== src/Nodes/Toggle.antt =====
-- internal/proxy/node_manager.go: `disableNode` and `enableNode`.
use qcc_plus.Prelude.{
  ℕ, String, Bool, true, false, ◌||◌, Option, none, some, str_eq, ltb_ℤ, if◌then◌else◌, lookup,
  remove_key,
}
use qcc_plus.Floats.{FloatOps}
use qcc_plus.Server.Defs.{
  Server, Node, Account, Error, node_not_found, store_failed, nil_account, account_of, put_node,
  put_account, to_store, to_notify, to_hub, upsert_node, set_active, publish, node_disabled,
  node_enabled, node_status,
}
use qcc_plus.Select.Warmup.{World}
use qcc_plus.Select.Activate.{Selection, chosen, no_node, exhausted}
use qcc_plus.Recovery.Failing.{reselect_for}
use qcc_plus.Nodes.Manage.{tell, get_active_node}

abbrev pub disabled_node : Node → Node
disabled_node n = record n { disabled = true }

abbrev pub enabled_node : Node → Node
enabled_node n = record n {
  disabled = false;
  failed = false;
  metrics = record n.metrics { fail_streak = 0 };
}

abbrev pub is_active : String → Option (String × Account) → Bool
is_active id none = false
is_active id (some (a, acc)) = str_eq id acc.active_id

abbrev pub gives_way : Node → Option Node → Bool
gives_way n none = true
gives_way n (some cur) = cur.failed || ltb_ℤ n.weight cur.weight

module _ {F : Type 0} where
  unfoldable pub clear_failed : String → Option (String × Account) → Server F → Server F
  clear_failed id none p = p
  clear_failed id (some (a, acc)) p =
      put_account a (record acc { failed_set = remove_key id acc.failed_set }) p

  -- The node of a selection, read through the pointer.
  abbrev pub selected : Server F → Selection → Option Node
  selected p (chosen id) = lookup id p.node_index
  selected p no_node = none
  selected p exhausted = none

  -- The node becomes the active one. Without an account, `acc.ID` is a nil dereference if there is a
  -- store.
  unfoldable pub force_active : String → Option String → Server F → Server F × Option Error
  force_active id none p = if p.has_store then (p, some nil_account) else (p, none)
  force_active id (some a) p = elim (lookup a p.account_by_id) [
    | none ↦ (p, none)
    | some acc ↦
        (to_store (set_active acc.id id) (put_account a (record acc { active_id = id }) p), none)
  ]

module _ {F : Type 0} (fl : FloatOps F) (w : World) (now : ℕ) where
  -- Behind the write to the store: `p` is the state before, and the error, if any, ends it.
  unfoldable pub disable_told :
      Option String → String → Node → Server F → Server F → Server F × Option Error
  unfolding tell reselect_for
  disable_told (some e) id n p p' = (p', some (store_failed e))
  disable_told none id n p p' =
      let acc = account_of p id in
      let p'' =
        tell acc
          (λ acc_id q.
            to_hub (node_status acc_id id n.name "disabled" none)
              (to_notify (publish acc_id node_disabled n.id) q))
          p' in
      (if is_active id acc then reselect_for fl w now acc p'' else p'', none)

  unfoldable pub disable_found :
      Option String → String → Option Node → Server F → Server F × Option Error
  unfolding disable_told
  disable_found store_err id none p = (p, some (node_not_found id))
  disable_found store_err id (some n) p =
      disable_told (if p.has_store then store_err else none) id n p
        (to_store (upsert_node (disabled_node n)) (put_node id (disabled_node n) p))

  -- `disableNode`
  unfoldable pub disable_node : Option String → String → Server F → Server F × Option Error
  unfolding disable_found
  disable_node store_err id p = disable_found store_err id (lookup id p.node_index) p

  unfoldable pub prefer_enabled :
      String → Node → Option (String × Account) → Server F → Server F × Option Error
  unfolding get_active_node force_active
  prefer_enabled id n acc p =
      let (p', cur) = get_active_node fl w now acc p in
      if gives_way n (selected p' cur)
      then force_active id (elim acc [ none ↦ none | some acc' ↦ some acc'.0 ]) p'
      else (p', none)

  -- Behind the write to the store: the error, if any, ends it.
  unfoldable pub enable_told :
      Option String → String → Node → Option (String × Account) → Server F → Server F × Option Error
  unfolding tell prefer_enabled
  enable_told (some e) id n acc p = (p, some (store_failed e))
  enable_told none id n acc p = prefer_enabled id (enabled_node n) acc (
      tell acc
        (λ acc_id q.
          to_hub (node_status acc_id id n.name "online" none)
            (to_notify (publish acc_id node_enabled n.id) q))
        p)

  unfoldable pub enable_found :
      Option String → String → Option Node → Server F → Server F × Option Error
  unfolding clear_failed enable_told
  enable_found store_err id none p = (p, some (node_not_found id))
  enable_found store_err id (some n) p =
      let p' =
        to_store (upsert_node (enabled_node n))
          (clear_failed id (account_of p id) (put_node id (enabled_node n) p)) in
      enable_told (if p.has_store then store_err else none) id n (account_of p' id) p'

  -- `enableNode`
  unfoldable pub enable_node : Option String → String → Server F → Server F × Option Error
  unfolding enable_found
  enable_node store_err id p = enable_found store_err id (lookup id p.node_index) p
