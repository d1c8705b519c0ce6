-- ===== src/Nodes/Enabling.antt =====
-- Enabling a node keeps its `Failed` and its account's `FailedSet` in agreement:
-- internal/proxy/node_manager.go.
use qcc_plus.Prelude.{
  ℕ, ◌≡◌, refl, inl, inr, String, Bool, true, false, Option, none, some, arith, Option-cases,
  if◌then◌else◌, remove_key, contains-remove_key, lookup, insert, ◌||◌,
}
use qcc_plus.Floats.{FloatOps}
use qcc_plus.Server.Defs.{
  Server, Node, Account, account_of, account_node, put_node, to_store, to_hub, to_notify,
  upsert_node, publish, node_status, node_enabled,
}
use qcc_plus.Health.Keeps.{account_of-owner, account_of-lookup}
use qcc_plus.Select.Warmup.{World}
use qcc_plus.Select.Activate.{Selection, reselect}
use qcc_plus.Recovery.Coherent.{IsCoherent, written_both, written_node}
use qcc_plus.Recovery.Agreement.{same_maps, written_account, reselect-IsCoherent}
use qcc_plus.Nodes.Manage.{get_active_node, active_or_best}
use qcc_plus.Nodes.Toggle.{
  enabled_node, clear_failed, selected, gives_way, force_active, prefer_enabled, enable_told,
  enable_found, enable_node,
}
use qcc_plus.Nodes.Agreement.{tell-IsCoherent}

module _ {F : Type 0} where
  enabled-frame :
      (id : String) (n : Node) (o : Option (String × Account)) (p : Server F)
      → let q =
          to_store
            (upsert_node (enabled_node n))
            (clear_failed id o (put_node id (enabled_node n) p)) in
        (q.node_index ≡ insert id (enabled_node n) p.node_index)
        × (q.node_account ≡ p.node_account)
        × (q.account_by_id ≡ elim o [
          | none ↦ p.account_by_id
          | some (a, acc) ↦
              insert a (record acc { failed_set = remove_key id acc.failed_set }) p.account_by_id
        ])
  unfolding clear_failed
  enabled-frame id n none p = ground arith
  enabled-frame id n (some (a, acc)) p = ground arith

  enabled-IsCoherent :
      (id : String) (n : Node) (o : Option (String × Account)) (p : Server F)
      → account_of p id ≡ o
      → IsCoherent p
      → IsCoherent (
          to_store
            (upsert_node (enabled_node n))
            (clear_failed id o (put_node id (enabled_node n) p)))
  enabled-IsCoherent id n none p owner h =
      let (index, owners, accounts) = enabled-frame id n none p in
      written_node p
        (to_store (upsert_node (enabled_node n))
          (clear_failed id none (put_node id (enabled_node n) p)))
        id (enabled_node n) index owners accounts (λ a acc f g. absurd (ground arith)) h
  enabled-IsCoherent id n (some (a, acc)) p owner h =
      let (index, owners, accounts) = enabled-frame id n (some (a, acc)) p in
      written_both p
        (to_store (upsert_node (enabled_node n))
          (clear_failed id (some (a, acc)) (put_node id (enabled_node n) p)))
        id a (enabled_node n) acc (record acc { failed_set = remove_key id acc.failed_set }) index
        owners accounts (account_of-owner p id a acc owner) (account_of-lookup p id a acc owner)
        (λ j. ground (arith, contains-remove_key id j acc.failed_set)) h

  force_active-known :
      (id a : String) (acc : Account) (p : Server F)
      → lookup a p.account_by_id ≡ some acc
      → let q = (force_active id (some a) p).0 in
        (q.node_index ≡ p.node_index)
        × (q.node_account ≡ p.node_account)
        × (q.account_by_id ≡ insert a (record acc { active_id = id }) p.account_by_id)
  unfolding force_active
  force_active-known id a acc p there = ground arith

  force_active-unknown :
      (id a : String) (p : Server F)
      → lookup a p.account_by_id ≡ none
      → let q = (force_active id (some a) p).0 in
        (q.node_index ≡ p.node_index)
        × (q.node_account ≡ p.node_account)
        × (q.account_by_id ≡ p.account_by_id)
  unfolding force_active
  force_active-unknown id a p gone = ground arith

  force_active-nil :
      (id : String) (p : Server F)
      → let q = (force_active id none p).0 in
        (q.node_index ≡ p.node_index)
        × (q.node_account ≡ p.node_account)
        × (q.account_by_id ≡ p.account_by_id)
  unfolding force_active
  force_active-nil id p = ground arith

  force_active-IsCoherent :
      (id : String) (o : Option String) (p : Server F)
      → IsCoherent p
      → IsCoherent (force_active id o p).0
  force_active-IsCoherent id none p h =
      same_maps p (force_active id none p).0 (force_active-nil id p) h
  force_active-IsCoherent id (some a) p h = elim (Option-cases (lookup a p.account_by_id)) [
    | inl gone ↦ same_maps p (force_active id (some a) p).0 (force_active-unknown id a p gone) h
    | inr (acc, there) ↦
        let (index, owners, accounts) = force_active-known id a acc p there in
        written_account p (force_active id (some a) p).0 a acc (record acc { active_id = id }) index
          owners accounts there refl h
  ]

  chosen-IsCoherent :
      (b : Bool) (id : String) (o : Option String) (p : Server F)
      → IsCoherent p
      → IsCoherent (if b then force_active id o p else (p, none)).0
  chosen-IsCoherent true id o p h = force_active-IsCoherent id o p h
  chosen-IsCoherent false id o p h = h

  kept_or-IsCoherent :
      (b : Bool) (p : Server F) (r : Server F × Selection) (s : Selection)
      → IsCoherent p
      → IsCoherent r.0
      → IsCoherent (if b then r else (p, s)).0
  kept_or-IsCoherent true p r s h k = k
  kept_or-IsCoherent false p r s h k = h

module _ {F : Type 0} (fl : FloatOps F) (w : World) (now : ℕ) where
  active_or_best-IsCoherent :
      (a : String) (acc : Account) (o : Option Node) (p : Server F)
      → IsCoherent p
      → IsCoherent (active_or_best fl w now a acc o p).0
  unfolding active_or_best
  active_or_best-IsCoherent a acc none p h = reselect-IsCoherent fl w now a p h
  active_or_best-IsCoherent a acc (some n) p h =
      kept_or-IsCoherent (n.failed || n.disabled) p (reselect fl w now a p) _ h
        (reselect-IsCoherent fl w now a p h)

  -- To look up the active node, with the switch if it is missing, failed or disabled, keeps the two
  -- places in agreement.
  pub get_active_node-IsCoherent :
      (o : Option (String × Account)) (p : Server F)
      → IsCoherent p
      → IsCoherent (get_active_node fl w now o p).0
  unfolding get_active_node
  get_active_node-IsCoherent none p h = h
  get_active_node-IsCoherent (some (a, acc)) p h =
      active_or_best-IsCoherent a acc (account_node p acc acc.active_id) p h

  prefer_enabled-IsCoherent :
      (id : String) (n : Node) (o : Option (String × Account)) (p : Server F)
      → IsCoherent p
      → IsCoherent (prefer_enabled fl w now id n o p).0
  unfolding prefer_enabled
  prefer_enabled-IsCoherent id n o p h =
      let (p', cur) = get_active_node fl w now o p in
      chosen-IsCoherent (gives_way n (selected p' cur)) id
        (elim o [ none ↦ none | some acc' ↦ some acc'.0 ]) p' (get_active_node-IsCoherent o p h)

  enable_told-IsCoherent :
      (e : Option String) (id : String) (n : Node) (o : Option (String × Account)) (p : Server F)
      → IsCoherent p
      → IsCoherent (enable_told fl w now e id n o p).0
  unfolding enable_told
  enable_told-IsCoherent (some e) id n o p h = h
  enable_told-IsCoherent none id n o p h = prefer_enabled-IsCoherent id (enabled_node n) o _ (
      tell-IsCoherent o
        (λ acc_id q.
          to_hub (node_status acc_id id n.name "online" none)
            (to_notify (publish acc_id node_enabled n.id) q))
        p (λ s r. ground arith) h)

  enable_found-IsCoherent :
      (store_err : Option String) (id : String) (o : Option Node) (p : Server F)
      → IsCoherent p
      → IsCoherent (enable_found fl w now store_err id o p).0
  unfolding enable_found
  enable_found-IsCoherent store_err id none p h = h
  enable_found-IsCoherent store_err id (some n) p h =
      let p' =
        to_store (upsert_node (enabled_node n))
          (clear_failed id (account_of p id) (put_node id (enabled_node n) p)) in
      enable_told-IsCoherent (if p.has_store then store_err else none) id n (account_of p' id) p'
        (enabled-IsCoherent id n (account_of p id) p refl h)

  -- An enabling, which clears a failure in both places and may activate the node, keeps them in
  -- agreement, whatever the store answers.
  pub enable_node-IsCoherent :
      (store_err : Option String) (id : String) (p : Server F)
      → IsCoherent p
      → IsCoherent (enable_node fl w now store_err id p).0
  unfolding enable_node
  enable_node-IsCoherent store_err id p h =
      enable_found-IsCoherent store_err id (lookup id p.node_index) p h
