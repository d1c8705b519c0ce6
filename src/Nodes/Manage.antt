-- ===== src/Nodes/Manage.antt =====
-- internal/proxy/node_manager.go: `addNodeWithMethod`, `updateNode`, `deleteNode`, `activate` and
-- `getActiveNodeForAccount`. What a call of the store answers is an argument, an error or none.
use qcc_plus.Prelude.{
  ℕ, ℤ, pos, String, Bool, true, false, ◌||◌, ◌⊎◌, inl, inr, Option, none, some, str_eq, ltb_ℤ,
  leb_ℤ, if◌then◌else◌, lookup, insert, erase, contains, add_key, remove_key,
}
use qcc_plus.Floats.{FloatOps}
use qcc_plus.Server.Defs.{
  Url, Server, Node, Account, Env, Error, no_metrics, account_required, base_url_required, bad_url,
  node_not_found, store_failed, default_model, choose_non_empty, normalize_method, usable_method,
  account_of, account_node, put_node, put_account, to_store, to_notify, upsert_node, delete_node,
  set_active, publish, node_added, node_updated, node_deleted,
}
use qcc_plus.Select.Warmup.{World}
use qcc_plus.Prelude.{eq_ℤ}
use qcc_plus.Select.Activate.{Selection, chosen, no_node, reselect}
use qcc_plus.Recovery.Failing.{reselect_for}

-- A weight that is not positive becomes 1.
abbrev pub positive_weight : ℤ → ℤ
positive_weight weight = if leb_ℤ weight (pos 0) then pos 1 else weight

-- The arguments of `addNodeWithMethod`, and the id that it makes from the clock.
pub record NewNode : Type 0 where
  pub id : String
  pub name : String
  pub raw_url : String
  pub api_key : String
  pub weight : ℤ
  pub health_method : String
  pub health_model : String

-- The node that is added at `now`.
unfoldable pub made_node : Env → ℕ → Account → Url → NewNode → Node
unfolding normalize_method
made_node env now acc u r = record {
  id = r.id;
  name = if str_eq r.name "" then u.host else r.name;
  url = u;
  api_key = r.api_key;
  health_check_method =
      usable_method env
        (normalize_method env
          (if str_eq r.health_method "" then env.default_method else r.health_method))
        r.api_key;
  health_check_model = choose_non_empty r.health_model default_model;
  account_id = acc.id;
  created_at = now;
  metrics = no_metrics;
  weight = positive_weight r.weight;
  failed = false;
  disabled = false;
  last_error = "";
}

-- The arguments of `updateNode`; a nil pointer is `none`.
pub record NodeChange : Type 0 where
  pub name : String
  pub raw_url : String
  pub api_key : Option String
  pub weight : ℤ
  pub health_method : Option String
  pub health_model : Option String

abbrev or_else : String → Option String → String
or_else s none = s
or_else s (some t) = t

unfoldable pub changed_node : Env → Url → NodeChange → Node → Node
unfolding normalize_method
changed_node env u r n =
    let key = or_else n.api_key r.api_key in
    record n {
      name = if str_eq r.name "" then n.name else r.name;
      url = u;
      api_key = key;
      weight = positive_weight r.weight;
      health_check_method =
          usable_method env (normalize_method env (or_else n.health_check_method r.health_method))
            key;
      health_check_model =
          choose_non_empty (or_else n.health_check_model r.health_model) default_model;
    }

-- Whether a new node with this weight asks for a switch.
abbrev pub outranks : ℤ → Option Node → Bool
outranks weight none = true
outranks weight (some cur) = cur.failed || cur.disabled || ltb_ℤ weight cur.weight

-- The account without a node.
abbrev pub without : String → Account → Account
without id acc = record acc {
  nodes = remove_key id acc.nodes;
  failed_set = remove_key id acc.failed_set;
  active_id = if str_eq acc.active_id id then "" else acc.active_id;
}

module _ {F : Type 0} where
  -- The three maps with the new node.
  unfoldable pub with_node : String → Account → String → Node → Server F → Server F
  with_node a acc id n p = record p {
    account_by_id = insert a (record acc { nodes = add_key id acc.nodes }) p.account_by_id;
    node_index = insert id n p.node_index;
    node_account = insert id a p.node_account;
  }

  unfoldable pub remove_from_account : String → Option (String × Account) → Server F → Server F
  remove_from_account id none p = p
  remove_from_account id (some (a, acc)) p = put_account a (without id acc) p

  unfoldable pub without_node : String → Server F → Server F
  unfolding remove_from_account
  without_node id p = record (remove_from_account id (account_of p id) p) {
    node_index = erase id p.node_index;
    node_account = erase id p.node_account;
  }

  -- An event about a node, if it has an account.
  unfoldable pub tell :
      Option (String × Account) → (String → Server F → Server F) → Server F → Server F
  tell none f p = p
  tell (some (a, acc)) f p = f acc.id p

  unfoldable pub delete_from_server : Option String → String → Server F → Server F × Option Error
  unfolding without_node tell
  delete_from_server store_err id p = elim (lookup id p.node_index) [
    | none ↦ (p, some (node_not_found id))
    | some n ↦
        let p' = to_store (delete_node id) (without_node id p) in
        elim (if p.has_store then store_err else none) [
          | some e ↦ (p', some (store_failed e))
          | none ↦ (
            tell (account_of p id) (λ acc_id q. to_notify (publish acc_id node_deleted n.id) q) p',
            none,
          )
        ]
  ]

  unfoldable pub activate_found :
      String → Option (String × Account) → Server F → Server F × Option Error
  activate_found id none p = (p, some (node_not_found id))
  activate_found id (some (a, acc)) p =
      if contains id acc.nodes
      then (to_store (set_active acc.id id) (put_account a (record acc { active_id = id }) p), none)
      else (p, some (node_not_found id))

  -- `activate`
  unfoldable pub activate : String → Server F → Server F × Option Error
  unfolding activate_found
  activate id p = activate_found id (account_of p id) p

module _ {F : Type 0} (fl : FloatOps F) (w : World) (now : ℕ) where
  unfoldable pub add_made : String → Account → Node → Server F → Server F
  unfolding with_node reselect
  add_made a acc n p =
      let p' = with_node a acc n.id n p in
      let need_switch =
        outranks n.weight
          (account_node p' (record acc { nodes = add_key n.id acc.nodes }) acc.active_id) in
      let p'' = to_notify (publish acc.id node_added n.id) (to_store (upsert_node n) p') in
      if need_switch then (reselect fl w now a p'').0 else p''

  unfoldable pub add_parsed :
      String → Account → NewNode → String ⊎ Url → Server F → Server F × (Error ⊎ String)
  unfolding made_node add_made
  add_parsed a acc r (inl e) p = (p, inl (bad_url e))
  add_parsed a acc r (inr u) p = (add_made a acc (made_node w.env now acc u r) p, inr r.id)

  -- `addNodeWithMethod`: an error, or the id of the new node.
  unfoldable pub add_node :
      Option (String × Account) → NewNode → Server F → Server F × (Error ⊎ String)
  unfolding add_parsed
  add_node none r p = (p, inl account_required)
  add_node (some (a, acc)) r p =
      if str_eq r.raw_url ""
      then (p, inl base_url_required)
      else add_parsed a acc r (w.env.parse_url r.raw_url) p

  -- Behind the write to the store: `p` is the state before, and the error, if any, ends it.
  unfoldable pub change_told :
      Option String → String → Node → Node → Server F → Server F → Server F × Option Error
  unfolding tell reselect_for
  change_told (some e) id n n' p p' = (p', some (store_failed e))
  change_told none id n n' p p' =
      let acc = account_of p id in
      let p'' = tell acc (λ acc_id q. to_notify (publish acc_id node_updated n'.id) q) p' in
      (if eq_ℤ n.weight n'.weight then p'' else reselect_for fl w now acc p'', none)

  unfoldable pub update_found :
      Option String → String → Url → NodeChange → Option Node → Server F → Server F × Option Error
  unfolding changed_node change_told
  update_found store_err id u r none p = (p, some (node_not_found id))
  update_found store_err id u r (some n) p =
      let n' = changed_node w.env u r n in
      change_told (if p.has_store then store_err else none) id n n' p
        (to_store (upsert_node n') (put_node id n' p))

  unfoldable pub update_parsed :
      Option String → String → NodeChange → String ⊎ Url → Server F → Server F × Option Error
  unfolding update_found
  update_parsed store_err id r (inl e) p = (p, some (bad_url e))
  update_parsed store_err id r (inr u) p = update_found store_err id u r (lookup id p.node_index) p

  -- `updateNode`
  unfoldable pub update_node :
      Option String → String → NodeChange → Server F → Server F × Option Error
  unfolding update_parsed
  update_node store_err id r p =
      if str_eq r.raw_url ""
      then (p, some base_url_required)
      else update_parsed store_err id r (w.env.parse_url r.raw_url) p

  unfoldable pub active_or_best : String → Account → Option Node → Server F → Server F × Selection
  unfolding reselect
  active_or_best a acc none p = reselect fl w now a p
  active_or_best a acc (some n) p =
      if n.failed || n.disabled then reselect fl w now a p else (p, chosen acc.active_id)

  -- `getActiveNodeForAccount`
  unfoldable pub get_active_node : Option (String × Account) → Server F → Server F × Selection
  unfolding active_or_best
  get_active_node none p = (p, no_node)
  get_active_node (some (a, acc)) p = active_or_best a acc (account_node p acc acc.active_id) p
