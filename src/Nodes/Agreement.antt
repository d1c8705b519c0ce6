-- ===== src/Nodes/Agreement.antt =====
-- The operations of internal/proxy/node_manager.go keep a node's `Failed` and its account's
-- `FailedSet` in agreement.
use qcc_plus.Prelude.{
  ℕ, ◌≡◌, refl, sym, subst, ◌∙◌, ap, ◌⊎◌, inl, inr, String, Bool, Option, none, some, arith,
  Bool-cases, Option-cases, if◌then◌else◌, contains, contains-remove_key, lookup, insert, erase,
  lookup-insert, lookup-erase, str_eq, eq_iff,
}
use qcc_plus.Floats.{FloatOps}
use qcc_plus.Server.Defs.{
  Server, Node, Account, Url, account_of, put_node, to_store, to_notify, upsert_node, to_hub,
  publish, node_disabled, node_updated, node_status, base_url_required, Env,
}
use qcc_plus.Health.Keeps.{account_of-lookup}
use qcc_plus.Select.Warmup.{World}
use qcc_plus.Prelude.{eq_ℤ}
use qcc_plus.Recovery.Failing.{reselect_for}
use qcc_plus.Recovery.Coherent.{IsCoherent, written_node}
use qcc_plus.Recovery.Agreement.{same_maps, written_account, if-IsCoherent, reselect_for-IsCoherent}
use qcc_plus.Nodes.Manage.{
  NodeChange, changed_node, without, without_node, delete_from_server, activate, activate_found,
  change_told, update_found, update_parsed, update_node, tell,
}
use qcc_plus.Nodes.Toggle.{disabled_node, disable_told, disable_found, disable_node, is_active}

changed_node-failed :
    (env : Env) (u : Url) (r : NodeChange) (n : Node) → (changed_node env u r n).failed ≡ n.failed
unfolding changed_node
changed_node-failed env u r n = refl

module _ {F : Type 0} where
  -- The account of an id has the write of `without_node`, or there is none.
  pub without_node-accounts :
      (id : String) (p : Server F) (o : Option (String × Account))
      → account_of p id ≡ o
      → (without_node id p).account_by_id ≡ elim o [
        | none ↦ p.account_by_id
        | some (a, acc) ↦ insert a (without id acc) p.account_by_id
      ]
  unfolding without_node
  without_node-accounts id p none e = ground arith
  without_node-accounts id p (some (a, acc)) e = ground arith

  pub without_node-frame :
      (id : String) (p : Server F)
      → ((without_node id p).node_index ≡ erase id p.node_index)
        × ((without_node id p).node_account ≡ erase id p.node_account)
  unfolding without_node
  without_node-frame id p = ground arith

  without_node-IsCoherent :
      (id : String) (p : Server F) (o : Option (String × Account))
      → account_of p id ≡ o
      → IsCoherent p
      → IsCoherent (without_node id p)
  without_node-IsCoherent id p o owner h = record {
    agree = λ j b n cur e f g.
        let (index, owners) = without_node-frame id p in
        let e' = sym (lookup-erase id j p.node_index) ∙ ap (lookup j) (sym index) ∙ e in
        let f' = sym (lookup-erase id j p.node_account) ∙ ap (lookup j) (sym owners) ∙ f in
        let g' = ap (lookup b) (sym (without_node-accounts id p o owner)) ∙ g in
        rest o owner j b n cur e' f' g';
  }
    where
      rest :
          (o : Option (String × Account))
          → account_of p id ≡ o
          → (j b : String) (n : Node) (cur : Account)
          → (if str_eq id j then none else lookup j p.node_index) ≡ some n
          → (if str_eq id j then none else lookup j p.node_account) ≡ some b
          → lookup b (elim o [
            | none ↦ p.account_by_id
            | some (a, acc) ↦ insert a (without id acc) p.account_by_id
          ])
            ≡ some cur
          → contains j cur.failed_set ≡ n.failed
      rest none owner j b n cur e f g = ground (arith, h.agree j b n cur)
      rest (some (a, acc)) owner j b n cur e f g =
          let g' = sym (lookup-insert a b (without id acc) p.account_by_id) ∙ g in
          ground (
            arith,
            eq_iff a b,
            h.agree j b n cur,
            h.agree j b n acc,
            account_of-lookup p id a acc owner,
            contains-remove_key id j acc.failed_set,
          )

  -- Whatever the store answers, a deletion leaves the maps of `without_node`, or none if the node is
  -- not there.
  pub delete_from_server-maps :
      (store_err : Option String) (id : String) (p : Server F)
      → let q = (delete_from_server store_err id p).0 in
        ((lookup id p.node_index ≡ none) × (q ≡ p))
        ⊎ ((q.node_index ≡ (without_node id p).node_index)
            × (q.node_account ≡ (without_node id p).node_account)
            × (q.account_by_id ≡ (without_node id p).account_by_id))
  unfolding delete_from_server
  delete_from_server-maps store_err id p = elim (Option-cases (lookup id p.node_index)) [
    | inl gone ↦ inl (gone, ground arith)
    | inr (n, there) ↦ inr (ground arith)
  ]

  -- A deletion keeps the two places in agreement, whatever the store answers.
  pub delete_from_server-IsCoherent :
      (store_err : Option String) (id : String) (p : Server F)
      → IsCoherent p
      → IsCoherent (delete_from_server store_err id p).0
  delete_from_server-IsCoherent store_err id p h = elim (delete_from_server-maps store_err id p) [
    | inl (gone, same) ↦ subst IsCoherent (sym same) h
    | inr maps ↦
        same_maps (without_node id p) (delete_from_server store_err id p).0 maps
          (without_node-IsCoherent id p (account_of p id) refl h)
  ]

  activate_found-maps :
      (id a : String) (acc : Account) (p : Server F)
      → let q = (activate_found id (some (a, acc)) p).0 in
        (q.node_index ≡ p.node_index)
        × (q.node_account ≡ p.node_account)
        × ((q.account_by_id ≡ p.account_by_id)
            ⊎ (q.account_by_id ≡ insert a (record acc { active_id = id }) p.account_by_id))
  unfolding activate_found
  activate_found-maps id a acc p = elim (Bool-cases (contains id acc.nodes)) [
    | inl listed ↦ (ground arith, ground arith, inr (ground arith))
    | inr unlisted ↦ (ground arith, ground arith, inl (ground arith))
  ]

  activate_found-IsCoherent :
      (id : String) (o : Option (String × Account)) (p : Server F)
      → account_of p id ≡ o
      → IsCoherent p
      → IsCoherent (activate_found id o p).0
  unfolding activate_found
  activate_found-IsCoherent id none p owner h = h
  activate_found-IsCoherent id (some (a, acc)) p owner h =
      let q = (activate_found id (some (a, acc)) p).0 in
      let (index, owners, accounts) = activate_found-maps id a acc p in
      elim accounts [
        | inl same ↦ same_maps p q (index, owners, same) h
        | inr changed ↦
            written_account p q a acc (record acc { active_id = id }) index owners changed
              (account_of-lookup p id a acc owner) refl h
      ]

  -- An activation keeps the two places in agreement.
  pub activate-IsCoherent :
      (id : String) (p : Server F) → IsCoherent p → IsCoherent (activate id p).0
  unfolding activate
  activate-IsCoherent id p h = activate_found-IsCoherent id (account_of p id) p refl h

  pub tell-IsCoherent :
      (o : Option (String × Account)) (f : String → Server F → Server F) (p : Server F)
      → ((s : String) (q : Server F)
          → ((f s q).node_index ≡ q.node_index)
            × ((f s q).node_account ≡ q.node_account)
            × ((f s q).account_by_id ≡ q.account_by_id))
      → IsCoherent p
      → IsCoherent (tell o f p)
  unfolding tell
  tell-IsCoherent none f p quiet h = h
  tell-IsCoherent (some (a, acc)) f p quiet h = same_maps p (f acc.id p) (quiet acc.id p) h

  -- A node that is written with the flag it had, and to the store.
  written_through :
      (id : String) (n n' : Node) (p : Server F)
      → lookup id p.node_index ≡ some n
      → n'.failed ≡ n.failed
      → IsCoherent p
      → IsCoherent (to_store (upsert_node n') (put_node id n' p))
  written_through id n n' p there same h =
      written_node p (to_store (upsert_node n') (put_node id n' p)) id n' (ground arith)
        (ground arith) (ground arith) (λ a acc f g. h.agree id a n acc there f g ∙ sym same) h

module _ {F : Type 0} (fl : FloatOps F) (w : World) (now : ℕ) where
  disable_told-IsCoherent :
      (e : Option String) (id : String) (n : Node) (p q : Server F)
      → IsCoherent q
      → IsCoherent (disable_told fl w now e id n p q).0
  unfolding disable_told
  disable_told-IsCoherent (some e) id n p q h = h
  disable_told-IsCoherent none id n p q h =
      let acc = account_of p id in
      let told =
        tell acc
          (λ acc_id r.
            to_hub (node_status acc_id id n.name "disabled" none)
              (to_notify (publish acc_id node_disabled n.id) r))
          q in
      let h' : IsCoherent told =
        tell-IsCoherent acc
          (λ acc_id r.
            to_hub (node_status acc_id id n.name "disabled" none)
              (to_notify (publish acc_id node_disabled n.id) r))
          q (λ s r. ground arith) h in
      if-IsCoherent (is_active id acc) (reselect_for fl w now acc told) told
        (reselect_for-IsCoherent fl w now acc told h') h'

  disable_found-IsCoherent :
      (store_err : Option String) (id : String) (o : Option Node) (p : Server F)
      → lookup id p.node_index ≡ o
      → IsCoherent p
      → IsCoherent (disable_found fl w now store_err id o p).0
  unfolding disable_found
  disable_found-IsCoherent store_err id none p there h = h
  disable_found-IsCoherent store_err id (some n) p there h =
      disable_told-IsCoherent (if p.has_store then store_err else none) id n p
        (to_store (upsert_node (disabled_node n)) (put_node id (disabled_node n) p))
        (written_through id n (disabled_node n) p there refl h)

  -- A disabling keeps the two places in agreement, whatever the store answers.
  pub disable_node-IsCoherent :
      (store_err : Option String) (id : String) (p : Server F)
      → IsCoherent p
      → IsCoherent (disable_node fl w now store_err id p).0
  unfolding disable_node
  disable_node-IsCoherent store_err id p h =
      disable_found-IsCoherent store_err id (lookup id p.node_index) p refl h

  change_told-IsCoherent :
      (e : Option String) (id : String) (n n' : Node) (p q : Server F)
      → IsCoherent q
      → IsCoherent (change_told fl w now e id n n' p q).0
  unfolding change_told
  change_told-IsCoherent (some e) id n n' p q h = h
  change_told-IsCoherent none id n n' p q h =
      let acc = account_of p id in
      let told = tell acc (λ acc_id r. to_notify (publish acc_id node_updated n'.id) r) q in
      let h' : IsCoherent told =
        tell-IsCoherent acc (λ acc_id r. to_notify (publish acc_id node_updated n'.id) r) q
          (λ s r. ground arith) h in
      if-IsCoherent (eq_ℤ n.weight n'.weight) told (reselect_for fl w now acc told) h'
        (reselect_for-IsCoherent fl w now acc told h')

  update_found-IsCoherent :
      (store_err : Option String) (id : String) (u : Url) (r : NodeChange) (o : Option Node)
      (p : Server F)
      → lookup id p.node_index ≡ o
      → IsCoherent p
      → IsCoherent (update_found fl w now store_err id u r o p).0
  unfolding update_found
  update_found-IsCoherent store_err id u r none p there h = h
  update_found-IsCoherent store_err id u r (some n) p there h =
      let n' = changed_node w.env u r n in
      change_told-IsCoherent (if p.has_store then store_err else none) id n n' p
        (to_store (upsert_node n') (put_node id n' p))
        (written_through id n n' p there (changed_node-failed w.env u r n) h)

  update_parsed-IsCoherent :
      (store_err : Option String) (id : String) (r : NodeChange) (u : String ⊎ Url) (p : Server F)
      → IsCoherent p
      → IsCoherent (update_parsed fl w now store_err id r u p).0
  unfolding update_parsed
  update_parsed-IsCoherent store_err id r (inl e) p h = h
  update_parsed-IsCoherent store_err id r (inr u) p h =
      update_found-IsCoherent store_err id u r (lookup id p.node_index) p refl h

  -- An update keeps the two places in agreement, whatever the store answers.
  pub update_node-IsCoherent :
      (store_err : Option String) (id : String) (r : NodeChange) (p : Server F)
      → IsCoherent p
      → IsCoherent (update_node fl w now store_err id r p).0
  unfolding update_node
  update_node-IsCoherent store_err id r p h = elim (Bool-cases (str_eq r.raw_url "")) [
    | inl empty ↦
        subst
          (λ (b : Bool).
            IsCoherent
              (if b
                then (p, some base_url_required)
                else update_parsed fl w now store_err id r (w.env.parse_url r.raw_url) p).0)
          (sym empty) h
    | inr given ↦
        subst
          (λ (b : Bool).
            IsCoherent
              (if b
                then (p, some base_url_required)
                else update_parsed fl w now store_err id r (w.env.parse_url r.raw_url) p).0)
          (sym given) (update_parsed-IsCoherent store_err id r (w.env.parse_url r.raw_url) p h)
  ]
