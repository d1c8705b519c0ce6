-- ===== src/Recovery/Agreement.antt =====
-- The operations of internal/proxy/health.go and the switches of internal/proxy/node_manager.go keep
-- a node's `Failed` and its account's `FailedSet` in agreement.
use qcc_plus.Prelude.{
  ℕ, ◌≡◌, refl, sym, subst, ◌∙◌, ap, inl, inr, String, Bool, true, false, ◌&&◌, Option, none, some,
  List, [], ◌∷◌, arith, Option-cases, if◌then◌else◌, map, contains, add_key, contains-add_key,
  lookup, insert, lookup-insert, str_eq, eq_iff,
}
use qcc_plus.Floats.{FloatOps}
use qcc_plus.Server.Defs.{Server, Node, Account, account_of}
use qcc_plus.Health.Probe.{Probe}
use qcc_plus.Health.Apply.{Noted, check_node}
use qcc_plus.Health.Keeps.{account_of-owner, account_of-lookup}
use qcc_plus.Select.Warmup.{World}
use qcc_plus.Select.Activate.{
  Selection, no_node, reselect, select_best, select_round, select_excluding, node_count,
  activate_best,
}
use qcc_plus.Select.Rounds.{Checks, start, next, Checks-Keeps, Checks-trans}
use qcc_plus.Select.Settles.{
  Outcome, missed, switched, reselect-Outcome, Trail-Checks, activate_best-frame, same_nodes,
  ready-Checks,
}
use qcc_plus.Recovery.Failing.{
  marked_failed, mark_failed, handle_found, handle_failure, reselect_for,
}
use qcc_plus.Recovery.Check.{
  announce_recovered, maybe_promote_recovered, after_check, check_node_health, check_all,
  check_account, check_accounts, check_failed_nodes, to_recheck, should_promote,
}
use qcc_plus.Recovery.Coherent.{IsCoherent, written_both, written_node, check_node-IsCoherent}

module _ {F : Type 0} where
  -- A write to an account that keeps its failed set.
  pub written_account :
      (p q : Server F) (a : String) (acc acc' : Account)
      → q.node_index ≡ p.node_index
      → q.node_account ≡ p.node_account
      → q.account_by_id ≡ insert a acc' p.account_by_id
      → lookup a p.account_by_id ≡ some acc
      → acc'.failed_set ≡ acc.failed_set
      → IsCoherent p
      → IsCoherent q
  written_account p q a acc acc' index owners accounts there same h = record {
    agree = λ j b n cur e f g.
        let e' = ap (lookup j) (sym index) ∙ e in
        let f' = ap (lookup j) (sym owners) ∙ f in
        let g' = sym (lookup-insert a b acc' p.account_by_id) ∙ ap (lookup b) (sym accounts) ∙ g in
        kept j b n cur e' f' g';
  }
    where
      kept :
          (j b : String) (n : Node) (cur : Account)
          → lookup j p.node_index ≡ some n
          → lookup j p.node_account ≡ some b
          → (if str_eq a b then some acc' else lookup b p.account_by_id) ≡ some cur
          → contains j cur.failed_set ≡ n.failed
      kept j b n cur e f g =
          ground (arith, eq_iff a b, h.agree j b n cur, h.agree j b n acc, ap (contains j) same)

  -- The same maps.
  pub same_maps :
      (p q : Server F)
      → (q.node_index ≡ p.node_index)
        × (q.node_account ≡ p.node_account)
        × (q.account_by_id ≡ p.account_by_id)
      → IsCoherent p
      → IsCoherent q
  same_maps p q (index, owners, accounts) h = record {
    agree = λ j b n cur e f g.
        h.agree j b n cur (ap (lookup j) (sym index) ∙ e) (ap (lookup j) (sym owners) ∙ f)
          (ap (lookup b) (sym accounts) ∙ g);
  }

  pub announce_recovered-frame :
      (o : Option Account) (n : Node) (p : Server F)
      → let q = announce_recovered o n p in
        (q.node_index ≡ p.node_index)
        × (q.node_account ≡ p.node_account)
        × (q.account_by_id ≡ p.account_by_id)
  unfolding announce_recovered
  announce_recovered-frame none n p = ground arith
  announce_recovered-frame (some acc) n p = ground arith

  announce_recovered-IsCoherent :
      (o : Option Account) (n : Node) (p : Server F)
      → IsCoherent p
      → IsCoherent (announce_recovered o n p)
  announce_recovered-IsCoherent o n p h =
      same_maps p (announce_recovered o n p) (announce_recovered-frame o n p) h

  pub if-IsCoherent :
      (b : Bool) (p q : Server F) → IsCoherent p → IsCoherent q → IsCoherent (if b then p else q)
  if-IsCoherent true p q h k = h
  if-IsCoherent false p q h k = k

  pub mark_failed-frame :
      (id err : String) (n : Node) (p : Server F)
      → let q = mark_failed id err n p in
        (q.node_index ≡ insert id (marked_failed err n) p.node_index)
        × (q.node_account ≡ p.node_account)
  unfolding mark_failed
  mark_failed-frame id err n p = ground arith

  pub mark_failed-accounts :
      (id err : String) (n : Node) (p : Server F) (o : Option (String × Account))
      → account_of p id ≡ o
      → (mark_failed id err n p).account_by_id ≡ elim o [
        | none ↦ p.account_by_id
        | some (a, acc) ↦
            insert a (record acc { failed_set = add_key id acc.failed_set }) p.account_by_id
      ]
  unfolding mark_failed
  mark_failed-accounts id err n p none e = ground arith
  mark_failed-accounts id err n p (some (a, acc)) e = ground arith

  mark_failed-IsCoherent :
      (id err : String) (n : Node) (p : Server F) (o : Option (String × Account))
      → account_of p id ≡ o
      → IsCoherent p
      → IsCoherent (mark_failed id err n p)
  mark_failed-IsCoherent id err n p none e h =
      let (index, owners) = mark_failed-frame id err n p in
      written_node p (mark_failed id err n p) id (marked_failed err n) index owners
        (mark_failed-accounts id err n p none e) (λ a acc f g. absurd (ground arith)) h
  mark_failed-IsCoherent id err n p (some (a, acc)) e h =
      let (index, owners) = mark_failed-frame id err n p in
      written_both p (mark_failed id err n p) id a (marked_failed err n) acc
        (record acc { failed_set = add_key id acc.failed_set }) index owners
        (mark_failed-accounts id err n p (some (a, acc)) e) (account_of-owner p id a acc e)
        (account_of-lookup p id a acc e) (λ j. ground (arith, contains-add_key id j acc.failed_set))
        h

module _ {F : Type 0} (fl : FloatOps F) (w : World) (now : ℕ) where
  Checks-IsCoherent : (p q : Server F) → Checks fl w now p q → IsCoherent p → IsCoherent q
  Checks-IsCoherent p q start h = h
  Checks-IsCoherent p q (next q' out a id k) h =
      check_node-IsCoherent fl w.env out w.latest now "warmup" a id q' (Checks-IsCoherent p q' k h)

  Outcome-IsCoherent :
      (a : String) (p : Server F) (acc : Account) (r : Server F × Selection)
      → lookup a p.account_by_id ≡ some acc
      → Outcome fl w now a p r
      → IsCoherent p
      → IsCoherent r.0
  Outcome-IsCoherent a p acc r there (missed mid acc' tried k there' best) h =
      Checks-IsCoherent p mid (Trail-Checks fl w now a p tried mid k) h
  Outcome-IsCoherent a p acc r there (switched mid settled acc' tried id n k there' best ready) h =
      let all =
        Checks-trans fl w now p mid settled (Trail-Checks fl w now a p tried mid k)
          (ready-Checks fl w now mid id n settled ready) in
      let (cur, found, _) =
        same_nodes a p settled acc (Checks-Keeps fl w now p settled all) there in
      let (accounts, index, owners) = activate_best-frame a acc' cur id n settled found in
      written_account settled (activate_best a acc' id n settled) a cur
        (record cur { active_id = id }) index owners accounts found refl
        (Checks-IsCoherent p settled all h)

  pub reselect_unknown :
      (a : String) (p : Server F)
      → lookup a p.account_by_id ≡ none
      → reselect fl w now a p ≡ (p, no_node)
  unfolding reselect select_best select_round
  reselect_unknown a p gone =
      ap {B = Server F × Selection}
        (λ (o : Option Account).
          select_round fl w now (select_excluding fl w now (node_count a p) a) [] a o p)
        gone

  -- A switch keeps the two places in agreement.
  pub reselect-IsCoherent :
      (a : String) (p : Server F) → IsCoherent p → IsCoherent (reselect fl w now a p).0
  reselect-IsCoherent a p h = elim (Option-cases (lookup a p.account_by_id)) [
    | inl gone ↦
        subst (λ (r : Server F × Selection). IsCoherent r.0) (sym (reselect_unknown a p gone)) h
    | inr (acc, there) ↦
        Outcome-IsCoherent a p acc (reselect fl w now a p) there
          (reselect-Outcome fl w now a p acc there) h
  ]

  pub reselect_for-IsCoherent :
      (o : Option (String × Account)) (p : Server F)
      → IsCoherent p
      → IsCoherent (reselect_for fl w now o p)
  unfolding reselect_for
  reselect_for-IsCoherent none p h = h
  reselect_for-IsCoherent (some (a, acc)) p h = reselect-IsCoherent a p h

  handle_found-IsCoherent :
      (id err : String) (o : Option Node) (p : Server F)
      → IsCoherent p
      → IsCoherent (handle_found fl w now id err o p)
  unfolding handle_found
  handle_found-IsCoherent id err none p h = h
  handle_found-IsCoherent id err (some n) p h =
      reselect_for-IsCoherent (account_of p id) (mark_failed id err n p)
        (mark_failed-IsCoherent id err n p (account_of p id) refl h)

  -- A failure that is handled keeps the two places in agreement.
  pub handle_failure-IsCoherent :
      (id err : String) (p : Server F)
      → IsCoherent p
      → IsCoherent (handle_failure fl w now id err p)
  unfolding handle_failure
  handle_failure-IsCoherent id err p h = handle_found-IsCoherent id err (lookup id p.node_index) p h

  after_check-IsCoherent :
      (warmup : Bool) (a id : String) (r : Option (Probe × Noted)) (o : Option Node) (p : Server F)
      → IsCoherent p
      → IsCoherent (after_check fl w now warmup a id r o p).0
  unfolding after_check maybe_promote_recovered
  after_check-IsCoherent true a id r o p h = h
  after_check-IsCoherent false a id none o p h = h
  after_check-IsCoherent false a id (some r) none p h = h
  after_check-IsCoherent false a id (some (pr, k)) (some n) p h =
      let p' =
        if pr.ok && k.was_failed then announce_recovered (lookup a p.account_by_id) n p else p in
      let h' : IsCoherent p' =
        if-IsCoherent (pr.ok && k.was_failed) (announce_recovered (lookup a p.account_by_id) n p) p
          (announce_recovered-IsCoherent (lookup a p.account_by_id) n p h) h in
      if-IsCoherent (should_promote pr k n) (reselect_for fl w now (account_of p' n.id) p') p'
        (reselect_for-IsCoherent (account_of p' n.id) p' h') h'

  -- A health check as a whole keeps the two places in agreement.
  pub check_node_health-IsCoherent :
      (source a id : String) (p : Server F)
      → IsCoherent p
      → IsCoherent (check_node_health fl w now source a id p).0
  unfolding check_node_health
  check_node_health-IsCoherent source a id p h =
      let (p', r) = check_node fl w.env w.outside w.latest now source a id p in
      after_check-IsCoherent (str_eq source "warmup") a id r (lookup id p'.node_index) p'
        (check_node-IsCoherent fl w.env w.outside w.latest now source a id p h)

  check_all-IsCoherent :
      (a : String) (ids : List String) (p : Server F)
      → IsCoherent p
      → IsCoherent (check_all fl w now a ids p).0
  unfolding check_all
  check_all-IsCoherent a [] p h = h
  check_all-IsCoherent a (id ∷ ids) p h =
      check_all-IsCoherent a ids (check_node_health fl w now "recovery" a id p).0
        (check_node_health-IsCoherent "recovery" a id p h)

  check_account-IsCoherent :
      (skip : Bool) (a : String) (o : Option Account) (p : Server F)
      → IsCoherent p
      → IsCoherent (check_account fl w now skip a o p).0
  unfolding check_account
  check_account-IsCoherent skip a none p h = h
  check_account-IsCoherent skip a (some acc) p h =
      check_all-IsCoherent a (to_recheck skip p acc acc.failed_set) p h

  check_accounts-IsCoherent :
      (skip : Bool) (as' : List String) (p : Server F)
      → IsCoherent p
      → IsCoherent (check_accounts fl w now skip as' p).0
  unfolding check_accounts
  check_accounts-IsCoherent skip [] p h = h
  check_accounts-IsCoherent skip (a ∷ others) p h =
      check_accounts-IsCoherent skip others
        (check_account fl w now skip a (lookup a p.account_by_id) p).0
        (check_account-IsCoherent skip a (lookup a p.account_by_id) p h)

  -- A round of recovery checks over all accounts keeps the two places in agreement.
  pub check_failed_nodes-IsCoherent :
      (skip_disabled : Bool) (p : Server F)
      → IsCoherent p
      → IsCoherent (check_failed_nodes fl w now skip_disabled p).0
  unfolding check_failed_nodes
  check_failed_nodes-IsCoherent skip_disabled p h =
      check_accounts-IsCoherent skip_disabled (map (λ e. e.0) p.account_by_id) p h
