-- ===== src/Nodes/Effects.antt =====
-- What a deletion and a disabling leave: internal/proxy/node_manager.go.
use qcc_plus.Prelude.{
  ℕ, ◌≡◌, sym, subst, ◌∙◌, ap, inl, inr, ◌≢◌, String, Bool, true, false, Option, none, some, List,
  arith, contains, contains-remove_key, lookup, lookup-insert_self, lookup-erase_self, str_eq_self,
  eq_iff,
}
use mathlib.Core.Option
use qcc_plus.Floats.{FloatOps}
use qcc_plus.Server.Defs.{Server, Node, Account, account_of}
use qcc_plus.Health.Keeps.{static, Keeps}
use qcc_plus.Select.Warmup.{World}
use qcc_plus.Select.Pick.{best_node, is_skipped, precedes, nodes_of}
use qcc_plus.Select.Best.{Entry, Verdict, nothing, found}
use qcc_plus.Select.Order.{Among-nodes_of, best_node-Verdict}
use qcc_plus.Select.Activate.{Selection, chosen, no_node, exhausted, reselect}
use qcc_plus.Select.Rounds.{Checks-Keeps}
use qcc_plus.Select.Settles.{Outcome, missed, switched, Trail-Checks, reselect-Outcome}
use qcc_plus.Nodes.Manage.{without, delete_from_server}
use qcc_plus.Nodes.Agreement.{delete_from_server-maps, without_node-accounts, without_node-frame}

module _ {F : Type 0} where
  -- After a deletion, whatever the store answers, the node is gone from the index and has no account;
  -- and the account that it had, behind the pointer `a`, lists it neither among its nodes nor in its
  -- failed set, and does not have it as its active node, if the id is not empty.
  pub delete_from_server-gone :
      (store_err : Option String) (id a : String) (n : Node) (acc : Account) (p : Server F)
      → id ≢ ""
      → lookup id p.node_index ≡ some n
      → account_of p id ≡ some (a, acc)
      → let q = (delete_from_server store_err id p).0 in
        (lookup id q.node_index ≡ none)
        × (lookup id q.node_account ≡ none)
        × ((acc' : Account) × (lookup a q.account_by_id ≡ some acc')
            × (contains id acc'.nodes ≡ false)
            × (contains id acc'.failed_set ≡ false)
            × (acc'.active_id ≢ id))
  delete_from_server-gone store_err id a n acc p nonempty there owner =
      elim (delete_from_server-maps store_err id p) [
        | inl (gone, same) ↦ absurd (ground arith)
        | inr (index, owners, accounts) ↦
            let (index', owners') = without_node-frame id p in
            (
              ap (lookup id) (index ∙ index') ∙ lookup-erase_self id p.node_index,
              ap (lookup id) (owners ∙ owners') ∙ lookup-erase_self id p.node_account,
              (
                without id acc,
                ap (lookup a) (accounts ∙ without_node-accounts id p (some (a, acc)) owner)
                    ∙ lookup-insert_self a (without id acc) p.account_by_id,
                ground (arith, contains-remove_key id id acc.nodes, str_eq_self id),
                ground (arith, contains-remove_key id id acc.failed_set, str_eq_self id),
                ground (arith, eq_iff acc.active_id id, eq_iff "" id),
              ),
            )
      ]

  -- The node that is picked is in the index, enabled and up.
  best_node-usable :
      (p : Server F) (acc : Account) (skip : List String) (id : String) (n : Node)
      → best_node p acc skip ≡ some (id, n)
      → (lookup id p.node_index ≡ some n) × (n.disabled ≡ false) × (n.failed ≡ false)
  unfolding is_skipped
  best_node-usable p acc skip id n e = from (best_node p acc skip) (best_node-Verdict p acc skip) e
    where
      from :
          (o : Option Entry)
          → Verdict precedes (is_skipped acc skip) (nodes_of p.node_index acc.nodes) o
          → o ≡ some (id, n)
          → (lookup id p.node_index ≡ some n) × (n.disabled ≡ false) × (n.failed ≡ false)
      from o (nothing all) g = cc
      from o (found r best) g =
          let (listed, there) = Among-nodes_of p.node_index acc.nodes r best.member in
          ground (arith, best.free)

  disabled_before :
      (p q : Server F) (id : String) (n m : Node)
      → Keeps p q
      → lookup id p.node_index ≡ some m
      → lookup id q.node_index ≡ some n
      → n.disabled ≡ m.disabled
  disabled_before p q id n m k before after =
      ap {B = Bool} (λ (o : Option Node). elim o [ none ↦ false | some j ↦ j.disabled ])
        (ap (Option.map static) (sym after) ∙ k.keys id ∙ ap (Option.map static) before)

module _ {F : Type 0} (fl : FloatOps F) (w : World) (now : ℕ) where
  Outcome-enabled :
      (a : String) (p : Server F) (id : String) (m : Node) (r : Server F × Selection)
      → lookup id p.node_index ≡ some m
      → m.disabled ≡ true
      → Outcome fl w now a p r
      → r.1 ≢ chosen id
  Outcome-enabled a p id m r there off (missed mid acc tried k found_acc best) e = cc
  Outcome-enabled a p id m r there off (switched mid settled acc tried id' n k found_acc best ready)
        e =
      let (found_n, on, _) = best_node-usable mid acc tried id' n best in
      let same : id' ≡ id =
        ap (λ (s : Selection). elim s [ chosen j ↦ j | no_node ↦ "" | exhausted ↦ "" ]) e in
      let before =
        disabled_before p mid id n m
          (Checks-Keeps fl w now p mid (Trail-Checks fl w now a p tried mid k)) there
          (subst (λ (j : String). lookup j mid.node_index ≡ some n) same found_n) in
      cc

  -- A search never activates a node that is disabled when it starts.
  pub reselect-enabled :
      (a : String) (p : Server F) (acc : Account) (id : String) (m : Node)
      → lookup a p.account_by_id ≡ some acc
      → lookup id p.node_index ≡ some m
      → m.disabled ≡ true
      → (reselect fl w now a p).1 ≢ chosen id
  reselect-enabled a p acc id m found_acc there off =
      Outcome-enabled a p id m (reselect fl w now a p) there off
        (reselect-Outcome fl w now a p acc found_acc)
