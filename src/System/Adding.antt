-- ===== src/System/Adding.antt =====
-- To add a node keeps its `Failed` and its account's `FailedSet` in agreement:
-- internal/proxy/node_manager.go.
use qcc_plus.Prelude.{
  ℕ, ◌≡◌, refl, sym, ◌∙◌, ◌⊎◌, inl, inr, String, Bool, true, false, some, arith, if◌then◌else◌,
  contains, add_key, lookup, lookup-insert, str_eq, eq_iff,
}
use qcc_plus.Floats.{FloatOps}
use qcc_plus.Server.Defs.{
  Server, Node, Account, Url, account_node, to_store, to_notify, upsert_node, publish, node_added,
  base_url_required,
}
use qcc_plus.Select.Warmup.{World}
use qcc_plus.Select.Activate.{reselect}
use qcc_plus.Recovery.Coherent.{IsCoherent}
use qcc_plus.Recovery.Agreement.{same_maps, if-IsCoherent, reselect-IsCoherent}
use qcc_plus.Nodes.Manage.{NewNode, made_node, with_node, add_made, add_parsed, add_node, outranks}
use qcc_plus.System.Steps.{IsUnused}

module _ {F : Type 0} where
  with_node-IsCoherent :
      (a : String) (acc : Account) (id : String) (n : Node) (p : Server F)
      → lookup a p.account_by_id ≡ some acc
      → IsUnused id p
      → n.failed ≡ false
      → IsCoherent p
      → IsCoherent (with_node a acc id n p)
  unfolding with_node
  with_node-IsCoherent a acc id n p there unused up h = record {
    agree = λ j b m cur e f g.
        let acc' = record acc { nodes = add_key id acc.nodes } in
        both j b m cur (sym (lookup-insert id j n p.node_index) ∙ e)
          (sym (lookup-insert id j a p.node_account) ∙ f)
          (sym (lookup-insert a b acc' p.account_by_id) ∙ g);
  }
    where
      both :
          (j b : String) (m : Node) (cur : Account)
          → (if str_eq id j then some n else lookup j p.node_index) ≡ some m
          → (if str_eq id j then some a else lookup j p.node_account) ≡ some b
          → (if str_eq a b
              then some (record acc { nodes = add_key id acc.nodes })
              else lookup b p.account_by_id)
            ≡ some cur
          → contains j cur.failed_set ≡ m.failed
      both j b m cur e f g =
          ground (
            arith,
            eq_iff id j,
            eq_iff a b,
            unused a acc there,
            h.agree j b m acc,
            h.agree j b m cur,
          )

module _ {F : Type 0} (fl : FloatOps F) (w : World) (now : ℕ) where
  add_made-IsCoherent :
      (a : String) (acc : Account) (n : Node) (p : Server F)
      → lookup a p.account_by_id ≡ some acc
      → IsUnused n.id p
      → n.failed ≡ false
      → IsCoherent p
      → IsCoherent (add_made fl w now a acc n p)
  unfolding add_made
  add_made-IsCoherent a acc n p there unused up h =
      let p' = with_node a acc n.id n p in
      let need =
        outranks n.weight
          (account_node p' (record acc { nodes = add_key n.id acc.nodes }) acc.active_id) in
      let p'' = to_notify (publish acc.id node_added n.id) (to_store (upsert_node n) p') in
      let h' =
        same_maps p' p'' (ground arith) (with_node-IsCoherent a acc n.id n p there unused up h) in
      if-IsCoherent need (reselect fl w now a p'').0 p'' (reselect-IsCoherent fl w now a p'' h') h'

  add_parsed-IsCoherent :
      (a : String) (acc : Account) (r : NewNode) (u : String ⊎ Url) (p : Server F)
      → lookup a p.account_by_id ≡ some acc
      → IsUnused r.id p
      → IsCoherent p
      → IsCoherent (add_parsed fl w now a acc r u p).0
  unfolding add_parsed made_node
  add_parsed-IsCoherent a acc r (inl e) p there unused h = h
  add_parsed-IsCoherent a acc r (inr u) p there unused h =
      add_made-IsCoherent a acc (made_node w.env now acc u r) p there unused refl h

  either :
      {A : Type 0} (b : Bool) (r r' : Server F × A)
      → IsCoherent r.0
      → IsCoherent r'.0
      → IsCoherent (if b then r else r').0
  either true r r' h k = h
  either false r r' h k = k

  -- To add a node to a known account, under an id that stands in no failed set, keeps the two places in
  -- agreement.
  pub add_node-IsCoherent :
      (a : String) (acc : Account) (r : NewNode) (p : Server F)
      → lookup a p.account_by_id ≡ some acc
      → IsUnused r.id p
      → IsCoherent p
      → IsCoherent (add_node fl w now (some (a, acc)) r p).0
  unfolding add_node
  add_node-IsCoherent a acc r p there unused h =
      either (str_eq r.raw_url "") (p, inl base_url_required)
        (add_parsed fl w now a acc r (w.env.parse_url r.raw_url) p) h
        (add_parsed-IsCoherent a acc r (w.env.parse_url r.raw_url) p there unused h)
