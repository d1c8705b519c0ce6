-- ===== src/Wiring/Search.antt =====
-- The search for a node and a failure that is handled keep the wiring: internal/proxy/node_manager.go
-- and internal/proxy/health.go.
use qcc_plus.Prelude.{
  ℕ, ◌≡◌, refl, sym, subst, inl, inr, String, Option, none, some, lookup, add_key, Option-cases,
}
use qcc_plus.Floats.{FloatOps}
use qcc_plus.Server.Defs.{Server, Node, Account, account_of}
use qcc_plus.Health.Keeps.{account_of-lookup}
use qcc_plus.Select.Warmup.{World}
use qcc_plus.Select.Activate.{Selection, reselect, activate_best}
use qcc_plus.Select.Rounds.{Checks-trans, Checks-Keeps}
use qcc_plus.Select.Settles.{
  Outcome, missed, switched, reselect-Outcome, Trail-Checks, activate_best-frame, same_nodes,
  ready-Checks,
}
use qcc_plus.Recovery.Failing.{
  marked_failed, mark_failed, handle_found, handle_failure, reselect_for,
}
use qcc_plus.Recovery.Agreement.{mark_failed-frame, mark_failed-accounts, reselect_unknown}
use qcc_plus.Wiring.Same.{
  SameWiring, SameWiring-refl, SameWiring-trans, Keeps-SameWiring, wired_account, wired_node,
  wired_both,
}

module _ {F : Type 0} (fl : FloatOps F) (w : World) (now : ℕ) where
  Outcome-SameWiring :
      (a : String) (p : Server F) (acc : Account) (r : Server F × Selection)
      → lookup a p.account_by_id ≡ some acc
      → Outcome fl w now a p r
      → SameWiring p r.0
  Outcome-SameWiring a p acc r there (missed mid acc' tried k there' best) =
      Keeps-SameWiring p mid (Checks-Keeps fl w now p mid (Trail-Checks fl w now a p tried mid k))
  Outcome-SameWiring a p acc r there (switched mid settled acc' tried id n k there' best ready) =
      let all =
        Checks-trans fl w now p mid settled (Trail-Checks fl w now a p tried mid k)
          (ready-Checks fl w now mid id n settled ready) in
      let kept = Checks-Keeps fl w now p settled all in
      let (cur, found, _) = same_nodes a p settled acc kept there in
      let (accounts, index, owners) = activate_best-frame a acc' cur id n settled found in
      let q = activate_best a acc' id n settled in
      SameWiring-trans p settled q (Keeps-SameWiring p settled kept) (
        wired_account settled q a cur (record cur { active_id = id }) index owners accounts found
          refl)

  -- A switch keeps the wiring.
  pub reselect-SameWiring : (a : String) (p : Server F) → SameWiring p (reselect fl w now a p).0
  reselect-SameWiring a p = elim (Option-cases (lookup a p.account_by_id)) [
    | inl gone ↦
        subst (λ (r : Server F × Selection). SameWiring p r.0)
          (sym (reselect_unknown fl w now a p gone)) (SameWiring-refl p)
    | inr (acc, there) ↦
        Outcome-SameWiring a p acc (reselect fl w now a p) there
          (reselect-Outcome fl w now a p acc there)
  ]

  pub reselect_for-SameWiring :
      (o : Option (String × Account)) (p : Server F) → SameWiring p (reselect_for fl w now o p)
  unfolding reselect_for
  reselect_for-SameWiring none p = SameWiring-refl p
  reselect_for-SameWiring (some (a, acc)) p = reselect-SameWiring a p

  mark_failed-SameWiring :
      (id err : String) (n : Node) (p : Server F) (o : Option (String × Account))
      → lookup id p.node_index ≡ some n
      → account_of p id ≡ o
      → SameWiring p (mark_failed id err n p)
  mark_failed-SameWiring id err n p none there e =
      let (index, owners) = mark_failed-frame id err n p in
      wired_node p (mark_failed id err n p) id n (marked_failed err n) index owners
        (mark_failed-accounts id err n p none e) there refl
  mark_failed-SameWiring id err n p (some (a, acc)) there e =
      let (index, owners) = mark_failed-frame id err n p in
      wired_both p (mark_failed id err n p) id a n (marked_failed err n) acc
        (record acc { failed_set = add_key id acc.failed_set }) index owners
        (mark_failed-accounts id err n p (some (a, acc)) e) there refl
        (account_of-lookup p id a acc e) refl

  handle_found-SameWiring :
      (id err : String) (o : Option Node) (p : Server F)
      → lookup id p.node_index ≡ o
      → SameWiring p (handle_found fl w now id err o p)
  unfolding handle_found
  handle_found-SameWiring id err none p there = SameWiring-refl p
  handle_found-SameWiring id err (some n) p there =
      let p' = mark_failed id err n p in
      SameWiring-trans p p' (reselect_for fl w now (account_of p id) p')
        (mark_failed-SameWiring id err n p (account_of p id) there refl)
        (reselect_for-SameWiring (account_of p id) p')

  -- A failure that is handled keeps the wiring.
  pub handle_failure-SameWiring :
      (id err : String) (p : Server F) → SameWiring p (handle_failure fl w now id err p)
  unfolding handle_failure
  handle_failure-SameWiring id err p =
      handle_found-SameWiring id err (lookup id p.node_index) p refl
