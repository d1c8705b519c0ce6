-- ===== src/Select/Settles.antt =====
-- What `selectBestAndActivate` ends with: internal/proxy/node_manager.go.
use qcc_plus.Prelude.{
  ℕ, ◌<◌, zero, suc, ◌≡◌, refl, sym, subst, ◌∙◌, ap, String, Bool, true, false, not, Option, none,
  some, List, [], ◌∷◌, arith, length, countb-le-length, contains, lookup, insert,
  lookup-insert_self,
}
use mathlib.Core.Option
use qcc_plus.Floats.{FloatOps}
use qcc_plus.Server.Defs.{Server, Node, Account}
use qcc_plus.Health.Keeps.{Keeps, shape}
use qcc_plus.Select.Warmup.{World, warmup_node, is_warmed_up}
use qcc_plus.Select.Pick.{best_node}
use qcc_plus.Select.Activate.{
  Selection, chosen, no_node, exhausted, activate_best, activate_warm, try_node, select_found,
  select_round, select_excluding, select_best, reselect,
}
use qcc_plus.Select.Rounds.{
  left, left-tried, best_node-fresh, Checks, start, Checks-trans, Checks-Keeps, warmup_node-Checks,
}

nodes_of_shape :
    (acc acc' : Account)
    → Option.map shape (some acc') ≡ Option.map shape (some acc)
    → acc'.nodes ≡ acc.nodes
nodes_of_shape acc acc' e = ap (λ (o : Option Account). elim o [ none ↦ [] | some k ↦ k.nodes ]) e

module _ {F : Type 0} where
  one_account :
      (a : String) (p p' : Server F) (acc acc' : Account)
      → Keeps p p'
      → lookup a p.account_by_id ≡ some acc
      → lookup a p'.account_by_id ≡ some acc'
      → acc'.nodes ≡ acc.nodes
  one_account a p p' acc acc' k there there' =
      nodes_of_shape acc acc'
        (ap (Option.map shape) (sym there') ∙ k.shapes a ∙ ap (Option.map shape) there)

  -- The account behind the same pointer after health checks: the same nodes.
  pub same_nodes :
      (a : String) (p p' : Server F) (acc : Account)
      → Keeps p p'
      → lookup a p.account_by_id ≡ some acc
      → (acc' : Account) × (lookup a p'.account_by_id ≡ some acc') × (acc'.nodes ≡ acc.nodes)
  same_nodes a p p' acc k there = from (lookup a p'.account_by_id) refl
    where
      from :
          (o : Option Account)
          → lookup a p'.account_by_id ≡ o
          → (acc' : Account) × (lookup a p'.account_by_id ≡ some acc') × (acc'.nodes ≡ acc.nodes)
      from none e = absurd (cc (k.shapes a, there, e))
      from (some acc') e = (acc', e, one_account a p p' acc acc' k there e)

module _ {F : Type 0} (fl : FloatOps F) (w : World) (now : ℕ) where
  -- The state in which the node `id` may be activated: at once if there is no warmup, and otherwise
  -- behind a warmup with the required successes.
  pub data IsReady (mid : Server F) (id : String) (n : Node) : Server F → Type 0 where
    at_once : mid.warmup_config.enabled ≡ false → IsReady mid id n mid
    warmed_up :
        mid.warmup_config.enabled ≡ true
        → is_warmed_up
            (warmup_node fl w now id n mid).1
            (warmup_node fl w now id n mid).0.warmup_config
          ≡ true
        → IsReady mid id n (warmup_node fl w now id n mid).0

  -- The way of a search from the state `p` to the state in which it has given up the nodes of a list.
  -- A node is given up only if it was the best of those not given up before, warmups were on,
  -- and its warmup did not have the required successes; the warmup's checks lead to the next state.
  pub data Trail (a : String) (p : Server F) : List String → Server F → Type 0 where
    set_out : Trail a p [] p
    gave_up :
        (skip : List String) (mid : Server F) (acc : Account) (id : String) (n : Node)
        → Trail a p skip mid
        → lookup a mid.account_by_id ≡ some acc
        → best_node mid acc skip ≡ some (id, n)
        → mid.warmup_config.enabled ≡ true
        → is_warmed_up
            (warmup_node fl w now id n mid).1
            (warmup_node fl w now id n mid).0.warmup_config
          ≡ false
        → Trail a p (id ∷ skip) (warmup_node fl w now id n mid).0

  -- The two ways to end, in a state `mid` in which the nodes `tried` have been given up: either no
  -- other node is left to try, or the best one that is left is ready, and becomes the active one.
  pub data Outcome (a : String) (p : Server F) : Server F × Selection → Type 0 where
    missed :
        (mid : Server F) (acc : Account) (tried : List String)
        → Trail a p tried mid
        → lookup a mid.account_by_id ≡ some acc
        → best_node mid acc tried ≡ none
        → Outcome a p (mid, no_node)
    switched :
        (mid settled : Server F) (acc : Account) (tried : List String) (id : String) (n : Node)
        → Trail a p tried mid
        → lookup a mid.account_by_id ≡ some acc
        → best_node mid acc tried ≡ some (id, n)
        → IsReady mid id n settled
        → Outcome a p (activate_best a acc id n settled, chosen id)

  pub Trail-Checks :
      (a : String) (p : Server F) (tried : List String) (mid : Server F)
      → Trail a p tried mid
      → Checks fl w now p mid
  Trail-Checks a p tried mid set_out = start
  Trail-Checks a p tried mid (gave_up skip before acc id n trail there best on cold) =
      Checks-trans fl w now p before (warmup_node fl w now id n before).0
        (Trail-Checks a p skip before trail) (warmup_node-Checks fl w now id n before)

  -- The calls for the next node that the search relies on: the nodes that are left get fewer.
  abbrev Searches :
      (List String → Server F → Server F × Selection) → Server F → List String → String → ℕ → Type 0
  Searches again origin skip a k =
      (id : String) (p : Server F) (acc : Account)
      → Trail a origin (id ∷ skip) p
      → lookup a p.account_by_id ≡ some acc
      → left acc.nodes (id ∷ skip) < k
      → Outcome a origin (again (id ∷ skip) p)

  activate_warm-Outcome :
      (again : List String → Server F → Server F × Selection) (skip : List String) (a : String)
      (origin p : Server F) (acc : Account) (id : String) (n : Node) (b : Bool)
      → Trail a origin skip p
      → lookup a p.account_by_id ≡ some acc
      → best_node p acc skip ≡ some (id, n)
      → p.warmup_config.enabled ≡ true
      → is_warmed_up (warmup_node fl w now id n p).1 (warmup_node fl w now id n p).0.warmup_config
        ≡ b
      → Searches again origin skip a (left acc.nodes skip)
      → Outcome a origin
          (activate_warm fl w now again skip a acc id n b (warmup_node fl w now id n p).0)
  unfolding activate_warm
  activate_warm-Outcome again skip a origin p acc id n true trail there best on warm rest =
      switched p (warmup_node fl w now id n p).0 acc skip id n trail there best (warmed_up on warm)
  activate_warm-Outcome again skip a origin p acc id n false trail there best on cold rest =
      let settled = (warmup_node fl w now id n p).0 in
      let kept = warmup_node-Checks fl w now id n p in
      let (acc', there', same) =
        same_nodes a p settled acc (Checks-Keeps fl w now p settled kept) there in
      let (listed, fresh) = best_node-fresh p acc skip id n best in
      let further = gave_up skip p acc id n trail there best on cold in
      rest id settled acc' further there' (
        subst (λ (ids : List String). left ids (id ∷ skip) < left acc.nodes skip) (sym same)
          (left-tried acc.nodes skip id listed fresh))

  try_node-Outcome :
      (again : List String → Server F → Server F × Selection) (skip : List String) (a : String)
      (origin p : Server F) (acc : Account) (id : String) (n : Node) (b : Bool)
      → Trail a origin skip p
      → lookup a p.account_by_id ≡ some acc
      → best_node p acc skip ≡ some (id, n)
      → p.warmup_config.enabled ≡ b
      → Searches again origin skip a (left acc.nodes skip)
      → Outcome a origin (try_node fl w now again skip a acc id n b p)
  unfolding try_node
  try_node-Outcome again skip a origin p acc id n false trail there best off rest =
      switched p p acc skip id n trail there best (at_once off)
  try_node-Outcome again skip a origin p acc id n true trail there best on rest =
      activate_warm-Outcome again skip a origin p acc id n
        (is_warmed_up (warmup_node fl w now id n p).1 (warmup_node fl w now id n p).0.warmup_config)
        trail there best on refl rest

  select_found-Outcome :
      (again : List String → Server F → Server F × Selection) (skip : List String) (a : String)
      (origin p : Server F) (acc : Account) (o : Option (String × Node))
      → Trail a origin skip p
      → lookup a p.account_by_id ≡ some acc
      → best_node p acc skip ≡ o
      → Searches again origin skip a (left acc.nodes skip)
      → Outcome a origin (select_found fl w now again skip a acc o p)
  unfolding select_found
  select_found-Outcome again skip a origin p acc none trail there best rest =
      missed p acc skip trail there best
  select_found-Outcome again skip a origin p acc (some (id, n)) trail there best rest =
      try_node-Outcome again skip a origin p acc id n p.warmup_config.enabled trail there best refl
        rest

  select_round-Outcome :
      (again : List String → Server F → Server F × Selection) (skip : List String) (a : String)
      (origin p : Server F) (acc : Account) (o : Option Account)
      → o ≡ some acc
      → Trail a origin skip p
      → lookup a p.account_by_id ≡ some acc
      → Searches again origin skip a (left acc.nodes skip)
      → Outcome a origin (select_round fl w now again skip a o p)
  unfolding select_round
  select_round-Outcome again skip a origin p acc none e trail there rest = cc
  select_round-Outcome again skip a origin p acc (some acc') e trail there rest =
      rw (ap {B = Account} (λ (o : Option Account). elim o [ none ↦ acc | some k ↦ k ]) e) (
        select_found-Outcome again skip a origin p acc (best_node p acc skip) trail there refl rest)

  -- Fuel above the number of nodes that are left is enough.
  select_excluding-Outcome :
      (fuel : ℕ) (skip : List String) (a : String) (origin p : Server F) (acc : Account)
      → Trail a origin skip p
      → lookup a p.account_by_id ≡ some acc
      → left acc.nodes skip < fuel
      → Outcome a origin (select_excluding fl w now fuel a skip p)
  unfolding select_excluding
  select_excluding-Outcome zero skip a origin p acc trail there few = absurd (omega (arith, few))
  select_excluding-Outcome (suc fuel) skip a origin p acc trail there few =
      select_round-Outcome (select_excluding fl w now fuel a) skip a origin p acc
        (lookup a p.account_by_id) there trail there
        (λ id p' acc' trail' there' less.
          select_excluding-Outcome fuel (id ∷ skip) a origin p' acc' trail' there'
            (omega (arith, less, few)))

  select_best-Outcome :
      (a : String) (p : Server F) (acc : Account)
      → lookup a p.account_by_id ≡ some acc
      → Outcome a p (select_best fl w now (length acc.nodes) a p)
  unfolding select_best
  select_best-Outcome a p acc there =
      select_round-Outcome (select_excluding fl w now (length acc.nodes) a) [] a p p acc
        (lookup a p.account_by_id) there set_out there
        (λ id p' acc' trail there' less.
          select_excluding-Outcome (length acc.nodes) (id ∷ []) a p p' acc' trail there'
            (omega (arith, countb-le-length (λ j. not (contains j [])) acc.nodes, less)))

  -- For an account that is known, the search ends in one of two ways, behind warmups that were given
  -- up one after another: each was of the node that was the best, by `best_node`, of those not given
  -- up before, and did not have the required successes. Either the search activates the best node that
  -- has not been given up, and this node has passed its warmup unless warmups are off; or it reports
  -- that no such node is left. Nothing but these warmups has changed the state before the activation.
  pub reselect-Outcome :
      (a : String) (p : Server F) (acc : Account)
      → lookup a p.account_by_id ≡ some acc
      → Outcome a p (reselect fl w now a p)
  unfolding reselect
  reselect-Outcome a p acc there =
      subst (λ (k : ℕ). Outcome a p (select_best fl w now k a p))
        (ap {B = ℕ} (λ (o : Option Account). elim o [ none ↦ 0 | some k ↦ length k.nodes ])
          (sym there))
        (select_best-Outcome a p acc there)

module _ {F : Type 0} where
  -- What an activation in the state `p` leaves, for the account behind the pointer `a`.
  pub activate_best-frame :
      (a : String) (acc cur : Account) (id : String) (n : Node) (p : Server F)
      → lookup a p.account_by_id ≡ some cur
      → let q = activate_best a acc id n p in
        (q.account_by_id ≡ insert a (record cur { active_id = id }) p.account_by_id)
        × (q.node_index ≡ p.node_index)
        × (q.node_account ≡ p.node_account)
  unfolding activate_best
  activate_best-frame a acc cur id n p there = ground arith

  pub activate_best-active :
      (a : String) (acc cur : Account) (id : String) (n : Node) (p : Server F)
      → lookup a p.account_by_id ≡ some cur
      → let q = activate_best a acc id n p in
        (lookup a q.account_by_id ≡ some (record cur { active_id = id }))
        × (q.node_index ≡ p.node_index)
        × (q.node_account ≡ p.node_account)
  unfolding activate_best
  activate_best-active a acc cur id n p there =
      ground (arith, lookup-insert_self a (record cur { active_id = id }) p.account_by_id)

module _ {F : Type 0} (fl : FloatOps F) (w : World) (now : ℕ) where
  -- The account after a search from an account that had the nodes `ids`.
  abbrev pub IsSettled : String → Server F → Account → Server F × Selection → Type 0
  IsSettled a p acc (q, no_node) = Keeps p q
  IsSettled a p acc (q, exhausted) = ⊥
  IsSettled a p acc (q, chosen id) =
      (acc' : Account) × (lookup a q.account_by_id ≡ some acc')
      × (acc'.active_id ≡ id)
      × (acc'.nodes ≡ acc.nodes)
      × (contains id acc.nodes ≡ true)

  pub ready-Checks :
      (mid : Server F) (id : String) (n : Node) (settled : Server F)
      → IsReady fl w now mid id n settled
      → Checks fl w now mid settled
  ready-Checks mid id n settled (at_once off) = start
  ready-Checks mid id n settled (warmed_up on warm) = warmup_node-Checks fl w now id n mid

  IsSettled-if :
      (a : String) (p : Server F) (acc : Account) (r : Server F × Selection)
      → lookup a p.account_by_id ≡ some acc
      → Outcome fl w now a p r
      → IsSettled a p acc r
  IsSettled-if a p acc r there (missed mid acc' tried trail there' best) =
      Checks-Keeps fl w now p mid (Trail-Checks fl w now a p tried mid trail)
  IsSettled-if a p acc r there (switched mid settled acc' tried id n trail there' best ready) =
      let kept = Trail-Checks fl w now a p tried mid trail in
      let all = Checks-trans fl w now p mid settled kept (ready-Checks mid id n settled ready) in
      let (cur, found, same) =
        same_nodes a p settled acc (Checks-Keeps fl w now p settled all) there in
      let (now_there, _, _) = activate_best-active a acc' cur id n settled found in
      let (listed, _) = best_node-fresh mid acc' tried id n best in
      (
        record cur { active_id = id },
        now_there,
        refl,
        same,
        ap (contains id)
              (sym (one_account a p mid acc acc' (Checks-Keeps fl w now p mid kept) there there'))
            ∙ listed,
      )

  -- A search for a known account ends. If it returns a node, then this node belongs to the account
  -- and is now its active one; if it reports that there is none, then the account still has the
  -- active node that it had before.
  pub reselect-IsSettled :
      (a : String) (p : Server F) (acc : Account)
      → lookup a p.account_by_id ≡ some acc
      → IsSettled a p acc (reselect fl w now a p)
  reselect-IsSettled a p acc there =
      IsSettled-if a p acc (reselect fl w now a p) there (reselect-Outcome fl w now a p acc there)
