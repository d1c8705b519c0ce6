-- ===== src/Select/Order.antt =====
-- The order in which Go visits a map does not decide which node the loops of node_manager.go pick.
use qcc_plus.Prelude.{
  ◌≡◌, refl, sym, ◌∙◌, ap, ◌⊎◌, inl, inr, ◌↔◌, String, Bool, true, false, Option, none, some, List,
  [], ◌∷◌, arith, Bool-cases, contains, lookup, str_eq, eq_iff,
}
use mathlib.Core.Option
use qcc_plus.Server.Defs.{Server, Node, Account}
use qcc_plus.Select.Pick.{
  is_skipped, precedes, is_lighter, pick, visit, nodes_of, best_node, select_healthy_excluding,
}
use qcc_plus.Select.Best.{
  Entry, Among, precedes-IsRanking, is_lighter-IsRanking, Verdict, nothing, found, pick-Verdict,
}

module _ (before : Node → Node → Bool) (skipped : Entry → Bool) where
  -- No two different entries that may be taken stand level.
  abbrev pub IsDecided : List Entry → Type 0
  IsDecided es =
      (e f : Entry)
      → Among e es
      → Among f es
      → skipped e ≡ false
      → skipped f ≡ false
      → before e.1 f.1 ≡ false
      → before f.1 e.1 ≡ false
      → e ≡ f

  verdicts_agree :
      (es fs : List Entry)
      → ((e : Entry) → Among e es ↔ Among e fs)
      → IsDecided es
      → (o q : Option Entry) → Verdict before skipped es o
      → Verdict before skipped fs q
      → o ≡ q
  verdicts_agree es fs same decided o q (nothing all) (nothing all') = refl
  verdicts_agree es fs same decided o q (nothing all) (found r best) =
      absurd (cc (all r ((same r).1 best.member), best.free))
  verdicts_agree es fs same decided o q (found r best) (nothing all) =
      absurd (cc (all r ((same r).0 best.member), best.free))
  verdicts_agree es fs same decided o q (found r best) (found t best') = ap some (
      decided r t best.member ((same t).1 best'.member) best.free best'.free
        (best'.least r ((same r).0 best.member) best.free)
        (best.least t ((same t).1 best'.member) best'.free))

Among-visit :
    (index : List (String × Node)) (j : String) (o : Option Node) (rest : List Entry) (e : Entry)
    → lookup j index ≡ o
    → Among e (visit j o rest)
    → ((e.0 ≡ j) × (lookup e.0 index ≡ some e.1)) ⊎ Among e rest
unfolding visit
Among-visit index j none rest e there m = inr m
Among-visit index j (some k) rest e there m = elim m [
  | inl here ↦ inl (ap (λ (q : Entry). q.0) here, rw here there)
  | inr later ↦ inr later
]

-- The pairs of a range are the keys of the account with the nodes that they point at.
pub Among-nodes_of :
    (index : List (String × Node)) (ids : List String) (e : Entry)
    → Among e (nodes_of index ids)
    → (contains e.0 ids ≡ true) × (lookup e.0 index ≡ some e.1)
unfolding nodes_of contains
Among-nodes_of index [] e m = absurd m
Among-nodes_of index (j ∷ ids) e m =
    elim (Among-visit index j (lookup j index) (nodes_of index ids) e refl m) [
      | inl (here, there) ↦ (ground (arith, eq_iff j e.0), there)
      | inr later ↦ let (listed, there) = Among-nodes_of index ids e later in (ground arith, there)
    ]

Among-visit_self :
    (j : String) (o : Option Node) (rest : List Entry) (n : Node)
    → o ≡ some n
    → Among (j, n) (visit j o rest)
unfolding visit
Among-visit_self j none rest n e = cc
Among-visit_self j (some k) rest n e = inl (ground arith)

Among-visit_later :
    (j : String) (o : Option Node) (rest : List Entry) (e : Entry)
    → Among e rest
    → Among e (visit j o rest)
unfolding visit
Among-visit_later j none rest e m = m
Among-visit_later j (some k) rest e m = inr m

nodes_of-Among :
    (index : List (String × Node)) (ids : List String) (e : Entry)
    → contains e.0 ids ≡ true
    → lookup e.0 index ≡ some e.1
    → Among e (nodes_of index ids)
unfolding nodes_of contains
nodes_of-Among index [] e listed there = cc
nodes_of-Among index (j ∷ ids) e listed there = elim (Bool-cases (str_eq j e.0)) [
  | inl here ↦
      rw ((eq_iff j e.0).0 here)
        (Among-visit_self e.0 (lookup e.0 index) (nodes_of index ids) e.1 there)
  | inr other ↦
      Among-visit_later j (lookup j index) (nodes_of index ids) e
        (nodes_of-Among index ids e (ground arith) there)
]

-- The same keys, in whatever order and however often.
abbrev pub SameKeys : List String → List String → Type 0
SameKeys ids ids' = (id : String) → contains id ids ≡ contains id ids'

nodes_of-same :
    (index : List (String × Node)) (ids ids' : List String)
    → SameKeys ids ids'
    → (e : Entry) → Among e (nodes_of index ids) ↔ Among e (nodes_of index ids')
nodes_of-same index ids ids' same e = (
  (λ m.
      let (listed, there) = Among-nodes_of index ids e m in
      nodes_of-Among index ids' e (sym (same e.0) ∙ listed) there),
  (λ m.
      let (listed, there) = Among-nodes_of index ids' e m in
      nodes_of-Among index ids e (same e.0 ∙ listed) there),
)

module _ {F : Type 0} (p : Server F) (acc : Account) (skip : List String) where
  -- The node to activate is found exactly if some node of the account is neither failed, disabled,
  -- in the failed set nor skipped; then it is such a node, and no other such node has a lower
  -- weight or the same weight and an earlier creation.
  pub best_node-Verdict :
      Verdict precedes
        (is_skipped acc skip)
        (nodes_of p.node_index acc.nodes)
        (best_node p acc skip)
  unfolding best_node
  best_node-Verdict = pick-Verdict precedes (is_skipped acc skip) precedes-IsRanking _

  -- If no two nodes that may be taken have both the same weight and the same time of creation, then
  -- the node to activate does not depend on the order in which Go visits the account's nodes.
  pub best_node-order :
      (ids : List String)
      → SameKeys acc.nodes ids
      → IsDecided precedes (is_skipped acc skip) (nodes_of p.node_index acc.nodes)
      → best_node p (record acc { nodes = ids }) skip ≡ best_node p acc skip
  unfolding best_node is_skipped
  best_node-order ids same decided = sym (
      verdicts_agree precedes (is_skipped acc skip) _ _
        (nodes_of-same p.node_index acc.nodes ids same) decided _ _
        (pick-Verdict precedes (is_skipped acc skip) precedes-IsRanking
          (nodes_of p.node_index acc.nodes))
        (pick-Verdict precedes (is_skipped acc skip) precedes-IsRanking
          (nodes_of p.node_index ids)))

  -- The node for a request to `/v1/messages` is found exactly if some node of the account is
  -- neither failed, disabled, in the failed set nor tried before; then it is such a node, and no
  -- other such node has a lower weight.
  pub select_healthy_excluding-Verdict :
      (o : Option Entry) × Verdict is_lighter
        (is_skipped acc skip)
        (nodes_of p.node_index acc.nodes)
        o
      × (select_healthy_excluding p (some acc) skip ≡ Option.map (λ e. e.1) o)
  unfolding select_healthy_excluding
  select_healthy_excluding-Verdict = (
    pick is_lighter (is_skipped acc skip) (nodes_of p.node_index acc.nodes) none,
    pick-Verdict is_lighter (is_skipped acc skip) is_lighter-IsRanking _,
    ground arith,
  )
