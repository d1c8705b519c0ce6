-- ===== src/Select/Pick.antt =====
-- internal/proxy/node_manager.go: the loops that look for the best node.
use qcc_plus.Prelude.{
  String, Bool, ◌&&◌, ◌||◌, Option, none, some, List, [], ◌∷◌, ltb, ltb_ℤ, eq_ℤ, if◌then◌else◌,
  lookup, contains,
}
use qcc_plus.Server.Defs.{Server, Node, Account}

unfoldable pub visit : String → Option Node → List (String × Node) → List (String × Node)
visit id none rest = rest
visit id (some n) rest = (id, n) ∷ rest

-- `acc.Nodes`, as pairs of key and node in the order of the `range`.
unfoldable pub nodes_of : List (String × Node) → List String → List (String × Node)
unfolding visit
nodes_of index [] = []
nodes_of index (id ∷ ids) = visit id (lookup id index) (nodes_of index ids)

-- `n.Failed || n.Disabled || p.isInFailedSet(acc, id) || skipNodes[id]`
unfoldable pub is_skipped : Account → List String → String × Node → Bool
is_skipped acc skip (id, n) =
    n.failed || n.disabled || contains id acc.failed_set || contains id skip

-- A lower weight comes first, and of two nodes of one weight the older one.
unfoldable pub precedes : Node → Node → Bool
precedes n m = ltb_ℤ n.weight m.weight || eq_ℤ n.weight m.weight && ltb n.created_at m.created_at

-- The test of `selectHealthyNodeExcluding`, which does not look at the age.
unfoldable pub is_lighter : Node → Node → Bool
is_lighter n m = ltb_ℤ n.weight m.weight

-- One round of a loop: the best node so far, after the next one.
unfoldable pub consider :
    (Node → Node → Bool)
    → (String × Node → Bool)
    → String × Node
    → Option (String × Node)
    → Option (String × Node)
consider before skipped e none = if skipped e then none else some e
consider before skipped e (some best) =
    if skipped e then some best else if before e.1 best.1 then some e else some best

-- The loop.
unfoldable pub pick :
    (Node → Node → Bool)
    → (String × Node → Bool)
    → List (String × Node)
    → Option (String × Node)
    → Option (String × Node)
unfolding consider
pick before skipped [] best = best
pick before skipped (e ∷ es) best = pick before skipped es (consider before skipped e best)

module _ {F : Type 0} where
  unfoldable pub select_healthy_excluding : Server F → Option Account → List String → Option Node
  unfolding pick
  select_healthy_excluding p none skip = none
  select_healthy_excluding p (some acc) skip =
      elim (pick is_lighter (is_skipped acc skip) (nodes_of p.node_index acc.nodes) none) [
        | none ↦ none
        | some e ↦ some e.1
      ]

  -- The node that `selectBestAndActivate` and its variant settle on first.
  unfoldable pub best_node : Server F → Account → List String → Option (String × Node)
  unfolding pick
  best_node p acc skip = pick precedes (is_skipped acc skip) (nodes_of p.node_index acc.nodes) none
