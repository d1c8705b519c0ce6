-- ===== src/Select/Tests.antt =====
-- The theorems about the choice of a node at concrete inputs.
use qcc_plus.Prelude.{
  ◌≡◌, refl, ap, inl, inr, false, some, Option, [], ◌∷◌, arith, lookup, contains, eq_iff,
}
use mathlib.Core.Option
use qcc_plus.Floats.{fractions}
use qcc_plus.Examples.{server, world, acc, one}
use qcc_plus.Select.Pick.{
  is_skipped, precedes, is_lighter, nodes_of, best_node, select_healthy_excluding,
}
use qcc_plus.Select.Activate.{reselect}
use qcc_plus.Select.Best.{Entry, Verdict}
use qcc_plus.Select.Order.{
  SameKeys, IsDecided, best_node-Verdict, best_node-order, select_healthy_excluding-Verdict,
}
use qcc_plus.Select.Settles.{Outcome, IsSettled, reselect-Outcome, reselect-IsSettled}
use qcc_plus.Health.Keeps.{Keeps, check_node-Keeps}
use qcc_plus.Health.Apply.{check_node}

best_node-Verdict_example :
    Verdict precedes
      (is_skipped acc [])
      (nodes_of server.node_index acc.nodes)
      (best_node server acc [])
best_node-Verdict_example = best_node-Verdict server acc []

swapped : SameKeys acc.nodes ("n-2" ∷ "n-1" ∷ [])
unfolding contains
swapped id = ground (arith, eq_iff "n-1" id, eq_iff "n-2" id)

down : (e : Entry) → e ≡ ("n-1", one) → is_skipped acc [] e ≡ false → ⊥
unfolding is_skipped contains
down e h free = cc (ap (is_skipped acc []) h, free)

decided : IsDecided precedes (is_skipped acc []) (nodes_of server.node_index acc.nodes)
unfolding is_skipped precedes nodes_of contains lookup
decided e f (inl h) (inl k) _ _ _ _ = cc
decided e f (inl h) (inr k) free _ _ _ = absurd (down e h free)
decided e f (inr (inl h)) (inl k) _ free _ _ = absurd (down f k free)
decided e f (inr (inl h)) (inr (inl k)) _ _ _ _ = cc
decided e f (inr (inl h)) (inr (inr k)) _ _ _ _ = elim k [ ]
decided e f (inr (inr h)) k _ _ _ _ = elim h [ ]

best_node-order_example :
    best_node server (record acc { nodes = "n-2" ∷ "n-1" ∷ [] }) [] ≡ best_node server acc []
best_node-order_example = best_node-order server acc [] ("n-2" ∷ "n-1" ∷ []) swapped decided

select_healthy_excluding-Verdict_example :
    (o : Option Entry) × Verdict is_lighter
      (is_skipped acc ("n-2" ∷ []))
      (nodes_of server.node_index acc.nodes)
      o
    × (select_healthy_excluding server (some acc) ("n-2" ∷ []) ≡ Option.map (λ e. e.1) o)
select_healthy_excluding-Verdict_example = select_healthy_excluding-Verdict server acc ("n-2" ∷ [])

known : lookup "acc" server.account_by_id ≡ some acc
unfolding lookup
known = refl

reselect-Outcome_example :
    Outcome fractions world 100 "acc" server (reselect fractions world 100 "acc" server)
reselect-Outcome_example = reselect-Outcome fractions world 100 "acc" server acc known

reselect-IsSettled_example :
    IsSettled fractions world 100 "acc" server acc (reselect fractions world 100 "acc" server)
reselect-IsSettled_example = reselect-IsSettled fractions world 100 "acc" server acc known

check_node-Keeps_example :
    Keeps server
      (check_node fractions world.env world.outside world.latest 100 "recovery" "acc" "n-1"
        server).0
check_node-Keeps_example =
    check_node-Keeps fractions world.env world.outside world.latest 100 "recovery" "acc" "n-1"
      server
