-- ===== src/Select/Rounds.antt =====
-- Why the search for a node to activate ends: the nodes that are left to try get fewer.
use qcc_plus.Prelude.{
  ℕ, ◌≤◌, ◌<◌, zero, suc, ◌≡◌, inl, inr, String, true, false, not, Option, none, some, List, [],
  ◌∷◌, arith, Bool-cases, if◌then◌else◌, countb, contains, str_eq, eq_iff,
}
use qcc_plus.Floats.{FloatOps}
use qcc_plus.Server.Defs.{Server, Node, Account}
use qcc_plus.Health.Probe.{Outside}
use qcc_plus.Health.Apply.{check_node}
use qcc_plus.Health.Keeps.{Keeps, Keeps-refl, Keeps-trans, check_node-Keeps}
use qcc_plus.Select.Warmup.{
  World, warmup_attempt, warmup_loop, warmup_with, warmup_node, warmup_attempts, warmup_account,
}
use qcc_plus.Select.Pick.{is_skipped, precedes, nodes_of, best_node}
use qcc_plus.Select.Best.{Entry, Verdict, nothing, found}
use qcc_plus.Select.Order.{Among-nodes_of, best_node-Verdict}

-- The nodes that are left to try.
abbrev pub left : List String → List String → ℕ
left ids skip = countb (λ id. not (contains id skip)) ids

left-grows : (ids skip : List String) (id : String) → left ids (id ∷ skip) ≤ left ids skip
unfolding contains
left-grows [] skip id = ground arith
left-grows (j ∷ ids) skip id = ground (arith, left-grows ids skip id)

-- A node that is tried is not left any more.
pub left-tried :
    (ids skip : List String) (id : String)
    → contains id ids ≡ true
    → contains id skip ≡ false
    → left ids (id ∷ skip) < left ids skip
unfolding contains
left-tried [] skip id listed fresh = ground arith
left-tried (j ∷ ids) skip id listed fresh = elim (Bool-cases (str_eq j id)) [
  | inl here ↦ ground (arith, left-grows ids skip id, eq_iff j id)
  | inr other ↦ ground (arith, left-tried ids skip id (ground arith) fresh, eq_iff j id)
]

module _ {F : Type 0} where
  -- The node that is picked belongs to the account, and was not skipped.
  pub best_node-fresh :
      (p : Server F) (acc : Account) (skip : List String) (id : String) (n : Node)
      → best_node p acc skip ≡ some (id, n)
      → (contains id acc.nodes ≡ true) × (contains id skip ≡ false)
  unfolding is_skipped
  best_node-fresh p acc skip id n e = from (best_node p acc skip) (best_node-Verdict p acc skip) e
    where
      from :
          (o : Option Entry)
          → Verdict precedes (is_skipped acc skip) (nodes_of p.node_index acc.nodes) o
          → o ≡ some (id, n)
          → (contains id acc.nodes ≡ true) × (contains id skip ≡ false)
      from o (nothing all) g = cc
      from o (found r best) g =
          let (listed, there) = Among-nodes_of p.node_index acc.nodes r best.member in
          ground (arith, best.free)

module _ {F : Type 0} (fl : FloatOps F) (w : World) (now : ℕ) where
  -- The states that health checks for warmups lead to.
  pub data Checks (p : Server F) : Server F → Type 0 where
    start : Checks p p
    next :
        (q : Server F) (out : Outside) (a id : String)
        → Checks p q
        → Checks p (check_node fl w.env out w.latest now "warmup" a id q).0

  pub Checks-trans : (p q r : Server F) → Checks p q → Checks q r → Checks p r
  Checks-trans p q r h start = h
  Checks-trans p q r h (next q' out a id k) = next q' out a id (Checks-trans p q q' h k)

  -- They keep the accounts but for the failed sets, the keys of the nodes and the settings.
  pub Checks-Keeps : (p q : Server F) → Checks p q → Keeps p q
  Checks-Keeps p q start = Keeps-refl p
  Checks-Keeps p q (next q' out a id k) =
      Keeps-trans p q' (check_node fl w.env out w.latest now "warmup" a id q').0
        (Checks-Keeps p q' k) (check_node-Keeps fl w.env out w.latest now "warmup" a id q')

  warmup_attempt-Checks :
      (a id : String) (o : Option Outside) (p : Server F)
      → Checks p (warmup_attempt fl w now a id o p).0
  unfolding warmup_attempt
  warmup_attempt-Checks a id none p = start
  warmup_attempt-Checks a id (some out) p = next p out a id start

  warmup_loop-Checks :
      (k i s : ℕ) (a id : String) (p : Server F) → Checks p (warmup_loop fl w now k i s a id p).0
  unfolding warmup_loop
  warmup_loop-Checks zero i s a id p = start
  warmup_loop-Checks (suc k) i s a id p =
      let (p', ok) = warmup_attempt fl w now a id (w.attempt id i) p in
      Checks-trans p p' (warmup_loop fl w now k (suc i) (if ok then suc s else s) a id p').0
        (warmup_attempt-Checks a id (w.attempt id i) p)
        (warmup_loop-Checks k (suc i) (if ok then suc s else s) a id p')

  warmup_with-Checks :
      (id : String) (o : Option (String × Account)) (p : Server F)
      → Checks p (warmup_with fl w now id o p).0
  unfolding warmup_with
  warmup_with-Checks id none p = start
  warmup_with-Checks id (some (a, acc)) p =
      warmup_loop-Checks (warmup_attempts p.warmup_config) 0 0 a id p

  pub warmup_node-Checks :
      (id : String) (n : Node) (p : Server F) → Checks p (warmup_node fl w now id n p).0
  unfolding warmup_node
  warmup_node-Checks id n p = warmup_with-Checks id (warmup_account p id n) p
