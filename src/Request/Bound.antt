-- ===== src/Request/Bound.antt =====
-- Why the bound of the loop of internal/proxy/handler.go is never what ends a request.
use mathlib.Core.Option
use qcc_plus.Prelude.{
  ℤ, ℕ, zero, suc, ◌<◌, ◌==◌, ◌≡◌, refl, sym, ◌∙◌, ap, String, Bool, true, false, not, Option, none,
  some, List, [], ◌∷◌, arith, lookup, contains, length, countb-le-length, if◌then◌else◌,
}
use qcc_plus.Floats.{FloatOps}
use qcc_plus.Server.Defs.{Server, Node, Account}
use qcc_plus.Select.Warmup.{World}
use qcc_plus.Select.Pick.{is_skipped, is_lighter, nodes_of, select_healthy_excluding}
use qcc_plus.Select.Best.{Entry, Verdict, nothing, found}
use qcc_plus.Select.Order.{Among-nodes_of, select_healthy_excluding-Verdict}
use qcc_plus.Select.Rounds.{left, left-tried}
use qcc_plus.Request.Metrics.{Attempt}
use qcc_plus.Request.Loop.{
  RetryConfig, Upstream, Progress, Ending, served, gave_up, has_failed, should_retry,
  is_context_error, attempt_timeout, overall_deadline, skipping, report_to_breaker, note_failure,
  note_attempt, after_attempt, try_attempt, if_allowed, ask_breaker, on_node, serve_loop, serve,
  max_loops,
}
use qcc_plus.Request.Agreement.{ask_breaker-maps}
use qcc_plus.Wiring.Same.{
  SameWiring, SameWiring-refl, SameWiring-trans, wired_maps, nodes_of_account, id_of_node,
}
use qcc_plus.Wiring.Attempts.{attempt-SameWiring}

module _ {F : Type 0} where
  -- Every node stands under its own id.
  pub record IsKeyed (p : Server F) : Type 0 where
    pub keyed : (id : String) (n : Node) → lookup id p.node_index ≡ some n → n.id ≡ id

  pub SameWiring-IsKeyed : (p q : Server F) → SameWiring p q → IsKeyed p → IsKeyed q
  SameWiring-IsKeyed p q same h = record {
    keyed = λ id n e. from id n e (lookup id p.node_index) refl;
  }
    where
      from :
          (id : String) (n : Node)
          → lookup id q.node_index ≡ some n
          → (o : Option Node) → lookup id p.node_index ≡ o
          → n.id ≡ id
      from id n e none gone = absurd (cc (ap id_of_node (sym e) ∙ same.ids id ∙ ap id_of_node gone))
      from id n e (some m) there =
          let ids : some n.id ≡ some m.id =
            ap id_of_node (sym e) ∙ same.ids id ∙ ap id_of_node there in
          ground (arith, ids, h.keyed id m there)

  -- The account behind the same pointer has the same nodes.
  wired_account_nodes :
      (a : String) (p q : Server F) (acc : Account)
      → SameWiring p q
      → lookup a p.account_by_id ≡ some acc
      → (acc' : Account) × (lookup a q.account_by_id ≡ some acc') × (acc'.nodes ≡ acc.nodes)
  wired_account_nodes a p q acc same there = from (lookup a q.account_by_id) refl
    where
      from :
          (o : Option Account)
          → lookup a q.account_by_id ≡ o
          → (acc' : Account) × (lookup a q.account_by_id ≡ some acc') × (acc'.nodes ≡ acc.nodes)
      from none e =
          absurd (cc (ap nodes_of_account (sym e) ∙ same.nodes a ∙ ap nodes_of_account there))
      from (some acc') e =
          let lists : some acc'.nodes ≡ some acc.nodes =
            ap nodes_of_account (sym e) ∙ same.nodes a ∙ ap nodes_of_account there in
          (
            acc',
            e,
            ap {B = List String}
                (λ (o : Option (List String)). elim o [ none ↦ [] | some ids ↦ ids ]) lists,
          )

  -- The node that is picked belongs to the account and was not skipped.
  picked-fresh :
      (p : Server F) (acc : Account) (skip : List String) (n : Node)
      → IsKeyed p
      → select_healthy_excluding p (some acc) skip ≡ some n
      → (contains n.id acc.nodes ≡ true) × (contains n.id skip ≡ false)
  unfolding is_skipped
  picked-fresh p acc skip n h e =
      let (o, verdict, same) = select_healthy_excluding-Verdict p acc skip in
      from o verdict (sym same ∙ e)
    where
      from :
          (o : Option Entry)
          → Verdict is_lighter (is_skipped acc skip) (nodes_of p.node_index acc.nodes) o
          → Option.map (λ e. e.1) o ≡ some n
          → (contains n.id acc.nodes ≡ true) × (contains n.id skip ≡ false)
      from o (nothing all) g = cc
      from o (found r best) g =
          let (listed, there) = Among-nodes_of p.node_index acc.nodes r best.member in
          let own : r.1.id ≡ r.0 = h.keyed r.0 r.1 there in ground (arith, best.free, own, g)

module _ {F : Type 0} (fl : FloatOps F) (w : World) (cfg : RetryConfig) (up : Upstream) where
  -- Two calls for the next node that agree once `n` is skipped as well.
  abbrev Agree :
      (Progress → Server F → Server F × Ending)
      → (Progress → Server F → Server F × Ending)
      → Progress
      → Node
      → Server F
      → Type 0
  Agree again again' s n p =
      (s' : Progress) (p' : Server F)
      → s'.skip ≡ n.id ∷ s.skip
      → SameWiring p p'
      → again s' p' ≡ again' s' p'

  after_attempt-Agree :
      (again again' : Progress → Server F → Server F × Ending) (acc : Account) (n : Node)
      (s : Progress) (t : Attempt) (p : Server F)
      → Agree again again' s n p
      → after_attempt fl w cfg up again acc n s t p ≡ after_attempt fl w cfg up again' acc n s t p
  unfolding after_attempt
  after_attempt-Agree again again' acc n s t p agree =
      let k = suc s.attempt in
      let first_failed = if k == 1 then has_failed t else s.first_failed in
      let p2 = note_attempt fl w cfg up n k first_failed t (report_to_breaker fl w cfg up n t p) in
      let p3 = note_failure fl w cfg up acc n k t p2 in
      let s' : Progress = record {
        skip = n.id ∷ s.skip;
        attempt = k;
        first_failed = first_failed;
        loops = suc s.loops;
      } in
      let (_, same) = attempt-SameWiring fl w cfg up acc n k first_failed t p in
      ap {B = Server F × Ending}
        (λ (next : Server F × Ending).
          if not (has_failed t)
          then (p2, served n.id)
          else if is_context_error t
          then (p2, gave_up n.id)
          else if should_retry cfg t
          then next
          else (p3, gave_up n.id))
        (agree s' p3 refl same)

  try_attempt-Agree :
      (again again' : Progress → Server F → Server F × Ending) (acc : Account) (n : Node)
      (s : Progress) (o : Option ℤ) (p : Server F)
      → Agree again again' s n p
      → try_attempt fl w cfg up again acc n s o p ≡ try_attempt fl w cfg up again' acc n s o p
  unfolding try_attempt
  try_attempt-Agree again again' acc n s none p agree = refl
  try_attempt-Agree again again' acc n s (some timeout) p agree =
      after_attempt-Agree again again' acc n s (up.answer s.attempt n.id timeout) p agree

  if_allowed-Agree :
      (again again' : Progress → Server F → Server F × Ending) (acc : Account) (n : Node)
      (s : Progress) (o : Option ℤ) (ok : Bool) (p : Server F)
      → Agree again again' s n p
      → if_allowed fl w cfg up again acc n s o ok p ≡ if_allowed fl w cfg up again' acc n s o ok p
  unfolding if_allowed
  if_allowed-Agree again again' acc n s o true p agree =
      try_attempt-Agree again again' acc n s o p agree
  if_allowed-Agree again again' acc n s o false p agree =
      agree (skipping n.id s) p refl (SameWiring-refl p)

  on_node-Agree :
      (again again' : Progress → Server F → Server F × Ending) (now : ℕ) (deadline : Option ℕ)
      (acc : Account) (o : Option Node) (s : Progress) (p : Server F)
      → ((n : Node) → o ≡ some n → Agree again again' s n p)
      → on_node fl w cfg up again now deadline acc o s p
        ≡ on_node fl w cfg up again' now deadline acc o s p
  unfolding on_node
  on_node-Agree again again' now deadline acc none s p agree = refl
  on_node-Agree again again' now deadline acc (some n) s p agree =
      let (p', ok) = ask_breaker fl w cfg up now n p in
      if_allowed-Agree again again' acc n s (attempt_timeout cfg deadline s.attempt now) ok p'
        (λ s' q e same.
          agree n refl s' q e
            (SameWiring-trans p p' q (wired_maps p p' (ask_breaker-maps fl w cfg up now n p)) same))

  serve_loop-enough :
      (k m : ℕ) (deadline : Option ℕ) (a : String) (acc own : Account) (s : Progress) (p : Server F)
      → IsKeyed p
      → lookup a p.account_by_id ≡ some own
      → left own.nodes s.skip < k
      → left own.nodes s.skip < m
      → serve_loop fl w cfg up m deadline a acc s p ≡ serve_loop fl w cfg up k deadline a acc s p
  unfolding serve_loop
  serve_loop-enough zero m deadline a acc own s p h there few more = absurd (omega arith)
  serve_loop-enough (suc k) zero deadline a acc own s p h there few more = absurd (omega arith)
  serve_loop-enough (suc k) (suc m) deadline a acc own s p h there few more =
      on_node-Agree (serve_loop fl w cfg up m deadline a acc)
        (serve_loop fl w cfg up k deadline a acc) (up.clock s.loops) deadline acc
        (select_healthy_excluding p (lookup a p.account_by_id) s.skip) s p
        (λ n picked s' p' skips same.
          let (own', there', nodes) = wired_account_nodes a p p' own same there in
          let (listed, fresh) = picked-fresh p own s.skip n h (
            ap (λ (o : Option Account). select_healthy_excluding p o s.skip) (sym there)
            ∙ picked) in
          let less = left-tried own.nodes s.skip n.id listed fresh in
          let now_left : left own'.nodes s'.skip ≡ left own.nodes (n.id ∷ s.skip) =
            ap (λ (ids : List String). left ids s'.skip) nodes ∙ ap (left own.nodes) skips in
          serve_loop-enough k m deadline a acc own' s' p' (SameWiring-IsKeyed p p' same h) there'
            (omega arith) (omega arith))

  -- For a known account, with every node under its own id, the bound on the rounds is never what ends
  -- a request: with any bound above the number of the account's nodes the request ends in the same
  -- state and in the same way. So it ends because a node answers, its time is over, or no node is left
  -- that was not tried.
  pub serve-enough :
      (now rounds : ℕ) (a : String) (acc : Account) (p : Server F)
      → IsKeyed p
      → lookup a p.account_by_id ≡ some acc
      → length acc.nodes < rounds
      → serve_loop fl w cfg up rounds
          (overall_deadline cfg now)
          a
          acc
          (record { skip = []; attempt = 0; first_failed = false; loops = 0 })
          p
        ≡ serve fl w cfg up now a acc p
  unfolding serve
  serve-enough now rounds a acc p h there more =
      let most = countb-le-length (λ j. not (contains j [])) acc.nodes in
      serve_loop-enough (max_loops acc) rounds (overall_deadline cfg now) a acc acc
        (record { skip = []; attempt = 0; first_failed = false; loops = 0 }) p h there
        (ground arith) (ground arith)
