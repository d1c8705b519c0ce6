-- ===== src/Recovery/Coherent.antt =====
-- The two places where a failure is kept agree: a node's `Failed` and its account's `FailedSet`.
use qcc_plus.Prelude.{
  ℕ, ◌+◌, ◌≡◌, sym, subst, ◌∙◌, ap, ◌⊎◌, inl, inr, String, Bool, not, Option, none, some, arith,
  if◌then◌else◌, contains, contains-add_key, contains-remove_key, lookup, insert, lookup-insert,
  str_eq, eq_iff,
}
use qcc_plus.Floats.{FloatOps}
use qcc_plus.Server.Defs.{Server, Node, Account, Env, account_of, account_node, choose_non_empty}
use qcc_plus.Health.Probe.{Probe, Outside, probe_node, probe_method}
use qcc_plus.Health.Record.{Check, Latest, record_health_event}
use qcc_plus.Health.Apply.{
  Noted, apply_check, check_found, check_in, check_node, checked_account, checked_node,
}
use qcc_plus.Health.Keeps.{
  account_of-lookup, account_of-owner, apply_check-index, apply_check-accounts, apply_check-frame,
  record_health_event-index, record_health_event-frame,
}

-- A failed set that follows the node `id`, and is as before for the others.
abbrev pub Follows : String → Bool → Account → Account → Type 0
Follows id b acc acc' =
    (j : String)
    → contains j acc'.failed_set ≡ (if str_eq id j then b else contains j acc.failed_set)

module _ {F : Type 0} where
  -- Every node of an account that the server knows is in the account's failed set exactly if it is
  -- marked failed.
  pub record IsCoherent (p : Server F) : Type 0 where
    pub agree :
        (id a : String) (n : Node) (acc : Account)
        → lookup id p.node_index ≡ some n
        → lookup id p.node_account ≡ some a
        → lookup a p.account_by_id ≡ some acc
        → contains id acc.failed_set ≡ n.failed

  -- A write to a node and to the failed set of its account.
  pub written_both :
      (p q : Server F) (id a : String) (n' : Node) (acc acc' : Account)
      → q.node_index ≡ insert id n' p.node_index
      → q.node_account ≡ p.node_account
      → q.account_by_id ≡ insert a acc' p.account_by_id
      → lookup id p.node_account ≡ some a
      → lookup a p.account_by_id ≡ some acc
      → Follows id n'.failed acc acc'
      → IsCoherent p
      → IsCoherent q
  written_both p q id a n' acc acc' index owners accounts owner there follows h = record {
    agree = λ j b n cur e f g.
        let e' = sym (lookup-insert id j n' p.node_index) ∙ ap (lookup j) (sym index) ∙ e in
        let f' = ap (lookup j) (sym owners) ∙ f in
        let g' = sym (lookup-insert a b acc' p.account_by_id) ∙ ap (lookup b) (sym accounts) ∙ g in
        both j b n cur e' f' g';
  }
    where
      both :
          (j b : String) (n : Node) (cur : Account)
          → (if str_eq id j then some n' else lookup j p.node_index) ≡ some n
          → lookup j p.node_account ≡ some b
          → (if str_eq a b then some acc' else lookup b p.account_by_id) ≡ some cur
          → contains j cur.failed_set ≡ n.failed
      both j b n cur e f g =
          ground (arith, eq_iff id j, eq_iff a b, follows j, h.agree j b n cur, h.agree j b n acc)

  -- A write to a node alone.
  pub written_node :
      (p q : Server F) (id : String) (n' : Node)
      → q.node_index ≡ insert id n' p.node_index
      → q.node_account ≡ p.node_account
      → q.account_by_id ≡ p.account_by_id
      → ((a : String) (acc : Account)
          → lookup id p.node_account ≡ some a
          → lookup a p.account_by_id ≡ some acc
          → contains id acc.failed_set ≡ n'.failed)
      → IsCoherent p
      → IsCoherent q
  written_node p q id n' index owners accounts fits h = record {
    agree = λ j b n cur e f g.
        let e' = sym (lookup-insert id j n' p.node_index) ∙ ap (lookup j) (sym index) ∙ e in
        let f' = ap (lookup j) (sym owners) ∙ f in
        let g' = ap (lookup b) (sym accounts) ∙ g in node j b n cur e' f' g';
  }
    where
      node :
          (j b : String) (n : Node) (cur : Account)
          → (if str_eq id j then some n' else lookup j p.node_index) ≡ some n
          → lookup j p.node_account ≡ some b
          → lookup b p.account_by_id ≡ some cur
          → contains j cur.failed_set ≡ n.failed
      node j b n cur e f g = ground (arith, eq_iff id j, fits b cur, h.agree j b n cur)

  -- A record of a check keeps the flags.
  pub record_health_event-IsCoherent :
      (latest : String → String → Latest) (now : ℕ) (c : Check) (p : Server F)
      → IsCoherent p
      → IsCoherent (record_health_event latest now c p)
  record_health_event-IsCoherent latest now c p h =
      let q = record_health_event latest now c p in
      let (accounts, owners, _, _, _) = record_health_event-frame latest now c p in
      elim (record_health_event-index latest now c p) [
        | inl index ↦ record {
          agree = λ j b n cur e f g.
              h.agree j b n cur (ap (lookup j) (sym index) ∙ e) (ap (lookup j) (sym owners) ∙ f)
                (ap (lookup b) (sym accounts) ∙ g);
        }
        | inr (n, m, _, there, index) ↦
            written_node p q c.node_id (record n { metrics = m }) index owners accounts
              (λ a acc f g. h.agree c.node_id a n acc there f g) h
      ]

-- The failed set of an account after a check follows the result.
checked-Follows :
    (pr : Probe) (id : String) (acc : Account)
    → Follows id (not pr.ok) acc (checked_account pr id acc)
checked-Follows pr id acc j =
    ground (arith, contains-add_key id j acc.failed_set, contains-remove_key id j acc.failed_set)

module _ {F : Type 0} (fl : FloatOps F) where
  -- A check keeps the two places in agreement.
  apply_check-IsCoherent :
      (pr : Probe) (now : ℕ) (id : String) (p : Server F)
      → IsCoherent p
      → IsCoherent (apply_check fl pr now id p).0
  apply_check-IsCoherent pr now id p h =
      let q = (apply_check fl pr now id p).0 in
      let (owners, _, _) = apply_check-frame fl pr now id p in
      elim (apply_check-index fl pr now id p) [
        | inl (gone, same) ↦ subst (λ (r : Server F × Option Noted). IsCoherent r.0) (sym same) h
        | inr (n, there, index) ↦ elim (apply_check-accounts fl pr now id p) [
          | inl (alone, accounts) ↦
              written_node p q id (checked_node pr now n) index owners accounts
                (λ a acc f g. absurd (unowned n a acc there alone f g)) h
          | inr (a, acc, owner, accounts) ↦
              written_both p q id a (checked_node pr now n) acc (checked_account pr id acc) index
                owners accounts (account_of-owner p id a acc owner)
                (account_of-lookup p id a acc owner) (checked-Follows pr id acc) h
        ]
      ]
    where
      unowned :
          (n : Node) (a : String) (acc : Account)
          → lookup id p.node_index ≡ some n
          → (lookup id p.node_index ≡ none) ⊎ (account_of p id ≡ none)
          → lookup id p.node_account ≡ some a
          → lookup a p.account_by_id ≡ some acc
          → ⊥
      unowned n a acc there alone f g = elim alone [
        | inl gone ↦ ground arith
        | inr lone ↦ ground arith
      ]

  check_found-IsCoherent :
      (env : Env) (out : Outside) (latest : String → String → Latest) (now : ℕ) (source : String)
      (acc : Account) (id : String) (o : Option Node) (p : Server F)
      → IsCoherent p
      → IsCoherent (check_found fl env out latest now source acc id o p).0
  unfolding check_found
  check_found-IsCoherent env out latest now source acc id none p h = h
  check_found-IsCoherent env out latest now source acc id (some n) p h =
      let pr = probe_node env out n in
      let c : Check = record {
        account_id = choose_non_empty n.account_id acc.id;
        node_id = n.id;
        method = probe_method env n;
        source = source;
        probe = pr;
        at = now + pr.latency;
      } in
      apply_check-IsCoherent pr now id (record_health_event latest (now + pr.latency) c p)
        (record_health_event-IsCoherent latest (now + pr.latency) c p h)

  check_in-IsCoherent :
      (env : Env) (out : Outside) (latest : String → String → Latest) (now : ℕ) (source : String)
      (o : Option Account) (id : String) (p : Server F)
      → IsCoherent p
      → IsCoherent (check_in fl env out latest now source o id p).0
  unfolding check_in
  check_in-IsCoherent env out latest now source none id p h = h
  check_in-IsCoherent env out latest now source (some acc) id p h =
      check_found-IsCoherent env out latest now source acc id (account_node p acc id) p h

  pub check_node-IsCoherent :
      (env : Env) (out : Outside) (latest : String → String → Latest) (now : ℕ)
      (source a id : String) (p : Server F)
      → IsCoherent p
      → IsCoherent (check_node fl env out latest now source a id p).0
  unfolding check_node
  check_node-IsCoherent env out latest now source a id p h =
      check_in-IsCoherent env out latest now source (lookup a p.account_by_id) id p h
