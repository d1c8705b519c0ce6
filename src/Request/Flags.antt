-- ===== src/Request/Flags.antt =====
-- The metrics of an attempt and the count of a failure keep a node's `Failed` and its account's
-- `FailedSet` in agreement: internal/proxy/metrics.go and internal/proxy/health.go.
use qcc_plus.Prelude.{
  ℕ, ◌==◌, ◌≡◌, refl, ◌∙◌, ap, ◌⊎◌, inl, inr, String, Bool, ◌&&◌, Option, none, some, arith,
  Bool-cases, Option-cases, if◌then◌else◌, remove_key, contains-remove_key, lookup, insert,
}
use qcc_plus.Server.Defs.{Server, Node, Account, account_of, put_node}
use qcc_plus.Health.Keeps.{account_of-owner, account_of-lookup}
use qcc_plus.Recovery.Failing.{should_fail, failed_again}
use qcc_plus.Recovery.Coherent.{IsCoherent, written_both, written_node}
use qcc_plus.Recovery.Agreement.{same_maps}
use qcc_plus.Request.Metrics.{
  Attempt, served_node, clear_served, store_served, show_served, metrics_account, record_found,
  record_metrics,
}

module _ {F : Type 0} where
  -- The three maps of a state.
  abbrev SameMaps : Server F → Server F → Type 0
  SameMaps p q =
      (q.node_index ≡ p.node_index)
      × (q.node_account ≡ p.node_account)
      × (q.account_by_id ≡ p.account_by_id)

  store_served-maps :
      (t : Attempt) (k s : ℕ) (final : Bool) (acc_id : String) (n : Node) (p : Server F)
      → SameMaps p (store_served t k s final acc_id n p)
  unfolding store_served
  store_served-maps t k s final acc_id n p = ground arith

  show_served-maps :
      (now : ℕ) (recovered : Bool) (acc : Option (String × Account)) (acc_id : String) (n : Node)
      (p : Server F)
      → SameMaps p (show_served now recovered acc acc_id n p)
  unfolding show_served
  show_served-maps now recovered acc acc_id n p = ground arith

  clear_served-frame :
      (t : Attempt) (id : String) (o : Option (String × Account)) (p : Server F)
      → ((clear_served t id o p).node_index ≡ p.node_index)
        × ((clear_served t id o p).node_account ≡ p.node_account)
  unfolding clear_served
  clear_served-frame t id none p = (refl, refl)
  clear_served-frame t id (some (a, acc)) p = ground arith

  clear_served-put_node :
      (t : Attempt) (id : String) (o : Option (String × Account)) (n : Node) (p : Server F)
      → (clear_served t id o (put_node id n p)).account_by_id
        ≡ (clear_served t id o p).account_by_id
  unfolding clear_served
  clear_served-put_node t id none n p = refl
  clear_served-put_node t id (some (a, acc)) n p = ground arith

  pub record_found-frame :
      (t : Attempt) (k s : ℕ) (final : Bool) (id : String) (n : Node) (p : Server F)
      → let q = record_found t k s final id (some n) p in
        (q.node_index ≡ insert id (served_node t n) p.node_index)
        × (q.node_account ≡ p.node_account)
        × (q.account_by_id ≡ (clear_served t id (account_of p id) p).account_by_id)
  unfolding record_found
  record_found-frame t k s final id n p =
      let acc = account_of p id in
      let acc_id = metrics_account acc n in
      let n' = served_node t n in
      let cleared = clear_served t id acc (put_node id n' p) in
      let stored = store_served t k s final acc_id n' cleared in
      let (i1, o1, a1) =
        show_served-maps t.ended (t.status == 200 && n.failed) acc acc_id n' stored in
      let (i2, o2, a2) = store_served-maps t k s final acc_id n' cleared in
      let (i3, o3) = clear_served-frame t id acc (put_node id n' p) in
      (i1 ∙ i2 ∙ i3, o1 ∙ o2 ∙ o3, a1 ∙ a2 ∙ clear_served-put_node t id acc n' p)

  pub clear_served-accounts :
      (t : Attempt) (id a : String) (acc : Account) (p : Server F)
      → (clear_served t id (some (a, acc)) p).account_by_id ≡ (
          if t.status == 200
          then insert a (record acc { failed_set = remove_key id acc.failed_set }) p.account_by_id
          else p.account_by_id)
  unfolding clear_served
  clear_served-accounts t id a acc p = ground arith

  record_found-IsCoherent :
      (t : Attempt) (k s : ℕ) (final : Bool) (id : String) (n : Node) (p : Server F)
      (o : Option (String × Account))
      → lookup id p.node_index ≡ some n
      → account_of p id ≡ o
      → IsCoherent p
      → IsCoherent (record_found t k s final id (some n) p)
  unfolding clear_served
  record_found-IsCoherent t k s final id n p none there owner h =
      let (index, owners, accounts) = record_found-frame t k s final id n p in
      written_node p (record_found t k s final id (some n) p) id (served_node t n) index owners
        (accounts
          ∙ ap (λ (o : Option (String × Account)). (clear_served t id o p).account_by_id) owner)
        (λ a acc f g. absurd (ground arith)) h
  record_found-IsCoherent t k s final id n p (some (a, acc)) there owner h =
      let (index, owners, accounts) = record_found-frame t k s final id n p in
      let q = record_found t k s final id (some n) p in
      let accounts' =
        accounts
        ∙ ap (λ (o : Option (String × Account)). (clear_served t id o p).account_by_id) owner
        ∙ clear_served-accounts t id a acc p in
      elim (Bool-cases (t.status == 200)) [
        | inl ok ↦
            written_both p q id a (served_node t n) acc
              (record acc { failed_set = remove_key id acc.failed_set }) index owners
              (accounts'
                ∙ ap
                    (λ (b : Bool).
                      if b
                      then insert a (record acc { failed_set = remove_key id acc.failed_set })
                          p.account_by_id
                      else p.account_by_id)
                    ok)
              (account_of-owner p id a acc owner) (account_of-lookup p id a acc owner)
              (λ j. ground (arith, contains-remove_key id j acc.failed_set)) h
        | inr bad ↦
            written_node p q id (served_node t n) index owners
              (accounts'
                ∙ ap
                    (λ (b : Bool).
                      if b
                      then insert a (record acc { failed_set = remove_key id acc.failed_set })
                          p.account_by_id
                      else p.account_by_id)
                    bad)
              (λ b cur f g. ground (arith, h.agree id b n cur there f g)) h
      ]

  -- The metrics of an attempt keep the two places in agreement: a success clears both.
  pub record_metrics-IsCoherent :
      (id : String) (t : Attempt) (attempts success : ℕ) (final : Bool) (p : Server F)
      → IsCoherent p
      → IsCoherent (record_metrics id t attempts success final p)
  unfolding record_metrics record_found
  record_metrics-IsCoherent id t attempts success final p h = from (lookup id p.node_index) refl
    where
      from :
          (o : Option Node)
          → lookup id p.node_index ≡ o
          → IsCoherent (record_found t attempts success final id o p)
      from none gone = h
      from (some n) there =
          record_found-IsCoherent t attempts success final id n p (account_of p id) there refl h

  pub should_fail-maps :
      (id err : String) (p : Server F)
      → let q = (should_fail id err p).0 in
        (q.node_account ≡ p.node_account)
        × (q.account_by_id ≡ p.account_by_id)
        × ((q.node_index ≡ p.node_index)
            ⊎ ((n : Node) × (lookup id p.node_index ≡ some n)
                × (q.node_index ≡ insert id (failed_again err n) p.node_index)))
  unfolding should_fail
  should_fail-maps id err p = elim (Option-cases (lookup id p.node_index)) [
    | inl gone ↦ (ground arith, ground arith, inl (ground arith))
    | inr (n, there) ↦ (ground arith, ground arith, inr (n, there, ground arith))
  ]

  -- A failure that is only counted marks the node in neither place.
  pub should_fail-IsCoherent :
      (id err : String) (p : Server F) → IsCoherent p → IsCoherent (should_fail id err p).0
  should_fail-IsCoherent id err p h =
      let (owners, accounts, index) = should_fail-maps id err p in
      elim index [
        | inl same ↦ same_maps p (should_fail id err p).0 (same, owners, accounts) h
        | inr (n, there, written) ↦
            written_node p (should_fail id err p).0 id (failed_again err n) written owners accounts
              (λ a acc f g. h.agree id a n acc there f g) h
      ]
