-- ===== src/Recovery/Check.antt =====
-- internal/proxy/health.go: `checkNodeHealth` as a whole, `maybePromoteRecovered`,
-- `checkFailedNodes` and `healthInterval`.
use qcc_plus.Prelude.{
  ℕ, ℤ, pos, String, Bool, true, false, not, ◌&&◌, ◌||◌, Option, none, some, List, [], ◌∷◌, ◌++◌,
  str_eq, ltb_ℤ, if◌then◌else◌, lookup, map,
}
use qcc_plus.Floats.{FloatOps}
use qcc_plus.Server.Defs.{
  Server, Node, Account, account_of, account_node, to_hub, to_notify, publish, node_recovered,
  node_status,
}
use qcc_plus.Health.Probe.{Probe}
use qcc_plus.Health.Apply.{Noted, check_node}
use qcc_plus.Select.Warmup.{World}
use qcc_plus.Recovery.Failing.{reselect_for}

-- `shouldPromote`
unfoldable pub should_promote : Probe → Noted → Node → Bool
should_promote pr k n =
    pr.ok
    && not n.disabled
    && (k.was_failed || str_eq k.active_id "" || ltb_ℤ n.weight k.active_weight)

-- The account for which a failed check of its active node starts a switch.
unfoldable pub switch_due : Probe → String → Option (String × Account) → Option String
switch_due pr id none = none
switch_due pr id (some (a, acc)) = if not pr.ok && str_eq id acc.active_id then some a else none

-- `healthInterval`: the shortest positive interval of an account, 0 if there is none.
unfoldable pub shortest : ℤ → List (String × Account) → ℤ
shortest m [] = m
shortest m ((a, acc) ∷ accs) =
    let every = acc.config.health_every in
    shortest (if ltb_ℤ (pos 0) every && (not (ltb_ℤ (pos 0) m) || ltb_ℤ every m) then every else m)
      accs

module _ {F : Type 0} where
  -- The two messages about a node that is up again; `acc` is the account that the caller checks.
  unfoldable pub announce_recovered : Option Account → Node → Server F → Server F
  announce_recovered none n p = p
  announce_recovered (some acc) n p =
      to_hub (node_status acc.id n.id n.name "online" none)
        (to_notify (publish acc.id node_recovered n.id) p)

  unfoldable pub health_interval : Server F → ℤ
  unfolding shortest
  health_interval p = shortest (pos 0) p.account_by_id

  -- The failed nodes of an account that `checkFailedNodes` probes.
  unfoldable pub to_recheck : Bool → Server F → Account → List String → List String
  to_recheck skip_disabled p acc [] = []
  to_recheck skip_disabled p acc (id ∷ ids) =
      let rest = to_recheck skip_disabled p acc ids in
      if skip_disabled && elim (account_node p acc id) [ none ↦ false | some n ↦ n.disabled ]
      then rest
      else id ∷ rest

module _ {F : Type 0} (fl : FloatOps F) (w : World) (now : ℕ) where
  -- `maybePromoteRecovered`
  unfoldable pub maybe_promote_recovered : Node → Server F → Server F
  unfolding reselect_for
  maybe_promote_recovered n p = reselect_for fl w now (account_of p n.id) p

  -- `checkNodeHealth` behind the lock. For a warmup there is nothing to do.
  unfoldable pub after_check :
      Bool
      → String
      → String
      → Option (Probe × Noted)
      → Option Node
      → Server F
      → Server F × Option String
  unfolding should_promote announce_recovered maybe_promote_recovered switch_due
  after_check true a id r n p = (p, none)
  after_check false a id none n p = (p, none)
  after_check false a id (some r) none p = (p, none)
  after_check false a id (some (pr, k)) (some n) p =
      let due = switch_due pr id (account_of p id) in
      let p' =
        if pr.ok && k.was_failed then announce_recovered (lookup a p.account_by_id) n p else p in
      (if should_promote pr k n then maybe_promote_recovered n p' else p', due)

  -- `checkNodeHealth`. The switch that it starts in a goroutine of its own is returned as the account
  -- to switch. Every caller gives one of the sources of internal/store, none of them empty.
  unfoldable pub check_node_health : String → String → String → Server F → Server F × Option String
  unfolding check_node after_check
  check_node_health source a id p =
      let (p', r) = check_node fl w.env w.outside w.latest now source a id p in
      after_check (str_eq source "warmup") a id r (lookup id p'.node_index) p'

  unfoldable pub check_all : String → List String → Server F → Server F × List String
  unfolding check_node_health
  check_all a [] p = (p, [])
  check_all a (id ∷ ids) p =
      let (p', due) = check_node_health "recovery" a id p in
      let (p'', dues) = check_all a ids p' in (p'', elim due [ none ↦ dues | some b ↦ b ∷ dues ])

  unfoldable pub check_account : Bool → String → Option Account → Server F → Server F × List String
  unfolding check_all to_recheck
  check_account skip_disabled a none p = (p, [])
  check_account skip_disabled a (some acc) p =
      check_all a (to_recheck skip_disabled p acc acc.failed_set) p

  unfoldable pub check_accounts : Bool → List String → Server F → Server F × List String
  unfolding check_account
  check_accounts skip_disabled [] p = (p, [])
  check_accounts skip_disabled (a ∷ others) p =
      let (p', dues) = check_account skip_disabled a (lookup a p.account_by_id) p in
      let (p'', more) = check_accounts skip_disabled others p' in (p'', dues ++ more)

  -- `checkFailedNodes`, with the setting `health.skip_disabled_nodes`.
  unfoldable pub check_failed_nodes : Bool → Server F → Server F × List String
  unfolding check_accounts
  check_failed_nodes skip_disabled p =
      check_accounts skip_disabled (map (λ e. e.0) p.account_by_id) p
