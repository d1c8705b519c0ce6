-- ===== src/Select/Warmup.antt =====
-- internal/proxy/warmup.go: a node is probed before it becomes the active one.
use qcc_plus.Prelude.{
  ℕ, zero, suc, pos, pos_part, String, Bool, true, false, not, Option, none, some, str_eq, leb_ℤ,
  if◌then◌else◌, lookup,
}
use qcc_plus.Floats.{FloatOps}
use qcc_plus.Server.Defs.{Server, Node, Account, WarmupConfig, Env, account_of, load_account}
use qcc_plus.Health.Probe.{Outside}
use qcc_plus.Health.Record.{Latest}
use qcc_plus.Health.Apply.{check_node}

-- What the proxy meets outside while it probes: in the i-th attempt at a node either the attempt
-- times out, or the outside answers as given. A probe that answers after its attempt has timed out
-- is a later, separate check.
pub record World : Type 0 where
  pub env : Env
  pub latest : String → String → Latest
  pub outside : Outside
  pub attempt : String → ℕ → Option Outside

-- At least one attempt is made.
abbrev pub warmup_attempts : WarmupConfig → ℕ
warmup_attempts cfg = if leb_ℤ cfg.attempts (pos 0) then 1 else pos_part cfg.attempts

module _ {F : Type 0} where
  -- The account of a node, for the warmup.
  abbrev pub warmup_account : Server F → String → Node → Option (String × Account)
  warmup_account p id n = elim (account_of p id) [
    | some acc ↦ some acc
    | none ↦ if str_eq n.account_id "" then none else load_account p n.account_id
  ]

  -- `node.Failed`, read through the pointer.
  abbrev pub is_failed : Server F → String → Bool
  is_failed p id = elim (lookup id p.node_index) [ none ↦ true | some n ↦ n.failed ]

module _ {F : Type 0} (fl : FloatOps F) (w : World) (now : ℕ) where
  -- One attempt: the state behind it, and whether it counts as a success.
  unfoldable pub warmup_attempt : String → String → Option Outside → Server F → Server F × Bool
  warmup_attempt a id none p = (p, false)
  warmup_attempt a id (some out) p =
      let p' = (check_node fl w.env out w.latest now "warmup" a id p).0 in
      (p', not (is_failed p' id))

  -- The attempts from the i-th on; `left` counts them, `successes` those that succeeded.
  unfoldable pub warmup_loop : ℕ → ℕ → ℕ → String → String → Server F → Server F × ℕ
  unfolding warmup_attempt
  warmup_loop zero i successes a id p = (p, successes)
  warmup_loop (suc left) i successes a id p =
      let (p', ok) = warmup_attempt a id (w.attempt id i) p in
      warmup_loop left (suc i) (if ok then suc successes else successes) a id p'

  unfoldable pub warmup_with : String → Option (String × Account) → Server F → Server F × ℕ
  unfolding warmup_loop
  warmup_with id none p = (p, 0)
  warmup_with id (some (a, acc)) p = warmup_loop (warmup_attempts p.warmup_config) 0 0 a id p

  -- The state behind the warmup and the number of successes; without an account there are none.
  unfoldable pub warmup_node : String → Node → Server F → Server F × ℕ
  unfolding warmup_with
  warmup_node id n p = warmup_with id (warmup_account p id n) p

-- `isNodeWarmedUp`
abbrev pub is_warmed_up : ℕ → WarmupConfig → Bool
is_warmed_up successes cfg = leb_ℤ cfg.required_success (pos successes)
