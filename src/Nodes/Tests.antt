-- ===== src/Nodes/Tests.antt =====
-- The theorems about changes of nodes at concrete inputs.
use qcc_plus.Prelude.{
  String, ◌≡◌, ◌≢◌, refl, false, some, none, arith, lookup, contains, [], ◌∷◌, eq_iff,
}
use qcc_plus.Floats.{Fraction, fractions}
use qcc_plus.Server.Defs.{Account, Server, account_of}
use qcc_plus.Examples.{server, world, acc, one, two}
use qcc_plus.Select.Activate.{chosen, reselect}
use qcc_plus.Nodes.Manage.{delete_from_server}
use qcc_plus.Nodes.Toggle.{disabled_node}
use qcc_plus.Nodes.Effects.{delete_from_server-gone, reselect-enabled}

nonempty : ◌≢◌ {A = String} "n-1" ""
nonempty = ground (arith, eq_iff "n-1" "")

one_there : lookup "n-1" server.node_index ≡ some one
unfolding lookup
one_there = refl

one_owned : account_of server "n-1" ≡ some ("acc", acc)
unfolding lookup
one_owned = refl

delete_from_server-gone_example :
    (lookup "n-1" (delete_from_server none "n-1" server).0.node_index ≡ none)
    × (lookup "n-1" (delete_from_server none "n-1" server).0.node_account ≡ none)
    × ((acc' : Account) × (lookup "acc" (delete_from_server none "n-1" server).0.account_by_id
          ≡ some acc')
        × (contains "n-1" acc'.nodes ≡ false)
        × (contains "n-1" acc'.failed_set ≡ false)
        × (acc'.active_id ≢ "n-1"))
delete_from_server-gone_example =
    delete_from_server-gone none "n-1" "acc" one acc server nonempty one_there one_owned

abbrev two_off : Server Fraction
two_off = record server { node_index = ("n-1", one) ∷ ("n-2", disabled_node two) ∷ [] }

acc_there : lookup "acc" two_off.account_by_id ≡ some acc
unfolding lookup
acc_there = refl

two_there : lookup "n-2" two_off.node_index ≡ some (disabled_node two)
unfolding lookup
two_there = refl

reselect-enabled_example : (reselect fractions world 100 "acc" two_off).1 ≢ chosen "n-2"
reselect-enabled_example =
    reselect-enabled fractions world 100 "acc" two_off acc "n-2" (disabled_node two) acc_there
      two_there refl
