-- ===== src/Server/Tests.antt =====
-- The theorem about the creation of accounts at a concrete server.
use qcc_plus.Prelude.{◌≡◌, ◌≢◌, refl, String, false, none, some, arith, lookup, eq_iff}
use qcc_plus.Server.Defs.{Account, default_account_id}
use qcc_plus.Server.Accounts.{create_account}
use qcc_plus.Server.Keys.{IsOwned, IsCreated, create_account-IsCreated}
use qcc_plus.Examples.{server, acc}

server-IsOwned : IsOwned server
unfolding lookup
server-IsOwned = record { owned = λ key a e. owner key a e }
  where
    owner :
        (key a : String)
        → lookup key server.accounts ≡ some a
        → (o : Account) × (lookup a server.account_by_id ≡ some o) × (o.proxy_api_key ≡ key)
    owner key a e =
        (acc, ground (arith, eq_iff "key" key, eq_iff "acc" a), ground (arith, eq_iff "key" key))

unused : lookup "acc-2" server.account_by_id ≡ none
unfolding lookup
unused = refl

not_default : ◌≢◌ {A = String} "acc-2" default_account_id
not_default = ground (arith, eq_iff "acc-2" default_account_id)

create_account-IsCreated_example :
    IsCreated "second" "key-2" none server
      (create_account (λ s. s) "second" "key-2" "" false "acc-2" none server)
create_account-IsCreated_example =
    create_account-IsCreated (λ s. s) "second" "key-2" "" false "acc-2" none server server-IsOwned
      unused not_default
