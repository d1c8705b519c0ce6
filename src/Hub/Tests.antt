-- ===== src/Hub/Tests.antt =====
-- The theorem about the hub at a concrete run: a client connects and is registered.
use qcc_plus.Prelude.{refl, [], ◌∷◌, arith, insert, lookup, none, ◌≡◌}
use qcc_plus.Hub.Defs.{
  WsHub, WsMessage, new_ws_hub, new_client, add_client, broadcast_to_account, connects, registers,
}
use qcc_plus.Hub.Sound.{IsSound}
use qcc_plus.Hub.Isolation.{Fair, Reach, begins, goes_on, Reach-Fair}

abbrev waiting : WsHub
waiting = record new_ws_hub { pool = insert "c-1" (new_client "acc") []; register = "c-1" ∷ [] }

abbrev served : WsHub
served = add_client "c-1" (record waiting { register = [] })

nobody : lookup "c-1" new_ws_hub.pool ≡ none
unfolding lookup
nobody = refl

run : Reach served
run =
    goes_on waiting served
      (goes_on new_ws_hub waiting begins (connects "c-1" "acc" nobody (omega arith)))
      (registers "c-1" [] refl)

abbrev news : WsMessage
news = record { account_id = "acc"; text = "{}" }

Reach-Fair_example : IsSound served × Fair "acc" served (broadcast_to_account news served)
Reach-Fair_example = Reach-Fair served news run
