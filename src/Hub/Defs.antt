-- ===== src/Hub/Defs.antt =====
-- The hub of the dashboard's connections: internal/proxy/ws_hub.go and ws_client.go. A pointer to a
-- client is a key, the channels are lists, and a message is its account with its JSON text.
use qcc_plus.Prelude.{
  ℕ, ◌<◌, ◌≡◌, String, Bool, true, false, Option, none, some, List, [], ◌∷◌, ◌++◌, ltb, length,
  if◌then◌else◌, lookup, insert, erase, contains, add_key, remove_key,
}

pub record WsClient : Type 0 where
  pub account_id : String
  pub send : List String
  pub closed : Bool

pub record WsMessage : Type 0 where
  pub account_id : String
  pub text : String

-- `pool` holds all clients there ever were.
pub record WsHub : Type 0 where
  pub clients : List (String × List String)
  pub pool : List (String × WsClient)
  pub register : List String
  pub unregister : List String
  pub broadcast : List WsMessage

abbrev pub new_ws_hub : WsHub
new_ws_hub = record { clients = []; pool = []; register = []; unregister = []; broadcast = [] }

-- The sizes of the channels.
abbrev pub register_size : ℕ
register_size = 10

abbrev pub broadcast_size : ℕ
broadcast_size = 256

abbrev pub send_size : ℕ
send_size = 256

-- The clients of an account, none where the map has none.
abbrev pub clients_of : Option (List String) → List String
clients_of none = []
clients_of (some s) = s

unfoldable pub add_found : String → Option WsClient → WsHub → WsHub
add_found c none h = h
add_found c (some k) h = record h {
  clients = insert k.account_id (add_key c (clients_of (lookup k.account_id h.clients))) h.clients;
}

unfoldable pub add_client : String → WsHub → WsHub
unfolding add_found
add_client c h = add_found c (lookup c h.pool) h

-- An account without clients leaves the map.
abbrev pub put_clients :
    String → List String → List (String × List String) → List (String × List String)
put_clients a [] m = erase a m
put_clients a (c ∷ s) m = insert a (c ∷ s) m

unfoldable pub close_client : String → WsClient → List String → WsHub → WsHub
close_client c k s h = record h {
  clients = put_clients k.account_id (remove_key c s) h.clients;
  pool = insert c (record k { closed = true }) h.pool;
}

unfoldable pub remove_listed : String → WsClient → Option (List String) → WsHub → WsHub
unfolding close_client
remove_listed c k none h = h
remove_listed c k (some s) h = if contains c s then close_client c k s h else h

unfoldable pub remove_found : String → Option WsClient → WsHub → WsHub
unfolding remove_listed
remove_found c none h = h
remove_found c (some k) h = remove_listed c k (lookup k.account_id h.clients) h

unfoldable pub remove_client : String → WsHub → WsHub
unfolding remove_found
remove_client c h = remove_found c (lookup c h.pool) h

-- The loop of a broadcast goes on, waits for room in the channel that only its own goroutine reads, or
-- sends on a closed channel, which panics.
pub data Delivery : Type 0 where
  delivered : WsHub → Delivery
  waits_for_itself : Delivery
  panics : Delivery

-- One client: its channel takes the text, or it is full and the client is to be unregistered.
unfoldable pub offer : String → String → WsClient → WsHub → Delivery
offer text c k h =
    if k.closed
    then panics
    else if ltb (length k.send) send_size
    then delivered (record h { pool = insert c (record k { send = k.send ++ (text ∷ []) }) h.pool })
    else if ltb (length h.unregister) register_size
    then delivered (record h { unregister = h.unregister ++ (c ∷ []) })
    else waits_for_itself

unfoldable pub offer_found : String → String → Option WsClient → WsHub → Delivery
unfolding offer
offer_found text c none h = delivered h
offer_found text c (some k) h = offer text c k h

unfoldable pub offer_all : String → List String → WsHub → Delivery
unfolding offer_found
offer_all text [] h = delivered h
offer_all text (c ∷ cs) h = elim (offer_found text c (lookup c h.pool) h) [
  | delivered h' ↦ offer_all text cs h'
  | waits_for_itself ↦ waits_for_itself
  | panics ↦ panics
]

unfoldable pub broadcast_to_account : WsMessage → WsHub → Delivery
unfolding offer_all
broadcast_to_account m h = offer_all m.text (clients_of (lookup m.account_id h.clients)) h

abbrev pub new_client : String → WsClient
new_client account = record { account_id = account; send = []; closed = false }

-- What can happen: a connection with its registration, an end of a connection, a message for an
-- account, a client that takes a message from its channel, and a turn of `Run`.
pub data Step (h : WsHub) : WsHub → Type 0 where
  connects :
      (c account : String)
      → lookup c h.pool ≡ none
      → length h.register < register_size
      → Step h (record h {
        pool = insert c (new_client account) h.pool;
        register = h.register ++ (c ∷ []);
      })
  disconnects :
      (c : String)
      → length h.unregister < register_size
      → Step h (record h { unregister = h.unregister ++ (c ∷ []) })
  publishes :
      (m : WsMessage)
      → length h.broadcast < broadcast_size
      → Step h (record h { broadcast = h.broadcast ++ (m ∷ []) })
  writes :
      (c text : String) (rest : List String) (k : WsClient)
      → lookup c h.pool ≡ some k
      → k.send ≡ text ∷ rest
      → Step h (record h { pool = insert c (record k { send = rest }) h.pool })
  registers :
      (c : String) (rest : List String)
      → h.register ≡ c ∷ rest
      → Step h (add_client c (record h { register = rest }))
  unregisters :
      (c : String) (rest : List String)
      → h.unregister ≡ c ∷ rest
      → Step h (remove_client c (record h { unregister = rest }))
  broadcasts :
      (m : WsMessage) (rest : List WsMessage) (h' : WsHub)
      → h.broadcast ≡ m ∷ rest
      → broadcast_to_account m (record h { broadcast = rest }) ≡ delivered h'
      → Step h h'
