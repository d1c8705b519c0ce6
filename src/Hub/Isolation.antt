-- ===== src/Hub/Isolation.antt =====
-- Whom a broadcast reaches, in every hub that can come about: internal/proxy/ws_hub.go.
use mathlib.Core.Option
use qcc_plus.Prelude.{
  ◌≡◌, ◌≢◌, refl, sym, ◌∙◌, ap, subst, String, Bool, true, false, Option, none, some, List, [], ◌∷◌,
  ◌++◌, arith, ltb, length, str_eq, str_eq_self, if◌then◌else◌, lookup, insert, lookup-insert,
  contains, eq_iff,
}
use qcc_plus.Hub.Defs.{
  WsClient, WsMessage, WsHub, new_ws_hub, clients_of, Delivery, delivered, waits_for_itself, panics,
  offer, offer_found, offer_all, broadcast_to_account, send_size, register_size, Step, connects,
  disconnects, publishes, writes, registers, unregisters, broadcasts,
}
use qcc_plus.Hub.Sound.{
  standing, standing_of, IsSound, SameStanding, SameStanding-refl, SameStanding-trans,
  SameStanding-IsSound, written-SameStanding, connects-IsSound,
}
use qcc_plus.Hub.Turns.{registers-IsSound, unregisters-IsSound}

-- The clients of other accounts are as they were, with what waits for them.
abbrev pub Untouched : String → WsHub → WsHub → Type 0
Untouched a h h' =
    (c : String) (k : WsClient)
    → lookup c h.pool ≡ some k
    → k.account_id ≢ a
    → lookup c h'.pool ≡ some k

-- A broadcast for an account: it does not send on a closed channel, and touches no other account.
abbrev pub Fair : String → WsHub → Delivery → Type 0
Fair a h (delivered h') = SameStanding h h' × Untouched a h h'
Fair a h waits_for_itself = Unit
Fair a h panics = ⊥

offer-Fair :
    (text c a : String) (k : WsClient) (h : WsHub)
    → lookup c h.pool ≡ some k
    → k.account_id ≡ a
    → k.closed ≡ false
    → Fair a h (offer text c k h)
unfolding offer
offer-Fair text c a k h there own open_client =
    by_closed k.closed (ltb (length k.send) send_size) (ltb (length h.unregister) register_size)
      open_client
  where
    taken : WsClient
    taken = record k { send = k.send ++ (text ∷ []) }

    apart :
        (d : String) (m : WsClient) (q : Bool)
        → lookup d h.pool ≡ some m
        → m.account_id ≢ a
        → str_eq c d ≡ q
        → q ≡ false
    apart d m true has differ same =
        let both : some k ≡ some m =
          sym there ∙ ap (λ (e : String). lookup e h.pool) ((eq_iff c d).0 same) ∙ has in
        let same_client : k ≡ m = cc both in
        absurd (differ (sym (ap (λ (x : WsClient). x.account_id) same_client) ∙ own))
    apart d m false has differ same = refl

    others : Untouched a h (record h { pool = insert c taken h.pool })
    others d m has differ =
        ground (arith, lookup-insert c d taken h.pool, apart d m (str_eq c d) has differ refl, has)

    by_closed :
        (q room space : Bool)
        → q ≡ false
        → Fair a h (
            if q
            then panics
            else if room
            then delivered (record h { pool = insert c taken h.pool })
            else if space
            then delivered (record h { unregister = h.unregister ++ (c ∷ []) })
            else waits_for_itself)
    by_closed true room space shut = absurd cc
    by_closed false true space shut = (written-SameStanding c k taken h there refl, others)
    by_closed false false true shut = (
      record { lists = refl; registers_kept = refl; standings = λ d. refl },
      λ d m has differ. has,
    )
    by_closed false false false shut = tt

-- The clients of a list are open clients of an account.
abbrev AreOf : String → List String → WsHub → Type 0
AreOf a cs h = (c : String) → contains c cs ≡ true → standing_of h c ≡ some (a, false)

offer_found-Fair :
    (text c a : String) (o : Option WsClient) (h : WsHub)
    → lookup c h.pool ≡ o
    → standing_of h c ≡ some (a, false)
    → Fair a h (offer_found text c o h)
unfolding offer_found
offer_found-Fair text c a none h gone known = absurd (cc (known, ap (Option.map standing) gone))
offer_found-Fair text c a (some k) h there known =
    let same : some (standing k) ≡ some (a, false) = sym (ap (Option.map standing) there) ∙ known in
    let pair : standing k ≡ (a, false) = cc same in
    offer-Fair text c a k h there (ap (λ (x : String × Bool). x.0) pair)
      (ap (λ (x : String × Bool). x.1) pair)

offer_all-Fair :
    (text a : String) (cs : List String) (h : WsHub) → AreOf a cs h → Fair a h (offer_all text cs h)
unfolding offer_all contains
offer_all-Fair text a [] h are = (SameStanding-refl h, λ c k has differ. has)
offer_all-Fair text a (c ∷ cs) h are =
    by_first (offer_found text c (lookup c h.pool) h)
      (offer_found-Fair text c a (lookup c h.pool) h refl (are c (ground (arith, str_eq_self c))))
      (λ h' same.
        offer_all-Fair text a cs h' (λ d inside. same.standings d ∙ are d (ground (arith, inside))))
  where
    by_rest : (h' : WsHub) → Fair a h (delivered h') → (r : Delivery) → Fair a h' r → Fair a h r
    by_rest h' fair (delivered h'') fair' = (
      SameStanding-trans h h' h'' fair.0 fair'.0,
      λ d m has differ. fair'.1 d m (fair.1 d m has differ) differ,
    )
    by_rest h' fair waits_for_itself fair' = tt
    by_rest h' fair panics fair' = fair'

    by_first :
        (r : Delivery)
        → Fair a h r
        → ((h' : WsHub) → SameStanding h h' → Fair a h' (offer_all text cs h'))
        → Fair a h (elim r [
          | delivered h' ↦ offer_all text cs h'
          | waits_for_itself ↦ waits_for_itself
          | panics ↦ panics
        ])
    by_first (delivered h') fair rest = by_rest h' fair (offer_all text cs h') (rest h' fair.0)
    by_first waits_for_itself fair rest = tt
    by_first panics fair rest = fair

broadcast_to_account-Fair :
    (m : WsMessage) (h : WsHub) → IsSound h → Fair m.account_id h (broadcast_to_account m h)
unfolding broadcast_to_account
broadcast_to_account-Fair m h s =
    offer_all-Fair m.text m.account_id (clients_of (lookup m.account_id h.clients)) h
      (λ c l. s.own m.account_id c l)

Step-IsSound : (h h' : WsHub) → Step h h' → IsSound h → IsSound h'
Step-IsSound h _ (connects c account fresh room) s = connects-IsSound c account h fresh s
Step-IsSound h h' (disconnects c room) s =
    SameStanding-IsSound h h'
      (record { lists = refl; registers_kept = refl; standings = λ d. refl }) s
Step-IsSound h h' (publishes m room) s =
    SameStanding-IsSound h h'
      (record { lists = refl; registers_kept = refl; standings = λ d. refl }) s
Step-IsSound h h' (writes c text rest k there waiting) s =
    SameStanding-IsSound h h' (written-SameStanding c k (record k { send = rest }) h there refl) s
Step-IsSound h _ (registers c rest was) s = registers-IsSound c rest h was s
Step-IsSound h _ (unregisters c rest was) s = unregisters-IsSound c rest h s
Step-IsSound h h' (broadcasts m rest _ was sent) s =
    let left : WsHub = record h { broadcast = rest } in
    let kept : SameStanding h left = record {
      lists = refl;
      registers_kept = refl;
      standings = λ d. refl;
    } in
    let s' = SameStanding-IsSound h left kept s in
    let fair : Fair m.account_id left (delivered h') =
      subst (Fair m.account_id left) sent (broadcast_to_account-Fair m left s') in
    SameStanding-IsSound left h' fair.0 s'

-- The hubs that steps lead to.
pub data Reach : WsHub → Type 0 where
  begins : Reach new_ws_hub
  goes_on : (h h' : WsHub) → Reach h → Step h h' → Reach h'

new_ws_hub-IsSound : IsSound new_ws_hub
unfolding lookup contains
new_ws_hub-IsSound = record {
  own = λ a c l. absurd cc;
  apart = λ a c l. refl;
  waiting = λ c w. absurd cc;
  once = tt;
}

Reach-IsSound : (h : WsHub) → Reach h → IsSound h
Reach-IsSound _ begins = new_ws_hub-IsSound
Reach-IsSound _ (goes_on h h' run step) = Step-IsSound h h' step (Reach-IsSound h run)

-- In whatever order clients connect, end and take messages, messages are published and the hub takes
-- its turns: a client is listed only under its own account, while it is open and not yet waiting, and
-- a broadcast never sends on a closed channel and leaves every client of another account as it was,
-- with its channel.
pub Reach-Fair :
    (h : WsHub) (m : WsMessage)
    → Reach h
    → IsSound h × Fair m.account_id h (broadcast_to_account m h)
Reach-Fair h m run = let s = Reach-IsSound h run in (s, broadcast_to_account-Fair m h s)
