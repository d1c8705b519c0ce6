-- ===== src/Hub/Turns.antt =====
-- How the turns of the hub that register and unregister a client keep it sound: internal/proxy/ws_hub.go.
use mathlib.Core.Option
use qcc_plus.Prelude.{
  ◌≡◌, refl, sym, ◌∙◌, ap, subst, String, Bool, true, false, ◌||◌, ◌&&◌, ◌⊎◌, inl, inr, Bool-cases,
  Option, none, some, List, [], ◌∷◌, arith, str_eq, str_eq_self, if◌then◌else◌, lookup, insert,
  lookup-insert, lookup-erase, contains, add_key, remove_key, contains-add_key, contains-remove_key,
  eq_iff,
}
use qcc_plus.Hub.Defs.{
  WsClient, WsHub, clients_of, add_found, add_client, put_clients, close_client, remove_listed,
  remove_found, remove_client,
}
use qcc_plus.Hub.Sound.{
  standing, standing_of, listed, IsSound, Unrepeated, SameStanding, SameStanding-IsSound,
  standing-insert,
}

-- A client that is added to an account's set.
listed-insert :
    (c a b j : String) (m : List (String × List String))
    → contains j (clients_of (lookup b (insert a (add_key c (clients_of (lookup a m))) m)))
      ≡ ((str_eq a b && str_eq c j) || contains j (clients_of (lookup b m)))
listed-insert c a b j m =
    rw (lookup-insert a b (add_key c (clients_of (lookup a m))) m) (by_key (str_eq a b) refl)
  where
    by_key :
        (q : Bool)
        → str_eq a b ≡ q
        → contains j
            (clients_of (if q then some (add_key c (clients_of (lookup a m))) else lookup b m))
          ≡ ((q && str_eq c j) || contains j (clients_of (lookup b m)))
    by_key true same =
        contains-add_key c j (clients_of (lookup a m))
        ∙ ap (λ (d : String). str_eq c j || contains j (clients_of (lookup d m)))
            ((eq_iff a b).0 same)
    by_key false differ = refl

registers_found-IsSound :
    (c : String) (rest : List String) (h : WsHub) (o : Option WsClient)
    → h.register ≡ c ∷ rest
    → lookup c h.pool ≡ o
    → IsSound h
    → IsSound (add_found c o (record h { register = rest }))
unfolding add_found contains
registers_found-IsSound c rest h none was gone s =
    let (a, there) = s.waiting c (ap (contains c) was ∙ ground (arith, str_eq_self c)) in
    absurd (cc (there, ap (Option.map standing) gone))
registers_found-IsSound c rest h (some k) was there s = record {
  own = λ b j l. owned b j l (Bool-cases (listed h b j));
  apart = λ b j l. out b j l (Bool-cases (listed h b j));
  waiting = λ j w. s.waiting j (ap (contains j) was ∙ ground (arith, w));
  once = alone.1;
}
  where
    alone : Unrepeated (c ∷ rest)
    alone = subst Unrepeated was s.once

    open_client : standing_of h c ≡ some (k.account_id, false)
    open_client =
        let (a, known) = s.waiting c (ap (contains c) was ∙ ground (arith, str_eq_self c)) in
        let same : some (standing k) ≡ some (a, false) =
          sym (ap (Option.map standing) there) ∙ known in
        cc (known, same)

    new_one :
        (b j : String)
        → contains j (
            clients_of (
              lookup b (
                insert k.account_id
                  (add_key c (clients_of (lookup k.account_id h.clients)))
                  h.clients)))
          ≡ true
        → listed h b j ≡ false
        → (k.account_id ≡ b) × (c ≡ j)
    new_one b j l fresh =
        let both : (str_eq k.account_id b && str_eq c j) ≡ true =
          ground (arith, listed-insert c k.account_id b j h.clients, l, fresh) in
        ((eq_iff k.account_id b).0 (ground (arith, both)), (eq_iff c j).0 (ground (arith, both)))

    owned :
        (b j : String)
        → contains j (
            clients_of (
              lookup b (
                insert k.account_id
                  (add_key c (clients_of (lookup k.account_id h.clients)))
                  h.clients)))
          ≡ true
        → (listed h b j ≡ true) ⊎ (listed h b j ≡ false)
        → standing_of h j ≡ some (b, false)
    owned b j l (inl old) = s.own b j old
    owned b j l (inr fresh) =
        let (own_account, own_key) = new_one b j l fresh in
        sym (ap (standing_of h) own_key)
        ∙ open_client
        ∙ ap (λ (d : String). some (d, false)) own_account

    out :
        (b j : String)
        → contains j (
            clients_of (
              lookup b (
                insert k.account_id
                  (add_key c (clients_of (lookup k.account_id h.clients)))
                  h.clients)))
          ≡ true
        → (listed h b j ≡ true) ⊎ (listed h b j ≡ false)
        → contains j rest ≡ false
    out b j l (inl old) =
        let before : contains j (c ∷ rest) ≡ false = sym (ap (contains j) was) ∙ s.apart b j old in
        ground (arith, before)
    out b j l (inr fresh) =
        let (own_account, own_key) = new_one b j l fresh in
        sym (ap (λ (d : String). contains d rest) own_key) ∙ alone.0

pub registers-IsSound :
    (c : String) (rest : List String) (h : WsHub)
    → h.register ≡ c ∷ rest
    → IsSound h
    → IsSound (add_client c (record h { register = rest }))
unfolding add_client
registers-IsSound c rest h was s = registers_found-IsSound c rest h (lookup c h.pool) was refl s

-- The clients of an account after one of them is taken out.
listed-put_clients :
    (a b : String) (left : List String) (m : List (String × List String))
    → clients_of (lookup b (put_clients a left m))
      ≡ (if str_eq a b then left else clients_of (lookup b m))
listed-put_clients a b [] m = rw (lookup-erase a b m) (ground arith)
listed-put_clients a b (c ∷ left) m = rw (lookup-insert a b (c ∷ left) m) (ground arith)

closes-IsSound :
    (c : String) (rest set : List String) (k : WsClient) (h : WsHub)
    → lookup c h.pool ≡ some k
    → lookup k.account_id h.clients ≡ some set
    → contains c set ≡ true
    → IsSound h
    → IsSound (close_client c k set (record h { unregister = rest }))
unfolding close_client
closes-IsSound c rest set k h there has inside s = record {
  own = λ b j l.
      let (old, differ) = left b j l in
      ground (arith, standing-insert c j shut h.pool, differ, s.own b j old);
  apart = λ b j l. s.apart b j (left b j l).0;
  waiting = λ j w.
      let (a, open_client) = s.waiting j w in
      (
        a,
        ground (
          arith,
          standing-insert c j shut h.pool,
          waits_apart j w (str_eq c j) refl,
          open_client,
        ),
      );
  once = s.once;
}
  where
    shut : WsClient
    shut = record k { closed = true }

    inside_own : listed h k.account_id c ≡ true
    inside_own = ap (λ (o : Option (List String)). contains c (clients_of o)) has ∙ inside

    waits_apart :
        (j : String) → contains j h.register ≡ true → (q : Bool) → str_eq c j ≡ q → q ≡ false
    waits_apart j w true same =
        let gone =
          ap (λ (d : String). contains d h.register) (sym ((eq_iff c j).0 same))
          ∙ s.apart k.account_id c inside_own in
        absurd (cc (gone, w))
    waits_apart j w false differ = refl

    other :
        (b j : String) (q : Bool)
        → str_eq k.account_id b ≡ false
        → str_eq c j ≡ q
        → listed h b j ≡ true
        → q ≡ false
    other b j true differ same l =
        let own_b : standing_of h c ≡ some (b, false) =
          ap (standing_of h) ((eq_iff c j).0 same) ∙ s.own b j l in
        let known : some (standing k) ≡ some (b, false) =
          sym (ap (Option.map standing) there) ∙ own_b in
        let same_account : k.account_id ≡ b = cc known in
        ground (arith, eq_iff k.account_id b, same_account, differ)
    other b j false differ apart l = refl

    by_account :
        (b j : String) (q : Bool)
        → str_eq k.account_id b ≡ q
        → contains j (if q then remove_key c set else clients_of (lookup b h.clients)) ≡ true
        → (listed h b j ≡ true) × (str_eq c j ≡ false)
    by_account b j true same l =
        let removed = contains-remove_key c j set in
        let here : listed h b j ≡ contains j set =
          ap (λ (d : String). listed h d j) (sym ((eq_iff k.account_id b).0 same))
          ∙ ap (λ (o : Option (List String)). contains j (clients_of o)) has in
        (ground (arith, removed, here, l), ground (arith, removed, l))
    by_account b j false differ l = (l, other b j (str_eq c j) differ refl l)

    left :
        (b j : String)
        → contains j (clients_of (lookup b (put_clients k.account_id (remove_key c set) h.clients)))
          ≡ true
        → (listed h b j ≡ true) × (str_eq c j ≡ false)
    left b j l =
        by_account b j (str_eq k.account_id b) refl (
          sym (ap (contains j) (listed-put_clients k.account_id b (remove_key c set) h.clients))
          ∙ l)

pub unregisters-IsSound :
    (c : String) (rest : List String) (h : WsHub)
    → IsSound h
    → IsSound (remove_client c (record h { unregister = rest }))
unfolding remove_client remove_found remove_listed
unregisters-IsSound c rest h s = found (lookup c h.pool) refl
  where
    still : SameStanding h (record h { unregister = rest })
    still = record { lists = refl; registers_kept = refl; standings = λ j. refl }

    kept : IsSound (record h { unregister = rest })
    kept = SameStanding-IsSound h (record h { unregister = rest }) still s

    in_set :
        (k : WsClient) (set : List String) (q : Bool)
        → lookup c h.pool ≡ some k
        → lookup k.account_id h.clients ≡ some set
        → contains c set ≡ q
        → IsSound (
            if q
            then close_client c k set (record h { unregister = rest })
            else record h { unregister = rest })
    in_set k set true there has inside = closes-IsSound c rest set k h there has inside s
    in_set k set false there has outside = kept

    of_account :
        (k : WsClient) (o : Option (List String))
        → lookup c h.pool ≡ some k
        → lookup k.account_id h.clients ≡ o
        → IsSound (remove_listed c k o (record h { unregister = rest }))
    of_account k none there has = kept
    of_account k (some set) there has = in_set k set (contains c set) there has refl

    found :
        (o : Option WsClient)
        → lookup c h.pool ≡ o
        → IsSound (remove_found c o (record h { unregister = rest }))
    found none gone = kept
    found (some k) there = of_account k (lookup k.account_id h.clients) there refl
