-- ===== src/Server/Keys.antt =====
-- Which account a key gives access to: internal/proxy/account_manager.go and server.go.
use qcc_plus.Prelude.{
  ◌≡◌, ◌≢◌, refl, sym, ◌∙◌, ap, inl, inr, ◌⊎◌, String, Bool, true, false, Option, none, some, [],
  arith, subst, str_eq, str_eq-ne, if◌then◌else◌, lookup, insert, lookup-insert, lookup-insert_self,
  eq_iff,
}
use qcc_plus.Server.Defs.{
  Server, Effect, create_account_row, update_config, to_store, emit, Account, default_account_id,
}
use qcc_plus.Server.Accounts.{
  AccountError, store_refused, key_exists, unless_taken, name_required, key_required, new_account,
  get_config, get_account_by_proxy_key, attach_nodes, register_account, create_stored,
  create_account,
}

module _ {F : Type 0} where
  -- Every key leads to an account, and to one whose key it is.
  pub record IsOwned (p : Server F) : Type 0 where
    pub owned :
        (key a : String)
        → lookup key p.accounts ≡ some a
        → (acc : Account) × (lookup a p.account_by_id ≡ some acc) × (acc.proxy_api_key ≡ key)

  -- The account written under its id and its key.
  abbrev entered : Account → Server F → Server F
  entered acc p = record p {
    account_by_id = insert acc.id acc p.account_by_id;
    accounts = insert acc.proxy_api_key acc.id p.accounts;
  }

  register_account-entered :
      (acc : Account) (p : Server F)
      → str_eq acc.id default_account_id ≡ false
      → str_eq acc.proxy_api_key "" ≡ false
      → register_account acc [] p ≡ entered acc p
  unfolding register_account attach_nodes
  register_account-entered acc p other keyed = ground (arith, other, keyed)

  entered-IsOwned :
      (acc : Account) (p : Server F)
      → lookup acc.id p.account_by_id ≡ none
      → IsOwned p
      → IsOwned (entered acc p)
  entered-IsOwned acc p fresh h = record {
    owned = λ key a e. by_key key a (str_eq acc.proxy_api_key key) refl e;
  }
    where
      elsewhere :
          (a : String) (other : Account)
          → lookup a p.account_by_id ≡ some other
          → (q : Bool) → str_eq acc.id a ≡ q
          → q ≡ false
      elsewhere a other there true same = absurd (
          cc (
            sym fresh
            ∙ ap (λ (b : String). lookup b p.account_by_id) ((eq_iff acc.id a).0 same)
            ∙ there))
      elsewhere a other there false differ = refl

      by_key :
          (key a : String) (q : Bool)
          → str_eq acc.proxy_api_key key ≡ q
          → lookup key (insert acc.proxy_api_key acc.id p.accounts) ≡ some a
          → (owner : Account) × (lookup a (insert acc.id acc p.account_by_id) ≡ some owner)
            × (owner.proxy_api_key ≡ key)
      by_key key a true same e =
          let there : acc.id ≡ a =
            ground (arith, lookup-insert acc.proxy_api_key key acc.id p.accounts, same, e) in
          (
            acc,
            ap (λ (b : String). lookup b (insert acc.id acc p.account_by_id)) (sym there)
                ∙ lookup-insert_self acc.id acc p.account_by_id,
            (eq_iff acc.proxy_api_key key).0 same,
          )
      by_key key a false differ e =
          let before : lookup key p.accounts ≡ some a =
            ground (arith, lookup-insert acc.proxy_api_key key acc.id p.accounts, differ, e) in
          let (owner, there, own) = h.owned key a before in
          (
            owner,
            ground (
              arith,
              lookup-insert acc.id a acc p.account_by_id,
              elsewhere a owner there (str_eq acc.id a) refl,
              there,
            ),
            own,
          )

  entered-found :
      (acc : Account) (p : Server F)
      → str_eq acc.proxy_api_key "" ≡ false
      → get_account_by_proxy_key acc.proxy_api_key (entered acc p) ≡ some (acc.id, acc)
  unfolding get_account_by_proxy_key
  entered-found acc p keyed = ground (
    arith,
    keyed,
    lookup-insert_self acc.proxy_api_key acc.id p.accounts,
    lookup-insert_self acc.id acc p.account_by_id,
  )

  -- Whoever had a key keeps it.
  abbrev pub KeepsKeys : Server F → Server F → Type 0
  KeepsKeys p p' =
      (key : String) (owner : String × Account)
      → get_account_by_proxy_key key p ≡ some owner
      → get_account_by_proxy_key key p' ≡ some owner

  get_account_by_proxy_key-found :
      (key a : String) (old : Account) (p : Server F)
      → get_account_by_proxy_key key p ≡ some (a, old)
      → (str_eq key "" ≡ false)
        × (lookup key p.accounts ≡ some a)
        × (lookup a p.account_by_id ≡ some old)
  unfolding get_account_by_proxy_key
  get_account_by_proxy_key-found key a old p found =
      (ground (arith, found), ground (arith, found), ground (arith, found))

  entered-KeepsKeys :
      (acc : Account) (p : Server F)
      → lookup acc.id p.account_by_id ≡ none
      → str_eq acc.proxy_api_key "" ≡ false
      → get_account_by_proxy_key acc.proxy_api_key p ≡ none
      → KeepsKeys p (entered acc p)
  unfolding get_account_by_proxy_key
  entered-KeepsKeys acc p fresh keyed free key (a, old) found =
      let (full, at_key, at_id) = get_account_by_proxy_key-found key a old p found in
      let other_key : str_eq acc.proxy_api_key key ≡ false =
        str_eq-ne acc.proxy_api_key key (λ same.
          cc (sym free ∙ ap (λ (k : String). get_account_by_proxy_key k p) same ∙ found)) in
      let other_id : str_eq acc.id a ≡ false =
        str_eq-ne acc.id a
          (λ same. cc (sym fresh ∙ ap (λ (k : String). lookup k p.account_by_id) same ∙ at_id)) in
      ground (
        arith,
        full,
        lookup-insert acc.proxy_api_key key acc.id p.accounts,
        other_key,
        at_key,
        lookup-insert acc.id a acc p.account_by_id,
        other_id,
        at_id,
      )

  -- Why an account of this name and key is refused, by the error; `o` is what the store answers.
  abbrev pub Refused : String → String → Option String → Server F → AccountError → Type 0
  Refused name key o p name_required = str_eq name "" ≡ true
  Refused name key o p key_required = str_eq key "" ≡ true
  Refused name key o p key_exists =
      (owner : String × Account) × (get_account_by_proxy_key key p ≡ some owner)
  Refused name key o p (store_refused e) = (p.has_store ≡ true) × (o ≡ some e)
  Refused name key o p _ = ⊥

  -- What a creation of an account of this name and key returns, by its result.
  abbrev pub IsCreated :
      String → String → Option String → Server F → Server F × (AccountError ⊎ Account) → Type 0
  IsCreated name key o p (p', inl e) = (p' ≡ p) × Refused name key o p e
  IsCreated name key o p (p', inr acc) =
      IsOwned p'
      × (acc.name ≡ name)
      × (acc.proxy_api_key ≡ key)
      × (get_account_by_proxy_key key p ≡ none)
      × (get_account_by_proxy_key key p' ≡ some (acc.id, acc))
      × KeepsKeys p p'

  maps-IsOwned :
      (p p' : Server F)
      → p'.accounts ≡ p.accounts
      → p'.account_by_id ≡ p.account_by_id
      → IsOwned p
      → IsOwned p'
  maps-IsOwned p p' keys ids h = record {
    owned = λ key a e.
        let (acc, there, own) = h.owned key a (sym (ap (lookup key) keys) ∙ e) in
        (acc, ap (lookup a) ids ∙ there, own);
  }

  maps-found :
      (key : String) (p p' : Server F)
      → p'.accounts ≡ p.accounts
      → p'.account_by_id ≡ p.account_by_id
      → get_account_by_proxy_key key p' ≡ get_account_by_proxy_key key p
  unfolding get_account_by_proxy_key
  maps-found key p p' keys ids =
      ground (arith, ap (lookup key) keys, λ (a : String). ap (lookup a) ids)

  -- The account is registered in a state that has the maps of `q`.
  register_account-IsCreated :
      (o : Option String) (acc : Account) (p q : Server F)
      → p.accounts ≡ q.accounts
      → p.account_by_id ≡ q.account_by_id
      → lookup acc.id q.account_by_id ≡ none
      → str_eq acc.id default_account_id ≡ false
      → str_eq acc.proxy_api_key "" ≡ false
      → get_account_by_proxy_key acc.proxy_api_key q ≡ none
      → IsOwned q
      → IsCreated acc.name acc.proxy_api_key o q (register_account acc [] p, inr acc)
  register_account-IsCreated o acc p q keys ids fresh other keyed free h =
      let same = register_account-entered acc p other keyed in
      let unknown = ap (lookup acc.id) ids ∙ fresh in
      let unused = maps-found acc.proxy_api_key q p keys ids ∙ free in
      (
        subst IsOwned (sym same) (entered-IsOwned acc p unknown (maps-IsOwned q p keys ids h)),
        refl,
        refl,
        free,
        ap (get_account_by_proxy_key acc.proxy_api_key) same ∙ entered-found acc p keyed,
        λ key owner found.
            ap (get_account_by_proxy_key key) same
            ∙ entered-KeepsKeys acc p unknown keyed unused key owner
                (maps-found key q p keys ids ∙ found),
      )

  emitted_maps :
      (b : Bool) (e : Effect) (p : Server F)
      → ((emit b e p).accounts ≡ p.accounts) × ((emit b e p).account_by_id ≡ p.account_by_id)
  emitted_maps true e p = (refl, refl)
  emitted_maps false e p = (refl, refl)

  create_stored-IsCreated :
      (o : Option String) (acc : Account) (p : Server F)
      → lookup acc.id p.account_by_id ≡ none
      → str_eq acc.id default_account_id ≡ false
      → str_eq acc.proxy_api_key "" ≡ false
      → get_account_by_proxy_key acc.proxy_api_key p ≡ none
      → IsOwned p
      → IsCreated acc.name acc.proxy_api_key o p (create_stored o acc p)
  unfolding create_stored
  create_stored-IsCreated (some e) acc p fresh other keyed free h = by_store p.has_store refl
    where
      by_store :
          (b : Bool)
          → p.has_store ≡ b
          → IsCreated acc.name acc.proxy_api_key
              (some e)
              p
              (if b then (p, inl (store_refused e)) else (register_account acc [] p, inr acc))
      by_store true there = (refl, (there, refl))
      by_store false gone =
          register_account-IsCreated (some e) acc p p refl refl fresh other keyed free h
  create_stored-IsCreated none acc p fresh other keyed free h =
      let p' = to_store (create_account_row acc) p in
      let p'' = to_store (update_config acc.id acc.config) p' in
      let maps = emitted_maps p.has_store (create_account_row acc) p in
      let maps' = emitted_maps p'.has_store (update_config acc.id acc.config) p' in
      register_account-IsCreated none acc p'' p (maps'.0 ∙ maps.0) (maps'.1 ∙ maps.1) fresh other
        keyed free h

  if-IsCreated :
      (name key : String) (o : Option String) (p : Server F) (b : Bool) (e : AccountError)
      (r : Server F × (AccountError ⊎ Account))
      → (b ≡ true → Refused name key o p e)
      → (b ≡ false → IsCreated name key o p r)
      → IsCreated name key o p (if b then (p, inl e) else r)
  if-IsCreated name key o p true e r why h = (refl, why refl)
  if-IsCreated name key o p false e r why h = h refl

  unless_taken-IsCreated :
      (name key : String) (o : Option String) (p : Server F) (found : Option (String × Account))
      (r : Server F × (AccountError ⊎ Account))
      → get_account_by_proxy_key key p ≡ found
      → (found ≡ none → IsCreated name key o p r)
      → IsCreated name key o p (unless_taken p found r)
  unfolding unless_taken
  unless_taken-IsCreated name key o p none r same h = h refl
  unless_taken-IsCreated name key o p (some other) r same h = (refl, (other, same))

  -- If every key leads to an account whose key it is, and the id that is made is new and not the
  -- default one, then the creation of an account fails only if the name or the key is blank, the key
  -- leads to an account already, or the store refuses it, and then changes nothing. Otherwise the key
  -- led to no account before; afterwards every key still leads to an account whose key it is, the new
  -- account has the name and the key that were asked for and is found by its key, and every account
  -- that was found by a key is found by it as before.
  pub create_account-IsCreated :
      (trim : String → String) (name proxy_key password : String) (is_admin : Bool) (id : String)
      (store_err : Option String) (p : Server F)
      → IsOwned p
      → lookup id p.account_by_id ≡ none
      → id ≢ default_account_id
      → IsCreated
          (trim name)
          (trim proxy_key)
          store_err
          p
          (create_account trim name proxy_key password is_admin id store_err p)
  unfolding create_account
  create_account-IsCreated trim name proxy_key password is_admin id store_err p h fresh other =
      let key = trim proxy_key in
      let acc = new_account id (trim name) key (trim password) is_admin (get_config p) in
      let stored = create_stored store_err acc p in
      let kept = unless_taken p (get_account_by_proxy_key key p) stored in
      if-IsCreated (trim name) key store_err p (str_eq (trim name) "") name_required
        (if str_eq key "" then (p, inl key_required) else kept) (λ blank. blank)
        (λ named.
          if-IsCreated (trim name) key store_err p (str_eq key "") key_required kept
            (λ blank. blank)
            (λ keyed.
              unless_taken-IsCreated (trim name) key store_err p (get_account_by_proxy_key key p)
                stored refl
                (λ free.
                  create_stored-IsCreated store_err acc p fresh
                    (str_eq-ne id default_account_id other) keyed free h)))
