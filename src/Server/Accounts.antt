-- ===== src/Server/Accounts.antt =====
-- Accounts, their keys and the settings that are applied to all of them: internal/proxy/server.go,
-- account_manager.go and api_config.go. The id that `createAccount` makes from the clock and
-- `strings.TrimSpace` are arguments.
use qcc_plus.Prelude.{
  ℤ, pos, ltb_ℤ, leb_ℤ, eq_ℤ, inl, inr, ◌⊎◌, String, Bool, not, ◌&&◌, Option, none, some, List, [],
  ◌∷◌, str_eq, if◌then◌else◌, lookup, insert, map,
}
use qcc_plus.Server.Defs.{
  Server, Node, Account, Config, update_account, create_account_row, update_config,
  default_account_id, load_account, put_account, to_store,
}

pub data AccountError : Type 0 where
  name_required key_required key_exists : AccountError
  account_missing invalid_config : AccountError
  store_refused : String → AccountError

-- A limit that is 0 has a default.
abbrev pub or_if_zero : ℤ → ℤ → ℤ
or_if_zero fallback n = if eq_ℤ n (pos 0) then fallback else n

abbrev pub new_account : String → String → String → String → Bool → Config → Account
new_account id name key password is_admin cfg = record {
  id = id;
  name = name;
  password = password;
  proxy_api_key = key;
  is_admin = is_admin;
  nodes = [];
  active_id = "";
  config = cfg;
  failed_set = [];
}

-- The account in the store, then in memory; an error of the store ends it before.
abbrev pub store_error : Option String → Option AccountError
store_error none = none
store_error (some e) = some (store_refused e)

-- Three numbers that an administrator may set, in their bounds; durations are nanoseconds.
abbrev pub is_valid_config : Config → Bool
is_valid_config c =
    leb_ℤ (pos 1) c.retries
    && (leb_ℤ c.retries (pos 10)
        && (leb_ℤ (pos 1) c.fail_limit
            && (leb_ℤ c.fail_limit (pos 10)
                && (leb_ℤ (pos 5_000_000_000) c.health_every
                    && leb_ℤ c.health_every (pos 300_000_000_000)))))

module _ {F : Type 0} where
  unfoldable pub get_account_by_proxy_key : String → Server F → Option (String × Account)
  get_account_by_proxy_key key p =
      if str_eq key ""
      then none
      else elim (lookup key p.accounts) [ none ↦ none | some a ↦ load_account p a ]

  unfoldable pub get_account_by_id : String → Server F → Option (String × Account)
  get_account_by_id id p = if str_eq id "" then none else load_account p id

  unfoldable pub server_config : Server F → Config
  server_config p = record {
    retries = or_if_zero (pos 3) p.retries;
    fail_limit = or_if_zero (pos 3) p.fail_limit;
    health_every = or_if_zero (pos 30_000_000_000) p.health_every;
  }

  unfoldable pub config_of : Option Account → Server F → Config
  unfolding server_config
  config_of (some acc) p = acc.config
  config_of none p = server_config p

  -- The default account behind its pointer.
  abbrev pub default_of : Server F → Option Account
  default_of p = elim p.default_account [ none ↦ none | some a ↦ lookup a p.account_by_id ]

  unfoldable pub get_config : Server F → Config
  unfolding config_of
  get_config p = config_of (default_of p) p

  -- The default account takes the name that the server is configured with.
  unfoldable pub rename_default : Account → Server F → Server F
  rename_default acc p =
      if not (str_eq p.default_acc_name "") && not (str_eq acc.name p.default_acc_name)
      then to_store (update_account acc.id p.default_acc_name)
          (put_account acc.id (record acc { name = p.default_acc_name }) p)
      else p

  unfoldable pub register_default : Account → Server F → Server F
  unfolding rename_default
  register_default acc p = record (rename_default acc p) {
    default_account = some acc.id;
    transport_attempts =
        if ltb_ℤ (pos 0) acc.config.retries then acc.config.retries else p.transport_attempts;
    retries = acc.config.retries;
    fail_limit = acc.config.fail_limit;
    health_every = acc.config.health_every;
  }

  unfoldable pub attach_nodes : String → List Node → Server F → Server F
  attach_nodes a [] p = p
  attach_nodes a (n ∷ ns) p = attach_nodes a ns (record p {
    node_index = insert n.id (record n { account_id = a }) p.node_index;
    node_account = insert n.id a p.node_account;
  })

  abbrev pub with_key : Account → Server F → Server F
  with_key acc p =
      if str_eq acc.proxy_api_key ""
      then p
      else record p { accounts = insert acc.proxy_api_key acc.id p.accounts }

  unfoldable pub register_account : Account → List Node → Server F → Server F
  unfolding register_default attach_nodes
  register_account acc nodes p =
      let p' = with_key acc (put_account acc.id acc p) in
      let p'' = if str_eq acc.id default_account_id then register_default acc p' else p' in
      attach_nodes acc.id nodes p''

  unfoldable pub create_stored :
      Option String → Account → Server F → Server F × (AccountError ⊎ Account)
  unfolding register_account
  create_stored (some e) acc p =
      if p.has_store then (p, inl (store_refused e)) else (register_account acc [] p, inr acc)
  create_stored none acc p = (
    register_account acc []
        (to_store (update_config acc.id acc.config) (to_store (create_account_row acc) p)),
    inr acc,
  )

  -- A key that leads to an account already is refused.
  unfoldable pub unless_taken :
      Server F
      → Option (String × Account)
      → Server F × (AccountError ⊎ Account)
      → Server F × (AccountError ⊎ Account)
  unless_taken p none r = r
  unless_taken p (some other) r = (p, inl key_exists)

  unfoldable pub create_account :
      (String → String)
      → String
      → String
      → String
      → Bool
      → String
      → Option String
      → Server F
      → Server F × (AccountError ⊎ Account)
  unfolding create_stored get_account_by_proxy_key get_config unless_taken
  create_account trim name proxy_key password is_admin id store_err p =
      let key = trim proxy_key in
      if str_eq (trim name) ""
      then (p, inl name_required)
      else if str_eq key ""
      then (p, inl key_required)
      else unless_taken p (get_account_by_proxy_key key p) (
          create_stored store_err
            (new_account id (trim name) key (trim password) is_admin (get_config p)) p)

  abbrev pub each_account : (Config → Config) → Server F → Server F
  each_account f p = record p {
    account_by_id = map (λ e. (e.0, record e.1 { config = f e.1.config })) p.account_by_id;
  }

  unfoldable pub update_health_interval : ℤ → Server F → Server F
  update_health_interval interval p =
      if leb_ℤ interval (pos 0)
      then p
      else record (each_account (λ c. record c { health_every = interval }) p) {
        health_every = interval;
      }

  unfoldable pub update_retry_max : ℤ → Server F → Server F
  update_retry_max max p =
      if leb_ℤ max (pos 0) then p else record (each_account (λ c. record c { retries = max }) p) {
        retries = max;
        transport_attempts = max;
      }

  unfoldable pub update_fail_limit : ℤ → Server F → Server F
  update_fail_limit limit p =
      if leb_ℤ limit (pos 0)
      then p
      else record (each_account (λ c. record c { fail_limit = limit }) p) { fail_limit = limit }

  unfoldable pub write_config : Config → Account → Server F → Server F
  write_config cfg acc p =
      let p' = put_account acc.id (record acc { config = cfg }) p in
      to_store (update_config acc.id cfg) (
        if str_eq acc.id default_account_id
        then record p' {
          transport_attempts = cfg.retries;
          retries = cfg.retries;
          fail_limit = cfg.fail_limit;
          health_every = cfg.health_every;
        }
        else p')

  unfoldable pub update_config_for_account :
      Config → Option Account → Option String → Server F → Server F × Option AccountError
  unfolding write_config
  update_config_for_account cfg none store_err p = (p, some account_missing)
  update_config_for_account cfg (some acc) store_err p =
      if is_valid_config cfg
      then (write_config cfg acc p, if p.has_store then store_error store_err else none)
      else (p, some invalid_config)
