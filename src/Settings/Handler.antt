-- ===== src/Settings/Handler.antt =====
-- The requests on settings: internal/proxy/settings_handler.go. The session's right, the query and the
-- decoded body are arguments; a body that is no JSON is `none`.
use qcc_plus.Prelude.{
  ℕ, ℤ, pos, eq_ℤ, inl, inr, ◌⊎◌, String, Bool, false, Option, none, some, List, [], ◌∷◌, map,
  str_eq, if◌then◌else◌,
}
use qcc_plus.Settings.Table.{
  Setting, Table, Library, Faults, StoreError, not_found, version_conflict, deref,
}
use qcc_plus.Settings.Store.{
  list_settings, get_setting, upsert_setting, update_setting, delete_setting, batch_update_settings,
  get_global_version,
}
use qcc_plus.Settings.Cache.{SettingsCache, update_local, refresh}

-- The handler's store and cache, each of which may be missing.
pub record Panel (V : Type 0) : Type 0 where
  pub store : Option Table
  pub cache : Option (SettingsCache V)

pub record UpdateRequest (V : Type 0) : Type 0 where
  pub value : V
  pub scope : String
  pub account_id : Option String
  pub data_type : String
  pub category : String
  pub description : Option String
  pub is_secret : Option Bool
  pub version : ℤ
  pub updated_by : Option String

pub data Reply (V : Type 0) : Type 0 where
  refused : ℕ → String → Reply V
  failed : StoreError → Reply V
  conflict : Option ℤ → Reply V
  shown : Setting V → ℤ → Reply V
  listed : List (Setting V) → ℤ → Reply V
  saved : ℤ → Reply V
  saved_all : ℤ → Reply V
  removed_key : String → Reply V
  at_version : ℤ → Reply V

abbrev version_or_zero : StoreError ⊎ ℤ → ℤ
version_or_zero (inl e) = pos 0
version_or_zero (inr v) = v

unfoldable pub read_version : Faults → Option Table → ℤ
unfolding get_global_version
read_version db none = pos 0
read_version db (some t) = version_or_zero (get_global_version db t)

abbrev pub scope_or_system : String → String
scope_or_system scope = if str_eq scope "" then "system" else scope

abbrev pub bool_or : Bool → Option Bool → Bool
bool_or b none = b
bool_or b (some b') = b'

abbrev pub description_or : Option String → Option String → Option String
description_or old none = old
description_or old (some d) = some d

module _ {V : Type 0} where
  abbrev pub status : Reply V → ℕ
  status (refused code why) = code
  status (failed e) = 500
  status (conflict v) = 409
  status _ = 200

  abbrev pub forbidden : Reply V
  forbidden = refused 403 "forbidden"

  abbrev pub not_enabled : Reply V
  not_enabled = refused 500 "settings store not enabled"

  abbrev pub no_such : Reply V
  no_such = refused 404 "not found"

  -- The value of a secret setting does not leave the server.
  unfoldable pub masked : Library V → Setting V → Setting V
  masked lib s = if s.is_secret then record s { value = lib.of_text "******" } else s

  unfoldable pub tell_cache : String → V → ℤ → Option (SettingsCache V) → Option (SettingsCache V)
  unfolding update_local
  tell_cache key value version none = none
  tell_cache key value version (some c) = some (update_local key value version c)

  abbrev pub created_setting : String → String → UpdateRequest V → Setting V
  created_setting key scope req = record {
    id = 0;
    key = key;
    scope = scope;
    account_id = req.account_id;
    value = req.value;
    data_type = req.data_type;
    category = req.category;
    description = req.description;
    is_secret = bool_or false req.is_secret;
    version = pos 0;
    updated_by = req.updated_by;
    updated_at = 0;
    created_at = 0;
  }

  -- A field that the request leaves out stays.
  abbrev pub merged_setting : String → String → UpdateRequest V → Setting V → Setting V
  merged_setting key scope req old = record {
    id = 0;
    key = key;
    scope = scope;
    account_id = req.account_id;
    value = req.value;
    data_type = if str_eq req.data_type "" then old.data_type else req.data_type;
    category = if str_eq req.category "" then old.category else req.category;
    description = description_or old.description req.description;
    is_secret = bool_or old.is_secret req.is_secret;
    version = req.version;
    updated_by = req.updated_by;
    updated_at = 0;
    created_at = 0;
  }

module _ {V : Type 0} (lib : Library V) where
  unfoldable pub list_reply : Faults → Option Table → StoreError ⊎ List (Setting V) → Reply V
  unfolding masked read_version
  list_reply db t (inl e) = failed e
  list_reply db t (inr ss) = listed (map (masked lib) ss) (read_version db t)

  unfoldable pub handle_list : Faults → Bool → String → String → String → Option Table → Reply V
  unfolding list_reply list_settings
  handle_list db admin scope category account none = if admin then not_enabled else forbidden
  handle_list db admin scope category account (some t) =
      if admin
      then list_reply db (some t) (list_settings lib db scope category account t)
      else forbidden

  unfoldable pub handle_version : Faults → Bool → Option Table → Reply V
  unfolding read_version
  handle_version db admin none = if admin then not_enabled else forbidden
  handle_version db admin (some t) =
      if admin then at_version (read_version db (some t)) else forbidden

  unfoldable pub get_reply : Faults → Option Table → StoreError ⊎ Setting V → Reply V
  unfolding masked read_version
  get_reply db t (inl not_found) = no_such
  get_reply db t (inl e) = failed e
  get_reply db t (inr s) = shown (masked lib s) (read_version db t)

  unfoldable pub handle_get : Faults → Bool → String → String → String → Option Table → Reply V
  unfolding get_reply get_setting
  handle_get db admin key scope account none = if admin then not_enabled else forbidden
  handle_get db admin key scope account (some t) =
      if admin then get_reply db (some t) (get_setting lib db key scope account t) else forbidden

  -- The reply to a write, and the cache after it. `current` is the version that was read before.
  unfoldable pub after_create :
      String → V → Option (SettingsCache V) → Table × (StoreError ⊎ Setting V) → Panel V × Reply V
  unfolding tell_cache
  after_create key value c (t, inl e) = (record { store = some t; cache = c }, failed e)
  after_create key value c (t, inr s) =
      (record { store = some t; cache = tell_cache key value s.version c }, saved s.version)

  unfoldable pub after_change :
      String
      → V
      → ℤ
      → Option (SettingsCache V)
      → Table × (StoreError ⊎ Setting V)
      → Panel V × Reply V
  unfolding tell_cache
  after_change key value current c (t, inl version_conflict) =
      (record { store = some t; cache = c }, conflict (some current))
  after_change key value current c (t, inl not_found) =
      (record { store = some t; cache = c }, no_such)
  after_change key value current c (t, inl e) = (record { store = some t; cache = c }, failed e)
  after_change key value current c (t, inr s) =
      (record { store = some t; cache = tell_cache key value s.version c }, saved s.version)

  unfoldable pub change_found :
      Faults
      → ℕ
      → String
      → String
      → UpdateRequest V
      → Setting V
      → Table
      → Option (SettingsCache V)
      → Panel V × Reply V
  unfolding after_change update_setting
  change_found db now key scope req old t c =
      let p : Panel V = record { store = some t; cache = c } in
      if eq_ℤ req.version (pos 0)
      then (p, refused 400 "version required")
      else if eq_ℤ req.version old.version
      then after_change key req.value old.version c
          (update_setting lib db now (merged_setting key scope req old) t)
      else (p, conflict (some old.version))

  unfoldable pub update_existing :
      Faults
      → ℕ
      → String
      → String
      → UpdateRequest V
      → StoreError ⊎ Setting V
      → Table
      → Option (SettingsCache V)
      → Panel V × Reply V
  unfolding after_create change_found upsert_setting
  update_existing db now key scope req (inl not_found) t c =
      after_create key req.value c (upsert_setting lib db now (created_setting key scope req) t)
  update_existing db now key scope req (inl e) t c =
      (record { store = some t; cache = c }, failed e)
  update_existing db now key scope req (inr old) t c = change_found db now key scope req old t c

  unfoldable pub update_decoded :
      Faults
      → Faults
      → ℕ
      → String
      → Option (UpdateRequest V)
      → Table
      → Option (SettingsCache V)
      → Panel V × Reply V
  unfolding update_existing get_setting
  update_decoded asked db now key none t c =
      (record { store = some t; cache = c }, refused 400 "invalid json")
  update_decoded asked db now key (some req) t c =
      let scope = scope_or_system req.scope in
      let old = get_setting lib asked key scope (deref req.account_id) t in
      update_existing db now key scope req old t c

  -- `UpdateSetting` of the handler; `asked` are the failures of its first query.
  unfoldable pub handle_update :
      Faults → Faults → ℕ → Bool → String → Option (UpdateRequest V) → Panel V → Panel V × Reply V
  unfolding update_decoded
  handle_update asked db now admin key req p =
      if admin
      then elim p.store [
        | none ↦ (p, not_enabled)
        | some t ↦ update_decoded asked db now key req t p.cache
      ]
      else (p, forbidden)

module _ {V : Type 0} (lib : Library V) (same : V → V → Bool) where
  -- The settings of a batch with their keys trimmed, or nothing if one of them has no key.
  unfoldable pub prepared : List (Setting V) → Option (List (Setting V))
  prepared [] = some []
  prepared (s ∷ ss) =
      let key = lib.trim_space s.key in
      let rest = prepared ss in
      if str_eq key "" then none else elim rest [
        | none ↦ none
        | some ss' ↦ some (record s { key = key; scope = scope_or_system s.scope } ∷ ss')
      ]

  abbrev refresh_if_any :
      Faults → Option Table → Option (SettingsCache V) → Option (SettingsCache V)
  refresh_if_any db t none = none
  refresh_if_any db t (some c) = some (refresh lib same db t c)

  unfoldable pub after_batch :
      Faults → Option (SettingsCache V) → Table × Option StoreError → Panel V × Reply V
  unfolding read_version
  after_batch db c (t, some version_conflict) =
      (record { store = some t; cache = c }, conflict none)
  after_batch db c (t, some not_found) = (record { store = some t; cache = c }, no_such)
  after_batch db c (t, some e) = (record { store = some t; cache = c }, failed e)
  after_batch db c (t, none) = (
    record { store = some t; cache = refresh_if_any db (some t) c },
    saved_all (read_version db (some t)),
  )

  unfoldable pub batch_decoded :
      Faults → ℕ → Option (List (Setting V)) → Table → Option (SettingsCache V) → Panel V × Reply V
  unfolding after_batch batch_update_settings
  batch_decoded db now none t c = (record { store = some t; cache = c }, refused 400 "key required")
  batch_decoded db now (some ss) t c = after_batch db c (batch_update_settings lib db now ss t)

  unfoldable pub batch_body :
      Faults → ℕ → Option (List (Setting V)) → Table → Option (SettingsCache V) → Panel V × Reply V
  unfolding batch_decoded prepared
  batch_body db now none t c = (record { store = some t; cache = c }, refused 400 "invalid json")
  batch_body db now (some ss) t c = batch_decoded db now (prepared ss) t c

  unfoldable pub handle_batch :
      Faults → ℕ → Bool → Option (List (Setting V)) → Panel V → Panel V × Reply V
  unfolding batch_body
  handle_batch db now admin ss p =
      if admin
      then elim p.store [ none ↦ (p, not_enabled) | some t ↦ batch_body db now ss t p.cache ]
      else (p, forbidden)

  unfoldable pub after_delete :
      Faults → String → Option (SettingsCache V) → Table × Option StoreError → Panel V × Reply V
  after_delete db key c (t, some not_found) = (record { store = some t; cache = c }, no_such)
  after_delete db key c (t, some e) = (record { store = some t; cache = c }, failed e)
  after_delete db key c (t, none) =
      (record { store = some t; cache = refresh_if_any db (some t) c }, removed_key key)

  unfoldable pub handle_delete :
      Faults → Bool → String → String → String → Panel V → Panel V × Reply V
  unfolding after_delete delete_setting
  handle_delete db admin key scope account p =
      if admin
      then elim p.store [
        | none ↦ (p, not_enabled)
        | some t ↦ after_delete db key p.cache (delete_setting lib db key scope account t)
      ]
      else (p, forbidden)

  -- `HandleSetting`, with the key that the path ends in.
  unfoldable pub handle_setting :
      Faults
      → Faults
      → ℕ
      → Bool
      → String
      → String
      → String
      → String
      → Option (UpdateRequest V)
      → Panel V
      → Panel V × Reply V
  unfolding handle_get handle_update handle_delete
  handle_setting asked db now admin method key scope account req p =
      if str_eq key ""
      then (p, refused 400 "key required")
      else if str_eq method "GET"
      then (p, handle_get lib db admin key scope account p.store)
      else if str_eq method "PUT"
      then handle_update lib asked db now admin key req p
      else if str_eq method "DELETE"
      then handle_delete db admin key scope account p
      else (p, refused 405 "")
