-- ===== src/Settings/Cache.antt =====
-- The cache of the settings: internal/proxy/settings_cache.go. The callbacks are names, and the calls
-- of them are a list, the latest last; the lock makes each access one step.
use qcc_plus.Prelude.{
  ℕ, ℤ, pos, ltb_ℤ, ◌+ℤ◌, inl, inr, ◌⊎◌, String, Bool, true, false, not, Option, none, some, List,
  [], ◌∷◌, ◌++◌, map, if◌then◌else◌, lookup, insert,
}
use qcc_plus.Settings.Table.{Setting, Table, Library, Faults, StoreError}
use qcc_plus.Settings.Store.{list_settings, upsert_setting}

pub record CacheCall (V : Type 0) : Type 0 where
  pub callback : String
  pub about : String
  pub given : V

pub record SettingsCache (V : Type 0) : Type 0 where
  pub data_of : List (String × V)
  pub version : ℤ
  pub on_change : List String
  pub calls : List (CacheCall V)

abbrev pub max_int64 : ℤ → ℤ → ℤ
max_int64 a b = if ltb_ℤ b a then a else b

module _ {V : Type 0} where
  abbrev pub empty_cache : SettingsCache V
  empty_cache = record { data_of = []; version = pos 0; on_change = []; calls = [] }

  unfoldable pub get : String → SettingsCache V → Option V
  get key c = lookup key c.data_of

  unfoldable pub on_change_register : String → SettingsCache V → SettingsCache V
  on_change_register fn c = record c { on_change = c.on_change ++ (fn ∷ []) }

  abbrev pub call_of : String → V → String → CacheCall V
  call_of key value fn = record { callback = fn; about = key; given = value }

  unfoldable pub notify_change : String → V → SettingsCache V → SettingsCache V
  notify_change key value c = record c { calls = c.calls ++ map (call_of key value) c.on_change }

  unfoldable pub notify_all : List (String × V) → SettingsCache V → SettingsCache V
  unfolding notify_change
  notify_all [] c = c
  notify_all ((key, value) ∷ told) c = notify_all told (notify_change key value c)

  unfoldable pub update_local : String → V → ℤ → SettingsCache V → SettingsCache V
  unfolding notify_change
  update_local key value version c = notify_change key value (record c {
    data_of = insert key value c.data_of;
    version = if ltb_ℤ (pos 0) version then max_int64 c.version version else c.version;
  })

  -- The map that `reload` builds: the last of two settings with one key stays.
  unfoldable pub new_data : List (String × V) → List (Setting V) → List (String × V)
  new_data m [] = m
  new_data m (s ∷ ss) = new_data (insert s.key s.value m) ss

  unfoldable pub newest : ℤ → List (Setting V) → ℤ
  newest v [] = v
  newest v (s ∷ ss) = newest (if ltb_ℤ v s.version then s.version else v) ss

  -- Whether a value differs from what the cache held; `same` is `reflect.DeepEqual`.
  unfoldable pub differs : (V → V → Bool) → V → Option V → Bool
  differs same v none = true
  differs same v (some old) = not (same old v)

  unfoldable pub changed :
      (V → V → Bool) → List (String × V) → List (String × V) → List (String × V)
  unfolding differs
  changed same old [] = []
  changed same old ((k, v) ∷ m) =
      let rest = changed same old m in if differs same v (lookup k old) then (k, v) ∷ rest else rest

  -- The keys that are gone, told with the value nil.
  unfoldable pub removed : V → List (String × V) → List (String × V) → List (String × V)
  removed nil m [] = []
  removed nil m ((k, v) ∷ old) =
      let rest = removed nil m old in elim (lookup k m) [ none ↦ (k, nil) ∷ rest | some w ↦ rest ]

  -- `reload` with the settings that the store listed.
  unfoldable pub reload_listed :
      (V → V → Bool) → V → Bool → List (Setting V) → SettingsCache V → SettingsCache V
  unfolding new_data newest changed removed notify_all
  reload_listed same nil notify ss c =
      let m = new_data [] ss in
      let v = newest (pos 0) ss in
      let c' = record c { data_of = m; version = if ltb_ℤ (pos 0) v then v else c.version } in
      if notify
      then notify_all (removed nil m c.data_of) (notify_all (changed same c.data_of m) c')
      else c'

  unfoldable pub reload_result :
      (V → V → Bool) → V → Bool → StoreError ⊎ List (Setting V) → SettingsCache V → SettingsCache V
  unfolding reload_listed
  reload_result same nil notify (inl e) c = c
  reload_result same nil notify (inr ss) c = reload_listed same nil notify ss c

module _ {V : Type 0} (lib : Library V) (same : V → V → Bool) where
  unfoldable pub reload : Faults → Bool → Option Table → SettingsCache V → SettingsCache V
  unfolding reload_result list_settings
  reload db notify none c = c
  reload db notify (some t) c =
      reload_result same lib.nil notify (list_settings lib db "system" "" "" t) c

  unfoldable pub load_all : Faults → Option Table → SettingsCache V → SettingsCache V
  unfolding reload
  load_all db t c = reload db false t c

  unfoldable pub new_settings_cache : Faults → Option Table → SettingsCache V
  unfolding load_all
  new_settings_cache db t = load_all db t empty_cache

  unfoldable pub refresh : Faults → Option Table → SettingsCache V → SettingsCache V
  unfolding reload
  refresh db t c = reload db true t c

module _ {V : Type 0} (lib : Library V) where
  -- The setting that `Set` writes.
  abbrev pub system_setting : String → V → Setting V
  system_setting key value = record {
    id = 0;
    key = key;
    scope = "system";
    account_id = none;
    value = value;
    data_type = "";
    category = "";
    description = none;
    is_secret = false;
    version = pos 0;
    updated_by = none;
    updated_at = 0;
    created_at = 0;
  }

  unfoldable pub note_set :
      String → V → StoreError ⊎ Setting V → SettingsCache V → SettingsCache V × Option StoreError
  unfolding notify_change
  note_set key value (inl e) c = (c, some e)
  note_set key value (inr s) c = (
    notify_change key value (record c {
      data_of = insert key value c.data_of;
      version =
          if ltb_ℤ (pos 0) s.version then max_int64 c.version s.version else c.version +ℤ pos 1;
    }),
    none,
  )

  -- `Set`: the store first, and the cache only if the store has taken it.
  unfoldable pub set :
      Faults
      → ℕ
      → String
      → V
      → Option Table
      → SettingsCache V
      → Option Table × (SettingsCache V × Option StoreError)
  unfolding note_set upsert_setting
  set db now key value none c = (none, (c, none))
  set db now key value (some t) c =
      let (t', r) = upsert_setting lib db now (system_setting key value) t in
      (some t', note_set key value r c)
