-- ===== src/Settings/Store.antt =====
-- The operations on the settings: internal/store/mysql.go. A setting that the store writes is returned
-- with its new version and times.
use qcc_plus.Prelude.{
  ℕ, suc, ℤ, pos, leb_ℤ, ltb_ℤ, inl, inr, ◌⊎◌, String, Bool, not, ◌&&◌, ◌||◌, ◌==◌, Option, none,
  some, List, [], ◌∷◌, map, countb, filterb, str_eq, ltb, if◌then◌else◌,
}
use qcc_plus.Settings.Table.{
  Setting, Table, Library, Faults, StoreError, key_required, version_required, not_found,
  marshal_failed, db_failed, sql_equal, account_arg, deref, normalize_scope, normalize_setting,
  scan_setting, is_at, first_row, checked_update, checked_upsert,
}

-- `ORDER BY updated_at DESC, id DESC`
abbrev pub comes_first : Setting String → Setting String → Bool
comes_first r r' = ltb r'.updated_at r.updated_at || r.updated_at == r'.updated_at && ltb r'.id r.id

unfoldable pub place : Setting String → List (Setting String) → List (Setting String)
place r [] = r ∷ []
place r (r' ∷ rs) = let rest = place r rs in if comes_first r' r then r' ∷ rest else r ∷ r' ∷ rs

unfoldable pub in_order : List (Setting String) → List (Setting String)
unfolding place
in_order [] = []
in_order (r ∷ rs) = place r (in_order rs)

-- An empty filter takes all rows.
abbrev pub is_listed : String → String → String → Setting String → Bool
is_listed scope category account r =
    (str_eq scope "" || str_eq r.scope scope)
    && ((str_eq category "" || str_eq r.category category)
        && (str_eq account "" || sql_equal r.account_id (some account)))

abbrev pub max_version : ℤ → ℤ → ℤ
max_version a b = if leb_ℤ a b then b else a

abbrev pub later_version : Option ℤ → ℤ → Option ℤ
later_version none v = some v
later_version (some m) v = some (max_version m v)

-- `MAX(version)`, which is NULL without rows.
unfoldable pub largest_version : Option ℤ → List (Setting String) → Option ℤ
largest_version m [] = m
largest_version m (r ∷ rs) = largest_version (later_version m r.version) rs

unfoldable pub get_global_version : Faults → Table → StoreError ⊎ ℤ
get_global_version db t = elim db.select [
  | some e ↦ inl (db_failed e)
  | none ↦ elim (largest_version none t.rows) [ none ↦ inr (pos 0) | some v ↦ inr v ]
]

unfoldable pub delete_rows :
    Option String → (Setting String → Bool) → Table → Table × Option StoreError
delete_rows (some e) hit t = (t, some (db_failed e))
delete_rows none hit t =
    if countb hit t.rows == 0
    then (t, some not_found)
    else (record t { rows = filterb (λ r. not (hit r)) t.rows }, none)

-- The commit, or the rollback, which leaves the table as it was.
unfoldable pub committed : Option String → Table → StoreError ⊎ Table → Table × Option StoreError
committed commit t (inl e) = (t, some e)
committed (some e) t (inr t') = (t, some (db_failed e))
committed none t (inr t') = (t', none)

module _ {V : Type 0} where
  -- The settings' version and times after a write, read back; a failure to read leaves them.
  unfoldable pub read_back : Setting V → StoreError ⊎ Setting V → Setting V
  read_back s (inl e) = s
  read_back s (inr u) = record s {
    version = u.version;
    updated_at = u.updated_at;
    created_at = u.created_at;
  }

  -- An UPSERT of a setting that is normalised, and an UPDATE with its version check; the body is its
  -- value as JSON.
  unfoldable pub upsert_body :
      Faults → ℕ → ℕ → Option String → Setting V → Table → StoreError ⊎ Table
  upsert_body db i now none s t = inl marshal_failed
  upsert_body db i now (some body) s t = checked_upsert (db.exec i) now body s t

  unfoldable pub update_body :
      Faults → ℕ → ℕ → Option String → Setting V → Table → StoreError ⊎ Table
  update_body db i now none s t = inl marshal_failed
  update_body db i now (some body) s t = checked_update (db.exec i) (db.exists i) now body s t

module _ {V : Type 0} (lib : Library V) where
  unfoldable pub list_settings :
      Faults → String → String → String → Table → StoreError ⊎ List (Setting V)
  unfolding in_order
  list_settings db scope category account t = elim db.select [
    | some e ↦ inl (db_failed e)
    | none ↦
        inr (map (scan_setting lib) (in_order (filterb (is_listed scope category account) t.rows)))
  ]

  unfoldable pub scanned : Option (Setting String) → StoreError ⊎ Setting V
  scanned none = inl not_found
  scanned (some r) = inr (scan_setting lib r)

  unfoldable pub get_setting : Faults → String → String → String → Table → StoreError ⊎ Setting V
  get_setting db key scope account t = if str_eq key "" then inl key_required else elim db.select [
    | some e ↦ inl (db_failed e)
    | none ↦
        scanned (first_row (is_at key (normalize_scope lib scope) (account_arg account)) t.rows)
  ]

  unfoldable pub refreshed : Faults → Setting V → Table → Setting V
  unfolding read_back get_setting
  refreshed db s t = read_back s (get_setting db s.key s.scope (deref s.account_id) t)

  -- The end of a write: its table, and the setting read back.
  unfoldable pub finish :
      Faults → Setting V → Table → StoreError ⊎ Table → Table × (StoreError ⊎ Setting V)
  finish db s t (inl e) = (t, inl e)
  finish db s t (inr t') = (t', inr (refreshed db s t'))

  unfoldable pub upsert_setting : Faults → ℕ → Setting V → Table → Table × (StoreError ⊎ Setting V)
  unfolding normalize_setting upsert_body finish
  upsert_setting db now s t =
      if str_eq s.key ""
      then (t, inl key_required)
      else let s' = normalize_setting lib s in
        finish db s' t (upsert_body db 0 now (lib.marshal s'.value) s' t)

  unfoldable pub update_setting : Faults → ℕ → Setting V → Table → Table × (StoreError ⊎ Setting V)
  unfolding normalize_setting update_body finish
  update_setting db now s t =
      if str_eq s.key ""
      then (t, inl key_required)
      else if leb_ℤ s.version (pos 0)
      then (t, inl version_required)
      else let s' = normalize_setting lib s in
        finish db s' t (update_body db 0 now (lib.marshal s'.value) s' t)

  unfoldable pub delete_setting :
      Faults → String → String → String → Table → Table × Option StoreError
  unfolding delete_rows
  delete_setting db key scope account t =
      if str_eq key ""
      then (t, some key_required)
      else delete_rows (db.exec 0) (is_at key (normalize_scope lib scope) (account_arg account)) t

  -- One setting of a batch: with a version it is an update, without one an upsert.
  unfoldable pub batch_one : Faults → ℕ → ℕ → Setting V → Table → StoreError ⊎ Table
  unfolding normalize_setting upsert_body update_body
  batch_one db i now s t =
      let s' = normalize_setting lib s in
      let body = lib.marshal s'.value in
      if ltb_ℤ (pos 0) s'.version
      then update_body db i now body s' t
      else upsert_body db i now body s' t

  -- The loop in the transaction, which ends at the first failure.
  unfoldable pub batch_loop : Faults → ℕ → ℕ → List (Setting V) → Table → StoreError ⊎ Table
  unfolding batch_one
  batch_loop db i now [] t = inr t
  batch_loop db i now (s ∷ ss) t = elim (batch_one db i now s t) [
    | inl e ↦ inl e
    | inr t' ↦ batch_loop db (suc i) now ss t'
  ]

  unfoldable pub in_transaction :
      Faults → ℕ → Option String → List (Setting V) → Table → Table × Option StoreError
  unfolding batch_loop committed
  in_transaction db now (some e) ss t = (t, some (db_failed e))
  in_transaction db now none ss t = committed db.commit t (batch_loop db 0 now ss t)

  unfoldable pub batch_update_settings :
      Faults → ℕ → List (Setting V) → Table → Table × Option StoreError
  unfolding in_transaction
  batch_update_settings db now [] t = (t, none)
  batch_update_settings db now (s ∷ ss) t = in_transaction db now db.begin (s ∷ ss) t
