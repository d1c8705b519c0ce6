-- ===== src/Settings/Table.antt =====
-- The table of settings and the statements on it: internal/store/mysql.go. A row is a setting whose
-- value is JSON text; the order of the rows is the order in which a statement without ORDER BY visits
-- them. `UNIQUE(scope, key, account_id)` takes two NULLs as different, as SQL does. JSON and the
-- functions on texts are parameters, and so are the failures of the database.
use qcc_plus.Prelude.{
  ℕ, suc, ◌==◌, ℤ, pos, eq_ℤ, ◌+ℤ◌, inl, inr, ◌⊎◌, String, Bool, true, false, not, ◌&&◌, Option,
  none, some, List, [], ◌∷◌, ◌++◌, countb, str_eq, if◌then◌else◌,
}

pub record Setting (V : Type 0) : Type 0 where
  pub id : ℕ
  pub key : String
  pub scope : String
  pub account_id : Option String
  pub value : V
  pub data_type : String
  pub category : String
  pub description : Option String
  pub is_secret : Bool
  pub version : ℤ
  pub updated_by : Option String
  pub updated_at : ℕ
  pub created_at : ℕ

pub record Table : Type 0 where
  pub rows : List (Setting String)
  pub next_id : ℕ
  pub is_sqlite : Bool

-- What the store calls: JSON and texts.
pub record Library (V : Type 0) : Type 0 where
  pub marshal : V → Option String
  pub unmarshal : String → Option V
  pub of_text : String → V
  pub nil : V
  pub to_lower : String → String
  pub trim_space : String → String

-- The failures of the database, by statement; those of a loop by its index.
pub record Faults : Type 0 where
  pub exec : ℕ → Option String
  pub exists : ℕ → Option String
  pub select : Option String
  pub begin : Option String
  pub commit : Option String

pub data StoreError : Type 0 where
  key_required : StoreError
  version_required : StoreError
  not_found : StoreError
  version_conflict : StoreError
  marshal_failed : StoreError
  db_failed : String → StoreError

-- `<=>` of MySQL, `IS` of SQLite.
abbrev pub null_safe_equal : Option String → Option String → Bool
null_safe_equal none none = true
null_safe_equal none (some b) = false
null_safe_equal (some a) none = false
null_safe_equal (some a) (some b) = str_eq a b

-- `=` of SQL, which NULL never satisfies.
abbrev pub sql_equal : Option String → Option String → Bool
sql_equal none b = false
sql_equal (some a) none = false
sql_equal (some a) (some b) = str_eq a b

-- An account that is empty stands for no account.
abbrev pub account_arg : String → Option String
account_arg a = if str_eq a "" then none else some a

abbrev pub account_arg_ptr : Option String → Option String
account_arg_ptr none = none
account_arg_ptr (some a) = account_arg a

abbrev pub null_or_string_ptr : Option String → Option String
null_or_string_ptr none = none
null_or_string_ptr (some s) = if str_eq s "" then none else some s

abbrev pub deref : Option String → String
deref none = ""
deref (some s) = s

abbrev pub or_default : String → String → String
or_default fallback s = if str_eq s "" then fallback else s

abbrev pub known_scope : String → String
known_scope s =
    if str_eq s "account" then "account" else if str_eq s "user" then "user" else "system"

module _ {V : Type 0} (lib : Library V) where
  unfoldable pub normalize_scope : String → String
  normalize_scope scope = known_scope (lib.to_lower scope)

  unfoldable pub normalize_setting : Setting V → Setting V
  unfolding normalize_scope
  normalize_setting s = record s {
    scope = normalize_scope s.scope;
    data_type = or_default "string" s.data_type;
    category = or_default "general" s.category;
  }

  -- The value of a row: nothing for an empty text, the text itself where it is no JSON.
  unfoldable pub scan_value : String → V
  scan_value raw =
      if str_eq raw ""
      then lib.nil
      else elim (lib.unmarshal raw) [ some v ↦ v | none ↦ lib.of_text raw ]

  unfoldable pub scan_setting : Setting String → Setting V
  unfolding scan_value
  scan_setting r = record {
    id = r.id;
    key = r.key;
    scope = r.scope;
    account_id = r.account_id;
    value = scan_value r.value;
    data_type = r.data_type;
    category = r.category;
    description = r.description;
    is_secret = r.is_secret;
    version = r.version;
    updated_by = r.updated_by;
    updated_at = r.updated_at;
    created_at = r.created_at;
  }

-- `key=? AND scope=? AND account_id` equal, NULL included.
unfoldable pub is_at : String → String → Option String → Setting String → Bool
is_at key scope account r =
    str_eq r.key key && (str_eq r.scope scope && null_safe_equal r.account_id account)

-- The same key in the sense of the unique index.
unfoldable pub is_duplicate : String → String → Option String → Setting String → Bool
is_duplicate key scope account r =
    str_eq r.key key && (str_eq r.scope scope && sql_equal r.account_id account)

-- The first row that `hit` takes, `LIMIT 1`.
unfoldable pub first_row : (Setting String → Bool) → List (Setting String) → Option (Setting String)
first_row hit [] = none
first_row hit (r ∷ rs) = if hit r then some r else first_row hit rs

unfoldable pub update_where :
    (Setting String → Bool)
    → (Setting String → Setting String)
    → List (Setting String)
    → List (Setting String)
update_where hit f [] = []
update_where hit f (r ∷ rs) = (if hit r then f r else r) ∷ update_where hit f rs

module _ {V : Type 0} where
  -- What an UPDATE and the update of an upsert write: the columns, and the version plus one. MySQL also
  -- moves `updated_at`.
  unfoldable pub written : Bool → ℕ → String → Setting V → Setting String → Setting String
  written is_sqlite now body s r = record r {
    value = body;
    data_type = s.data_type;
    category = s.category;
    description = null_or_string_ptr s.description;
    is_secret = s.is_secret;
    updated_by = null_or_string_ptr s.updated_by;
    version = r.version +ℤ pos 1;
    updated_at = if is_sqlite then r.updated_at else now;
  }

  unfoldable pub new_row : ℕ → ℕ → String → Setting V → Setting String
  new_row id now body s = record {
    id = id;
    key = s.key;
    scope = s.scope;
    account_id = account_arg_ptr s.account_id;
    value = body;
    data_type = s.data_type;
    category = s.category;
    description = null_or_string_ptr s.description;
    is_secret = s.is_secret;
    version = pos 1;
    updated_by = null_or_string_ptr s.updated_by;
    updated_at = now;
    created_at = now;
  }

  -- `INSERT ... ON CONFLICT DO UPDATE`
  unfoldable pub upsert_row : ℕ → String → Setting V → Table → Table
  upsert_row now body s t =
      let taken = is_duplicate s.key s.scope (account_arg_ptr s.account_id) in
      if countb taken t.rows == 0
      then (record t {
        rows = t.rows ++ (new_row t.next_id now body s ∷ []);
        next_id = suc t.next_id;
      })
      else record t { rows = update_where taken (written t.is_sqlite now body s) t.rows }

  -- The rows that an UPDATE with a version check changes.
  unfoldable pub is_current : Setting V → Setting String → Bool
  unfolding is_at
  is_current s r = is_at s.key s.scope (account_arg_ptr s.account_id) r && eq_ℤ r.version s.version

  unfoldable pub update_row : ℕ → String → Setting V → Table → Table
  update_row now body s t = record t {
    rows = update_where (is_current s) (written t.is_sqlite now body s) t.rows;
  }

  -- `settingExists`, asked after an UPDATE that changed nothing.
  unfoldable pub setting_exists : Setting V → Table → Bool
  setting_exists s t = not (countb (is_at s.key s.scope (account_arg_ptr s.account_id)) t.rows == 0)

  unfoldable pub why_unchanged : Option String → Setting V → Table → StoreError
  why_unchanged (some e) s t = db_failed e
  why_unchanged none s t = if setting_exists s t then version_conflict else not_found

  -- An UPDATE with its check of the rows that it changed, in a transaction or not.
  unfoldable pub checked_update :
      Option String → Option String → ℕ → String → Setting V → Table → StoreError ⊎ Table
  checked_update (some e) exists now body s t = inl (db_failed e)
  checked_update none exists now body s t =
      if countb (is_current s) t.rows == 0
      then inl (why_unchanged exists s t)
      else inr (update_row now body s t)

  unfoldable pub checked_upsert :
      Option String → ℕ → String → Setting V → Table → StoreError ⊎ Table
  checked_upsert (some e) now body s t = inl (db_failed e)
  checked_upsert none now body s t = inr (upsert_row now body s t)
