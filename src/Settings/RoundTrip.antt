-- ===== src/Settings/RoundTrip.antt =====
-- What is read after a write: internal/store/mysql.go.
use qcc_plus.Prelude.{
  ℕ, ◌≡◌, ◌≢◌, refl, sym, ◌∙◌, ap, ℤ, pos, ◌+ℤ◌, inr, String, Bool, true, false, ◌&&◌, Option, none,
  some, [], ◌∷◌, ◌++◌, arith, str_eq, str_eq_self, eq_iff,
}
use qcc_plus.Settings.Table.{
  Setting, Table, Library, Faults, key_required, normalize_setting, checked_upsert, is_at,
  is_duplicate, written, new_row, upsert_row, first_row, null_safe_equal, sql_equal, account_arg,
  account_arg_ptr, update_where, scan_setting, normalize_scope,
}
use qcc_plus.Settings.Store.{get_setting, scanned, upsert_setting, upsert_body, finish}
use qcc_plus.Settings.Locking.{is_at-written, past_guard, finish-done}
use qcc_plus.Settings.Rows.{
  Row, update_where-same, countb-same, countb-first_row-none, first_row-update, first_row-append,
  first_row-none,
}

-- For a named account the unique index and a query agree.
is_duplicate-is_at :
    (key scope a : String) (r : Row)
    → is_duplicate key scope (some a) r ≡ is_at key scope (some a) r
unfolding is_duplicate is_at
is_duplicate-is_at key scope a r = by_account r.account_id
  where
    by_account :
        (o : Option String)
        → (str_eq r.key key && (str_eq r.scope scope && sql_equal o (some a)))
          ≡ (str_eq r.key key && (str_eq r.scope scope && null_safe_equal o (some a)))
    by_account none = ground arith
    by_account (some b) = refl

-- What the unique index never finds: a setting of no account.
pub is_duplicate-none : (key scope : String) (r : Row) → is_duplicate key scope none r ≡ false
unfolding is_duplicate
is_duplicate-none key scope r = by_account r.account_id
  where
    by_account :
        (o : Option String)
        → (str_eq r.key key && (str_eq r.scope scope && sql_equal o none)) ≡ false
    by_account none = ground arith
    by_account (some b) = ground arith

-- The row of a setting after an upsert: the one that was there, written, or a new one.
abbrev pub next_version : Option Row → ℤ
next_version none = pos 1
next_version (some r) = r.version +ℤ pos 1

module _ {V : Type 0} where
  abbrev pub upserted : Bool → ℕ → ℕ → String → Setting V → Option Row → Row
  upserted is_sqlite id now body s none = new_row id now body s
  upserted is_sqlite id now body s (some r) = written is_sqlite now body s r

  new_row-is_at :
      (id now : ℕ) (body a : String) (s : Setting V)
      → account_arg_ptr s.account_id ≡ some a
      → is_at s.key s.scope (some a) (new_row id now body s) ≡ true
  unfolding is_at new_row
  new_row-is_at id now body a s account =
      ground (arith, account, str_eq_self s.key, str_eq_self s.scope, str_eq_self a)

  upsert_row_new :
      (now : ℕ) (body a : String) (s : Setting V) (t : Table)
      → account_arg_ptr s.account_id ≡ some a
      → first_row (is_at s.key s.scope (some a)) t.rows ≡ none
      → (upsert_row now body s t).rows ≡ t.rows ++ (new_row t.next_id now body s ∷ [])
  unfolding upsert_row
  upsert_row_new now body a s t account gone =
      let missing =
        countb-same (is_duplicate s.key s.scope (some a)) (is_at s.key s.scope (some a)) t.rows
          (is_duplicate-is_at s.key s.scope a)
        ∙ countb-first_row-none (is_at s.key s.scope (some a)) t.rows gone in
      ground (arith, missing, account)

  upsert_row_old :
      (now : ℕ) (body a : String) (s : Setting V) (t : Table) (r : Row)
      → account_arg_ptr s.account_id ≡ some a
      → first_row (is_at s.key s.scope (some a)) t.rows ≡ some r
      → (upsert_row now body s t).rows
        ≡ update_where (is_at s.key s.scope (some a)) (written t.is_sqlite now body s) t.rows
  unfolding upsert_row
  upsert_row_old now body a s t r account there =
      let taken = is_duplicate s.key s.scope (some a) in
      let at = is_at s.key s.scope (some a) in
      let agree = is_duplicate-is_at s.key s.scope a in
      let counts = countb-same taken at t.rows agree in
      let found = first_row-none at t.rows in
      let rows = update_where-same taken at (written t.is_sqlite now body s) t.rows agree in
      ground (arith, account, counts, found, there, rows)

  -- After an upsert for an account, the first row of the setting is the one that was there, written,
  -- or a new one.
  pub first_row-upsert_row :
      (now : ℕ) (body a : String) (s : Setting V) (t : Table) (o : Option Row)
      → account_arg_ptr s.account_id ≡ some a
      → first_row (is_at s.key s.scope (some a)) t.rows ≡ o
      → first_row (is_at s.key s.scope (some a)) (upsert_row now body s t).rows
        ≡ some (upserted t.is_sqlite t.next_id now body s o)
  first_row-upsert_row now body a s t none account gone =
      let at = is_at s.key s.scope (some a) in
      let new = new_row t.next_id now body s in
      ap (first_row at) (upsert_row_new now body a s t account gone)
      ∙ first_row-append at t.rows new (new_row-is_at t.next_id now body a s account)
      ∙ cc gone
  first_row-upsert_row now body a s t (some r) account there =
      let at = is_at s.key s.scope (some a) in
      let f = written t.is_sqlite now body s in
      ap (first_row at) (upsert_row_old now body a s t r account there)
      ∙ first_row-update at f t.rows (is_at-written s.key s.scope (some a) t.is_sqlite now body s)
      ∙ cc there

  upserted-value :
      (is_sqlite : Bool) (id now : ℕ) (body : String) (s : Setting V) (o : Option Row)
      → ((upserted is_sqlite id now body s o).value ≡ body)
        × ((upserted is_sqlite id now body s o).version ≡ next_version o)
  unfolding written new_row
  upserted-value is_sqlite id now body s none = (refl, refl)
  upserted-value is_sqlite id now body s (some r) = (refl, refl)

  upsert_body-done :
      (db : Faults) (now : ℕ) (o : Option String) (s : Setting V) (t t' : Table)
      → upsert_body db 0 now o s t ≡ inr t'
      → (body : String) × (o ≡ some body) × (upsert_row now body s t ≡ t')
  unfolding upsert_body checked_upsert
  upsert_body-done db now none s t t' h = absurd cc
  upsert_body-done db now (some body) s t t' h = (body, refl, checked (db.exec 0) h)
    where
      checked :
          (o : Option String)
          → checked_upsert o now body s t ≡ inr t'
          → upsert_row now body s t ≡ t'
      checked (some e) h = absurd cc
      checked none h = cc h

module _ {V : Type 0} (lib : Library V) where
  pub upsert_setting-done :
      (db : Faults) (now : ℕ) (s u : Setting V) (t t' : Table)
      → upsert_setting lib db now s t ≡ (t', inr u)
      → (str_eq s.key "" ≡ false)
        × ((body : String) × (lib.marshal s.value ≡ some body)
            × (upsert_row now body (normalize_setting lib s) t ≡ t'))
  unfolding upsert_setting normalize_setting
  upsert_setting-done db now s u t t' h =
      let s' = normalize_setting lib s in
      let o = upsert_body db 0 now (lib.marshal s.value) s' t in
      let (named, h') = past_guard (str_eq s.key "") t t' key_required (finish lib db s' t o) u h in
      (
        named,
        upsert_body-done db now (lib.marshal s.value) s' t t' (finish-done lib db s' u t t' o h'),
      )

  get_setting-first_row :
      (db : Faults) (key scope account : String) (t : Table) (r : Row)
      → str_eq key "" ≡ false
      → db.select ≡ none
      → first_row (is_at key (normalize_scope lib scope) (account_arg account)) t.rows ≡ some r
      → get_setting lib db key scope account t ≡ inr (scan_setting lib r)
  unfolding get_setting scanned
  get_setting-first_row db key scope account t r named quiet there =
      ground (arith, named, quiet, there)

  -- What is written for an account is read again: after an upsert that succeeds, the setting has the
  -- value that was written, as JSON, and the next version, or the first one if it is new.
  pub get_setting-upsert_setting :
      (db db' : Faults) (now : ℕ) (a : String) (s u : Setting V) (t t' : Table)
      → upsert_setting lib db now s t ≡ (t', inr u)
      → s.account_id ≡ some a
      → a ≢ ""
      → db'.select ≡ none
      → (r : Row) × (body : String) × (get_setting lib db' s.key s.scope a t'
          ≡ inr (scan_setting lib r))
        × (lib.marshal s.value ≡ some body)
        × (r.value ≡ body)
        × (r.version
            ≡ next_version (first_row (is_at s.key (normalize_scope lib s.scope) (some a)) t.rows))
  unfolding normalize_setting
  get_setting-upsert_setting db db' now a s u t t' h owned known quiet =
      let s' = normalize_setting lib s in
      let (named, (body, json, done)) = upsert_setting-done db now s u t t' h in
      let given : account_arg a ≡ some a = ground (arith, eq_iff a "") in
      let account : account_arg_ptr s'.account_id ≡ some a = ap account_arg_ptr owned ∙ given in
      let old = first_row (is_at s.key s'.scope (some a)) t.rows in
      let r = upserted t.is_sqlite t.next_id now body s' old in
      let found =
        ap (λ (q : Option String). first_row (is_at s.key s'.scope q) t'.rows) given
        ∙ ap (λ (q : Table). first_row (is_at s.key s'.scope (some a)) q.rows) (sym done)
        ∙ first_row-upsert_row now body a s' t old account refl in
      let (value, version) = upserted-value t.is_sqlite t.next_id now body s' old in
      (
        r,
        body,
        get_setting-first_row db' s.key s.scope a t' r named quiet found,
        json,
        value,
        version,
      )
