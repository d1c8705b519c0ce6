-- ===== src/Settings/Locking.antt =====
-- The version check of an UPDATE: internal/store/mysql.go.
use qcc_plus.Prelude.{
  ℕ, zero, suc, ◌==◌, ◌≡◌, refl, sym, ◌∙◌, ap, ℤ, pos, negsuc, eq_ℤ, leb_ℤ, ◌+ℤ◌, inl, inr, ◌⊎◌,
  String, Bool, true, false, Option, none, some, arith, countb, str_eq, if◌then◌else◌,
}
use qcc_plus.Settings.Table.{
  Setting, Table, Library, Faults, StoreError, key_required, version_required, version_conflict,
  is_at, is_current, written, update_row, checked_update, why_unchanged, setting_exists,
  update_where, account_arg_ptr, normalize_setting, normalize_scope,
}
use qcc_plus.Settings.Store.{update_setting, update_body, finish}
use qcc_plus.Settings.Rows.{Row, countb-update_none, countb-update_same, countb_mono}

next_differs : (v w : ℤ) → eq_ℤ v w ≡ true → eq_ℤ (v +ℤ pos 1) w ≡ false
next_differs (pos v) (pos w) h = ground arith
next_differs (pos v) (negsuc w) h = ground arith
next_differs (negsuc v) (pos w) h = ground arith
next_differs (negsuc zero) (negsuc w) h = ground arith
next_differs (negsuc (suc v)) (negsuc w) h = ground arith

module _ {V : Type 0} where
  -- A row that an UPDATE has changed does not have the version any more that it asked for.
  written-not_current :
      (is_sqlite : Bool) (now : ℕ) (body : String) (s : Setting V) (r : Row)
      → is_current s (if is_current s r then written is_sqlite now body s r else r) ≡ false
  unfolding is_current is_at written
  written-not_current is_sqlite now body s r = ground (arith, next_differs r.version s.version)

  pub is_at-written :
      (key scope : String) (account : Option String) (is_sqlite : Bool) (now : ℕ) (body : String)
      (s : Setting V) (r : Row)
      → is_at key scope account (written is_sqlite now body s r) ≡ is_at key scope account r
  unfolding is_at written
  is_at-written key scope account is_sqlite now body s r = refl

  -- Two settings that name one row and one version.
  pub record SameTarget (s s' : Setting V) : Type 0 where
    pub keys : s.key ≡ s'.key
    pub scopes : s.scope ≡ s'.scope
    pub accounts : account_arg_ptr s.account_id ≡ account_arg_ptr s'.account_id
    pub versions : s.version ≡ s'.version

  is_current-SameTarget :
      (s s' : Setting V) (r : Row) → SameTarget s s' → is_current s' r ≡ is_current s r
  unfolding is_current is_at
  is_current-SameTarget s s' r same = cc (same.keys, same.scopes, same.accounts, same.versions)

  is_current-is_at :
      (s : Setting V) (r : Row)
      → is_current s r ≡ true
      → is_at s.key s.scope (account_arg_ptr s.account_id) r ≡ true
  unfolding is_current
  is_current-is_at s r h = ground arith

  -- After an UPDATE that changed a row, the same UPDATE changes none, but the setting exists.
  update_row-stale :
      (now : ℕ) (body : String) (s s' : Setting V) (t : Table)
      → SameTarget s s'
      → (countb (is_current s) t.rows == 0) ≡ false
      → (countb (is_current s') (update_row now body s t).rows ≡ 0)
        × (setting_exists s' (update_row now body s t) ≡ true)
  unfolding update_row setting_exists
  update_row-stale now body s s' t same hit =
      let f = written t.is_sqlite now body s in
      let at = is_at s.key s.scope (account_arg_ptr s.account_id) in
      let at' = is_at s'.key s'.scope (account_arg_ptr s'.account_id) in
      let same_at : at' ≡ at = cc (same.keys, same.scopes, same.accounts) in
      (
        countb-update_none (is_current s') (is_current s) f t.rows
            (λ r. is_current-SameTarget s s' _ same ∙ written-not_current t.is_sqlite now body s r),
        ground (
          arith,
          ap (λ (p : Row → Bool). countb p (update_where (is_current s) f t.rows)) same_at,
          countb-update_same at (is_current s) f t.rows
              (is_at-written s.key s.scope (account_arg_ptr s.account_id) t.is_sqlite now body s),
          countb_mono (is_current s) at t.rows (is_current-is_at s),
        ),
      )

  checked_update-done :
      (exec exists : Option String) (now : ℕ) (body : String) (s : Setting V) (t t' : Table)
      → checked_update exec exists now body s t ≡ inr t'
      → ((countb (is_current s) t.rows == 0) ≡ false) × (update_row now body s t ≡ t')
  unfolding checked_update
  checked_update-done (some e) exists now body s t t' h = absurd cc
  checked_update-done none exists now body s t t' h = ground arith

  checked_update-stale :
      (now : ℕ) (body : String) (s : Setting V) (t : Table)
      → countb (is_current s) t.rows ≡ 0
      → setting_exists s t ≡ true
      → checked_update none none now body s t ≡ inl version_conflict
  unfolding checked_update why_unchanged
  checked_update-stale now body s t missing there = ground arith

  update_body-done :
      (db : Faults) (now : ℕ) (o : Option String) (s : Setting V) (t t' : Table)
      → update_body db 0 now o s t ≡ inr t'
      → (body : String) × (checked_update (db.exec 0) (db.exists 0) now body s t ≡ inr t')
  unfolding update_body
  update_body-done db now none s t t' h = absurd cc
  update_body-done db now (some body) s t t' h = (body, h)

-- A guard that refuses: the result that is no refusal comes from behind it.
pub past_guard :
    {V : Type 0} (b : Bool) (t t' : Table) (e : StoreError)
    (rest : Table × (StoreError ⊎ Setting V)) (u : Setting V)
    → (if b then (t, inl e) else rest) ≡ (t', inr u)
    → (b ≡ false) × (rest ≡ (t', inr u))
past_guard true t t' e rest u h = absurd cc
past_guard false t t' e rest u h = (refl, h)

module _ {V : Type 0} (lib : Library V) where
  pub finish-done :
      (db : Faults) (s u : Setting V) (t t' : Table) (o : StoreError ⊎ Table)
      → finish lib db s t o ≡ (t', inr u)
      → o ≡ inr t'
  unfolding finish
  finish-done db s u t t' (inl e) h = absurd cc
  finish-done db s u t t' (inr t'') h = cc

  -- A successful UPDATE has passed the guards and changed a row.
  update_setting-done :
      (db : Faults) (now : ℕ) (s u : Setting V) (t t' : Table)
      → update_setting lib db now s t ≡ (t', inr u)
      → (str_eq s.key "" ≡ false)
        × ((leb_ℤ s.version (pos 0) ≡ false)
            × ((body : String) × ((countb (is_current (normalize_setting lib s)) t.rows == 0)
                  ≡ false)
                × (update_row now body (normalize_setting lib s) t ≡ t')))
  unfolding update_setting
  update_setting-done db now s u t t' h =
      let s' = normalize_setting lib s in
      let done = finish lib db s' t (update_body db 0 now (lib.marshal s'.value) s' t) in
      let (named, h') =
        past_guard (str_eq s.key "") t t' key_required
          (if leb_ℤ s.version (pos 0) then (t, inl version_required) else done) u h in
      let (versioned, h'') = past_guard (leb_ℤ s.version (pos 0)) t t' version_required done u h' in
      let (body, changed) =
        update_body-done db now (lib.marshal s'.value) s' t t' (finish-done db s' u t t' _ h'') in
      let (hit, done_to) = checked_update-done (db.exec 0) (db.exists 0) now body s' t t' changed in
      (named, (versioned, (body, hit, done_to)))

  update_setting-stale :
      (db : Faults) (now : ℕ) (body : String) (s : Setting V) (t : Table)
      → str_eq s.key "" ≡ false
      → leb_ℤ s.version (pos 0) ≡ false
      → lib.marshal s.value ≡ some body
      → db.exec 0 ≡ none
      → db.exists 0 ≡ none
      → countb (is_current (normalize_setting lib s)) t.rows ≡ 0
      → setting_exists (normalize_setting lib s) t ≡ true
      → update_setting lib db now s t ≡ (t, inl version_conflict)
  unfolding update_setting update_body finish normalize_setting
  update_setting-stale db now body s t named versioned json quiet asks missing there =
      ground (arith, json, checked_update-stale now body (normalize_setting lib s) t missing there)

  -- Of two updates of one setting that ask for the same version, only one succeeds: once the first has,
  -- the second ends with a version conflict and changes nothing, whatever the two of them write, if its
  -- value is JSON and the database does not fail.
  pub update_setting-once :
      (db db' : Faults) (now now' : ℕ) (body' : String) (s s' u : Setting V) (t t' : Table)
      → update_setting lib db now s t ≡ (t', inr u)
      → s'.key ≡ s.key
      → normalize_scope lib s'.scope ≡ normalize_scope lib s.scope
      → account_arg_ptr s'.account_id ≡ account_arg_ptr s.account_id
      → s'.version ≡ s.version
      → lib.marshal s'.value ≡ some body'
      → db'.exec 0 ≡ none
      → db'.exists 0 ≡ none
      → update_setting lib db' now' s' t' ≡ (t', inl version_conflict)
  unfolding normalize_setting
  update_setting-once db db' now now' body' s s' u t t' h keys scopes accounts versions json quiet
        asks =
      let (named, (versioned, (body, hit, done))) = update_setting-done db now s u t t' h in
      let same : SameTarget (normalize_setting lib s) (normalize_setting lib s') = record {
        keys = sym keys;
        scopes = sym scopes;
        accounts = sym accounts;
        versions = sym versions;
      } in
      let (missing, there) =
        update_row-stale now body (normalize_setting lib s) (normalize_setting lib s') t same hit in
      update_setting-stale db' now' body' s' t' (ap (λ (k : String). str_eq k "") keys ∙ named)
        (ap (λ (v : ℤ). leb_ℤ v (pos 0)) versions ∙ versioned) json quiet asks
        (ap (λ (q : Table). countb (is_current (normalize_setting lib s')) q.rows) (sym done)
          ∙ missing)
        (ap (setting_exists (normalize_setting lib s')) (sym done) ∙ there)
