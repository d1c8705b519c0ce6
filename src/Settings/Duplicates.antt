-- ===== src/Settings/Duplicates.antt =====
-- Settings of no account, which the unique index does not keep apart: internal/store/mysql.go.
use mathlib.Core.List.{append-nil, append_assoc}
use qcc_plus.Prelude.{
  ℕ, suc, ◌≡◌, refl, sym, ◌∙◌, ap, ◌⊎◌, inr, pos, String, Bool, true, false, none, some, List, [],
  ◌∷◌, ◌++◌, arith, All, countb, map, str_eq, str_eq_self,
}
use qcc_plus.Settings.Table.{
  Setting, Table, Library, Faults, StoreError, is_at, is_duplicate, new_row, upsert_row, first_row,
  account_arg_ptr, null_or_string_ptr, checked_upsert, normalize_scope, normalize_setting,
}
use qcc_plus.Settings.Store.{get_setting, upsert_setting, upsert_body, finish, refreshed}
use qcc_plus.Settings.Seed.{insert_ignore, seed, seed_default_settings, default_settings}
use qcc_plus.Settings.Rows.{Row}
use qcc_plus.Settings.RoundTrip.{is_duplicate-none}

countb-none : (p : Row → Bool) (rs : List Row) → ((r : Row) → p r ≡ false) → countb p rs ≡ 0
countb-none p [] miss = refl
countb-none p (r ∷ rs) miss = ground (arith, miss r, countb-none p rs miss)

-- A row at the end does not change which row a query meets first.
first_row-later :
    (hit : Row → Bool) (rs : List Row) (r r' : Row)
    → first_row hit rs ≡ some r
    → first_row hit (rs ++ (r' ∷ [])) ≡ some r
unfolding first_row
first_row-later hit [] r r' there = absurd cc
first_row-later hit (r'' ∷ rs) r r' there = ground (arith, first_row-later hit rs r r')

module _ {V : Type 0} (lib : Library V) where
  upsert_row-adds :
      (now : ℕ) (body : String) (s : Setting V) (t : Table)
      → account_arg_ptr s.account_id ≡ none
      → (upsert_row now body s t).rows ≡ t.rows ++ (new_row t.next_id now body s ∷ [])
  unfolding upsert_row
  upsert_row-adds now body s t free = ground (
    arith,
    free,
    countb-none (is_duplicate s.key s.scope none) t.rows (is_duplicate-none s.key s.scope),
  )

  upsert_setting-adds :
      (db : Faults) (now : ℕ) (body : String) (s : Setting V) (t : Table)
      → str_eq s.key "" ≡ false
      → s.account_id ≡ none
      → lib.marshal s.value ≡ some body
      → db.exec 0 ≡ none
      → let s' = normalize_setting lib s in
        upsert_setting lib db now s t
        ≡ (upsert_row now body s' t, inr (refreshed lib db s' (upsert_row now body s' t)))
  unfolding upsert_setting upsert_body checked_upsert finish normalize_setting
  upsert_setting-adds db now body s t named free json quiet =
      ground (arith, named, free, json, quiet)

  new_row-at :
      (id now : ℕ) (body : String) (s : Setting V)
      → account_arg_ptr s.account_id ≡ none
      → (new_row id now body s).account_id ≡ none
        × is_at s.key s.scope none (new_row id now body s) ≡ true
  unfolding is_at new_row
  new_row-at id now body s free =
      (free, ground (arith, free, str_eq_self s.key, str_eq_self s.scope))

  -- If the setting has a key and no account, its value has a JSON text and the database does not refuse
  -- the statement, then the upsert of a setting that exists succeeds and writes no row that is there:
  -- it adds one row at the end, with the same key and scope and no account, with the JSON text and the
  -- first version; and what is read for the key afterwards is what was read before.
  pub upsert_setting-duplicate :
      (db db' : Faults) (now : ℕ) (body : String) (s : Setting V) (t : Table) (r : Row)
      → str_eq s.key "" ≡ false
      → s.account_id ≡ none
      → lib.marshal s.value ≡ some body
      → db.exec 0 ≡ none
      → first_row (is_at s.key (normalize_scope lib s.scope) none) t.rows ≡ some r
      → let (t', result) = upsert_setting lib db now s t in
        ((u : Setting V) × (result ≡ inr u))
        × ((new : Row) × (t'.rows ≡ t.rows ++ (new ∷ []))
            × (is_at s.key (normalize_scope lib s.scope) none new ≡ true)
            × (new.value ≡ body)
            × (new.version ≡ pos 1))
        × (get_setting lib db' s.key s.scope "" t' ≡ get_setting lib db' s.key s.scope "" t)
  unfolding normalize_setting get_setting new_row
  upsert_setting-duplicate db db' now body s t r named free json quiet there =
      let s' = normalize_setting lib s in
      let done = upsert_setting-adds db now body s t named free json quiet in
      let t' = (upsert_setting lib db now s t).0 in
      let at = is_at s.key s'.scope none in
      let new = new_row t.next_id now body s' in
      let account : account_arg_ptr s'.account_id ≡ none = ap account_arg_ptr free in
      let rows : t'.rows ≡ t.rows ++ (new ∷ []) =
        ap (λ (q : Table × (StoreError ⊎ Setting V)). q.0.rows) done
        ∙ upsert_row-adds now body s' t account in
      let found : first_row at t'.rows ≡ first_row at t.rows =
        ap (first_row at) rows ∙ first_row-later at t.rows r new there ∙ sym there in
      let (_, hit) = new_row-at t.next_id now body s' account in
      (
        (
          refreshed lib db s' (upsert_row now body s' t),
          ap (λ (q : Table × (StoreError ⊎ Setting V)). q.1) done,
        ),
        (new, rows, hit, refl, refl),
        ground (arith, found),
      )

-- The row of a setting that is written for the first time.
abbrev first_written : ℕ → ℕ → Row → Row
first_written id now d = record d { id = id; version = pos 1; updated_at = now; created_at = now }

-- The rows of settings that are written one after another.
abbrev pub numbered : ℕ → ℕ → List Row → List Row
numbered id now [] = []
numbered id now (d ∷ ds) = first_written id now d ∷ numbered (suc id) now ds

-- The keys and the values of the settings that a start adds.
abbrev pub key_and_value : Row → String × String
key_and_value r = (r.key, r.value)

abbrev pub expected_defaults : List (String × String)
expected_defaults =
    ("monitor.refresh_interval_ms", "30000")
    ∷ ("monitor.error_display", "\"icon\"")
    ∷ ("monitor.show_node_stats", "{\"showHealth\":true,\"showProxy\":true}")
    ∷ ("monitor.hide_disabled_nodes", "true")
    ∷ ("health.check_interval_sec", "30")
    ∷ ("health.fail_threshold", "3")
    ∷ ("health.skip_disabled_nodes", "true")
    ∷ ("proxy.retry_max", "3")
    ∷ []

-- A setting of no account that nobody has written by name, with a description that is not empty.
abbrev IsPlain : Row → Type 0
IsPlain d =
    (d.account_id ≡ none)
    × (null_or_string_ptr d.description ≡ d.description)
    × (d.updated_by ≡ none)

insert_ignore-adds :
    (now : ℕ) (d : Row) (t : Table)
    → IsPlain d
    → insert_ignore now d t
      ≡ record t { rows = t.rows ++ (first_written t.next_id now d ∷ []); next_id = suc t.next_id }
unfolding insert_ignore new_row
insert_ignore-adds now d t (free, described, unnamed) = ground (
  arith,
  free,
  described,
  unnamed,
  countb-none (is_duplicate d.key d.scope none) t.rows (is_duplicate-none d.key d.scope),
)

seed-adds :
    (db : Faults) (i now : ℕ) (ds : List Row) (t : Table)
    → ((j : ℕ) → db.exec j ≡ none)
    → All IsPlain ds
    → ((seed db i now ds t).0.rows ≡ t.rows ++ numbered t.next_id now ds)
      × ((seed db i now ds t).1 ≡ none)
unfolding seed
seed-adds db i now [] t quiet plain = (sym (append-nil t.rows), refl)
seed-adds db i now (d ∷ ds) t quiet plain =
    let t' = insert_ignore now d t in
    let one = insert_ignore-adds now d t plain.0 in
    let first = first_written t.next_id now d in
    let rest = numbered (suc t.next_id) now ds in
    let (rows, good) = seed-adds db (suc i) now ds t' quiet plain.1 in
    let next : t'.next_id ≡ suc t.next_id = ap (λ (q : Table). q.next_id) one in
    let grown : t'.rows ≡ t.rows ++ (first ∷ []) = ap (λ (q : Table). q.rows) one in
    let after : t'.rows ++ numbered t'.next_id now ds ≡ t.rows ++ (first ∷ rest) =
      ap (λ (k : ℕ). t'.rows ++ numbered k now ds) next
      ∙ ap (λ (rs : List Row). rs ++ rest) grown
      ∙ append_assoc t.rows (first ∷ []) rest in
    (ground (arith, quiet i, rows ∙ after), ground (arith, quiet i, good))

default_settings-IsPlain : All IsPlain default_settings
default_settings-IsPlain = (
  (refl, refl, refl),
  (
    (refl, refl, refl),
    (
      (refl, refl, refl),
      (
        (refl, refl, refl),
        ((refl, refl, refl), ((refl, refl, refl), ((refl, refl, refl), ((refl, refl, refl), tt)))),
      ),
    ),
  ),
)

-- Every start of the server, with a database that does not fail, succeeds and adds the eight default
-- settings once more behind the rows that are there, whether these have the settings already or not:
-- each of the scope "system", without an account, with the key and the value listed, the next numbers
-- and the first version.
pub seed_default_settings-adds :
    (db : Faults) (now : ℕ) (t : Table)
    → ((j : ℕ) → db.exec j ≡ none)
    → let (t', result) = seed_default_settings db now t in
      let added = numbered t.next_id now default_settings in
      (result ≡ none)
      × (t'.rows ≡ t.rows ++ added)
      × (map key_and_value added ≡ expected_defaults)
      × All (λ (r : Row). (r.scope ≡ "system") × (r.account_id ≡ none) × (r.version ≡ pos 1)) added
unfolding seed_default_settings
seed_default_settings-adds db now t quiet =
    let (rows, good) = seed-adds db 0 now default_settings t quiet default_settings-IsPlain in
    (
      good,
      rows,
      refl,
      (
        (refl, refl, refl),
        (
          (refl, refl, refl),
          (
            (refl, refl, refl),
            (
              (refl, refl, refl),
              (
                (refl, refl, refl),
                ((refl, refl, refl), ((refl, refl, refl), ((refl, refl, refl), tt))),
              ),
            ),
          ),
        ),
      ),
    )
