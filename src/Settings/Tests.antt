-- ===== src/Settings/Tests.antt =====
-- The theorems about the settings at concrete inputs; the values are texts that are their own JSON.
use qcc_plus.Prelude.{
  ◌≡◌, ◌≢◌, refl, pos, inl, inr, String, Bool, true, false, none, some, [], ◌∷◌, ◌++◌, arith, map,
  All, str_eq, eq_iff,
}
use qcc_plus.Settings.Table.{
  Setting, Table, Library, version_conflict, normalize_setting, normalize_scope, is_current, is_at,
  is_duplicate, update_row, upsert_row, update_where, written, new_row, first_row, scan_setting,
  scan_value, checked_update, checked_upsert,
}
use qcc_plus.Settings.Store.{
  batch_update_settings, update_setting, upsert_setting, update_body, upsert_body, finish,
  refreshed, read_back, get_setting, scanned,
}
use qcc_plus.Settings.Seed.{seed_default_settings, default_settings}
use qcc_plus.Settings.Cache.{SettingsCache}
use qcc_plus.Settings.Handler.{
  Panel, refused, handle_get, handle_list, handle_setting, handle_batch,
}
use qcc_plus.Settings.Batch.{no_faults, AllOrNone, batch_update_settings-AllOrNone}
use qcc_plus.Settings.Locking.{update_setting-once}
use qcc_plus.Settings.RoundTrip.{next_version, get_setting-upsert_setting}
use qcc_plus.Settings.Duplicates.{
  upsert_setting-duplicate, seed_default_settings-adds, numbered, key_and_value, expected_defaults,
}
use qcc_plus.Settings.Access.{Shows, refusal, reads-Shows, handle_setting-Refuses}

abbrev texts : Library String
texts = record {
  marshal = λ v. some v;
  unmarshal = λ v. some v;
  of_text = λ v. v;
  nil = "";
  to_lower = λ s. s;
  trim_space = λ s. s;
}

-- A secret setting of an account.
abbrev token : Setting String
token = record {
  id = 1;
  key = "token";
  scope = "account";
  account_id = some "acc";
  value = "old";
  data_type = "string";
  category = "general";
  description = none;
  is_secret = true;
  version = pos 4;
  updated_by = none;
  updated_at = 10;
  created_at = 5;
}

-- A setting of the whole system.
abbrev retries : Setting String
retries = record token {
  id = 2;
  key = "proxy.retry_max";
  scope = "system";
  account_id = none;
  value = "3";
  is_secret = false;
}

abbrev table : Table
table = record { rows = token ∷ retries ∷ []; next_id = 3; is_sqlite = true }

abbrev new_token : Setting String
new_token = record token { value = "new" }

abbrev other_token : Setting String
other_token = record token { value = "other" }

abbrev after_update : Table
after_update = (update_setting texts no_faults 20 new_token table).0

abbrev updated : Setting String
updated = record new_token { version = pos 5 }

first_update : update_setting texts no_faults 20 new_token table ≡ (after_update, inr updated)
unfolding update_setting upsert_setting update_body upsert_body finish checked_update checked_upsert
    normalize_setting normalize_scope is_current is_at is_duplicate update_row upsert_row
    update_where written new_row refreshed read_back get_setting scanned first_row scan_setting
    scan_value
first_update = refl

update_setting-once_example :
    update_setting texts no_faults 30 other_token after_update
    ≡ (after_update, inl version_conflict)
update_setting-once_example =
    update_setting-once texts no_faults no_faults 20 30 "other" new_token other_token updated table
      after_update first_update refl refl refl refl refl refl refl

abbrev after_upsert : Table
after_upsert = (upsert_setting texts no_faults 20 new_token table).0

first_upsert : upsert_setting texts no_faults 20 new_token table ≡ (after_upsert, inr updated)
unfolding update_setting upsert_setting update_body upsert_body finish checked_update checked_upsert
    normalize_setting normalize_scope is_current is_at is_duplicate update_row upsert_row
    update_where written new_row refreshed read_back get_setting scanned first_row scan_setting
    scan_value
first_upsert = refl

acc_named : ◌≢◌ {A = String} "acc" ""
acc_named = ground (arith, eq_iff "acc" "")

get_setting-upsert_setting_example :
    (r : Setting String) × (body : String) × (get_setting texts no_faults "token" "account" "acc"
        after_upsert
      ≡ inr (scan_setting texts r))
    × (some "new" ≡ some body)
    × (r.value ≡ body)
    × (r.version
        ≡ next_version
            (first_row (is_at "token" (normalize_scope texts "account") (some "acc")) table.rows))
get_setting-upsert_setting_example =
    get_setting-upsert_setting texts no_faults no_faults 20 "acc" new_token updated table
      after_upsert first_upsert refl acc_named refl

abbrev more_retries : Setting String
more_retries = record retries { value = "9" }

system_there :
    first_row (is_at "proxy.retry_max" (normalize_scope texts "system") none) table.rows
    ≡ some retries
unfolding first_row is_at normalize_scope
system_there = refl

upsert_setting-duplicate_example :
    let (t', result) = upsert_setting texts no_faults 20 more_retries table in
    ((u : Setting String) × (result ≡ inr u))
    × ((new : Setting String) × (t'.rows ≡ table.rows ++ (new ∷ []))
        × (is_at "proxy.retry_max" (normalize_scope texts "system") none new ≡ true)
        × (new.value ≡ "9")
        × (new.version ≡ pos 1))
    × (get_setting texts no_faults "proxy.retry_max" "system" "" t'
        ≡ get_setting texts no_faults "proxy.retry_max" "system" "" table)
upsert_setting-duplicate_example =
    upsert_setting-duplicate texts no_faults no_faults 20 "9" more_retries table retries refl refl
      refl refl system_there

seed_default_settings-adds_example :
    let (t', result) = seed_default_settings no_faults 20 table in
    let added = numbered table.next_id 20 default_settings in
    (result ≡ none)
    × (t'.rows ≡ table.rows ++ added)
    × (map key_and_value added ≡ expected_defaults)
    × All
        (λ (r : Setting String). (r.scope ≡ "system") × (r.account_id ≡ none) × (r.version ≡ pos 1))
        added
seed_default_settings-adds_example = seed_default_settings-adds no_faults 20 table (λ j. refl)

batch_update_settings-AllOrNone_example :
    AllOrNone texts 20
      (new_token ∷ other_token ∷ [])
      table
      (batch_update_settings texts no_faults 20 (new_token ∷ other_token ∷ []) table).0
      (batch_update_settings texts no_faults 20 (new_token ∷ other_token ∷ []) table).1
batch_update_settings-AllOrNone_example =
    batch_update_settings-AllOrNone texts no_faults 20 (new_token ∷ other_token ∷ []) table
      (refl, (refl, tt))

reads-Shows_example :
    Shows texts (handle_get texts no_faults true "token" "account" "acc" (some table))
    × Shows texts (handle_list texts no_faults true "account" "" "acc" (some table))
reads-Shows_example = reads-Shows texts no_faults true "token" "account" "" "acc" (some table)

abbrev same_text : String → String → Bool
same_text a b = str_eq a b

abbrev cache : SettingsCache String
cache = record {
  data_of = ("proxy.retry_max", "2") ∷ ("gone", "1") ∷ [];
  version = pos 3;
  on_change = "reconfigure" ∷ [];
  calls = [];
}

abbrev panel : Panel String
panel = record { store = some table; cache = some cache }

handle_setting-Refuses_example :
    (handle_setting texts same_text no_faults no_faults 20 false "DELETE" "token" "account" "acc"
        none panel
      ≡ (panel, refusal "DELETE" "token"))
    × (handle_batch texts same_text no_faults 20 false (some (new_token ∷ [])) panel
        ≡ (panel, refused 403 "forbidden"))
handle_setting-Refuses_example =
    handle_setting-Refuses texts same_text no_faults no_faults 20 "DELETE" "token" "account" "acc"
      none (some (new_token ∷ [])) panel
