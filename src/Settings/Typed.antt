-- ===== src/Settings/Typed.antt =====
-- The typed reads of the cache: internal/proxy/settings_cache.go. A value is what JSON decodes to or
-- what Go code sets; the conversion of a float64 to an int is a parameter.
use qcc_plus.Prelude.{ℤ, String, Bool, Option, some}
use qcc_plus.Settings.Cache.{SettingsCache, get}

pub data Value (F : Type 0) : Type 0 where
  null : Value F
  boolean : Bool → Value F
  float64 : F → Value F
  int : ℤ → Value F
  text : String → Value F
  structured : String → Value F  -- an object or an array, as JSON text

module _ {F : Type 0} where
  unfoldable pub as_int : (F → ℤ) → ℤ → Option (Value F) → ℤ
  as_int to_int fallback (some (float64 f)) = to_int f
  as_int to_int fallback (some (int n)) = n
  as_int to_int fallback _ = fallback

  unfoldable pub as_string : String → Option (Value F) → String
  as_string fallback (some (text s)) = s
  as_string fallback _ = fallback

  unfoldable pub as_bool : Bool → Option (Value F) → Bool
  as_bool fallback (some (boolean b)) = b
  as_bool fallback _ = fallback

  unfoldable pub get_int : (F → ℤ) → String → ℤ → SettingsCache (Value F) → ℤ
  unfolding as_int get
  get_int to_int key fallback c = as_int to_int fallback (get key c)

  unfoldable pub get_string : String → String → SettingsCache (Value F) → String
  unfolding as_string get
  get_string key fallback c = as_string fallback (get key c)

  unfoldable pub get_bool : String → Bool → SettingsCache (Value F) → Bool
  unfolding as_bool get
  get_bool key fallback c = as_bool fallback (get key c)
