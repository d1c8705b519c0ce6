-- ===== src/Settings/Cached.antt =====
-- What a refresh does to the cache and whom it tells: internal/proxy/settings_cache.go.
use qcc_plus.Prelude.{
  ◌≡◌, String, Option, none, some, List, [], ◌∷◌, ◌++◌, map, lookup, str_eq, if◌then◌else◌,
}
use qcc_plus.Settings.Table.{Setting}
use qcc_plus.Settings.Cache.{CacheCall, call_of}

module _ {V : Type 0} where
  -- A map as Go has it: no key stands twice.
  abbrev pub IsMap : List (String × V) → Type 0
  IsMap [] = Unit
  IsMap ((k, v) ∷ m) = (lookup k m ≡ none) × IsMap m

  -- The last of the settings with a key, over what was there.
  unfoldable pub last_of : String → Option V → List (Setting V) → Option V
  last_of key o [] = o
  last_of key o (s ∷ ss) = last_of key (if str_eq s.key key then some s.value else o) ss

  -- The calls that a list of told keys makes.
  unfoldable pub calls_of : List String → List (String × V) → List (CacheCall V)
  calls_of fns [] = []
  calls_of fns ((k, v) ∷ told) = map (call_of k v) fns ++ calls_of fns told
