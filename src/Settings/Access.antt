-- ===== src/Settings/Access.antt =====
-- Who may see and change what: internal/proxy/settings_handler.go.
use qcc_plus.Prelude.{
  ℕ, ◌≡◌, refl, inl, inr, ◌⊎◌, String, Bool, true, false, Option, none, some, List, [], ◌∷◌, arith,
  All, map, str_eq, if◌then◌else◌,
}
use qcc_plus.Settings.Table.{
  Setting, Table, Library, Faults, StoreError, not_found, key_required, version_required,
  version_conflict, marshal_failed, db_failed,
}
use qcc_plus.Settings.Store.{list_settings, get_setting}
use qcc_plus.Settings.Handler.{
  Panel, UpdateRequest, Reply, refused, shown, listed, masked, get_reply, list_reply, handle_get,
  handle_list, handle_update, handle_delete, handle_batch, handle_setting,
}

module _ {V : Type 0} (lib : Library V) where
  -- What a reply shows of a setting: the value of a secret one is the mask.
  abbrev pub HidesSecret : Setting V → Type 0
  HidesSecret s = s.is_secret ≡ true → s.value ≡ lib.of_text "******"

  abbrev pub Shows : Reply V → Type 0
  Shows (shown s v) = HidesSecret s
  Shows (listed ss v) = All HidesSecret ss
  Shows _ = Unit

  masked-HidesSecret : (s : Setting V) → HidesSecret (masked lib s)
  unfolding masked
  masked-HidesSecret s h = by_secret s.is_secret refl h
    where
      by_secret :
          (b : Bool)
          → s.is_secret ≡ b
          → (masked lib s).is_secret ≡ true
          → (masked lib s).value ≡ lib.of_text "******"
      by_secret true was h = ground (arith, was)
      by_secret false was h = ground (arith, was)

  map-HidesSecret : (ss : List (Setting V)) → All HidesSecret (map (masked lib) ss)
  map-HidesSecret [] = tt
  map-HidesSecret (s ∷ ss) = (masked-HidesSecret s, map-HidesSecret ss)

  get_reply-Shows :
      (db : Faults) (t : Option Table) (o : StoreError ⊎ Setting V) → Shows (get_reply lib db t o)
  unfolding get_reply
  get_reply-Shows db t (inl not_found) = tt
  get_reply-Shows db t (inl key_required) = tt
  get_reply-Shows db t (inl version_required) = tt
  get_reply-Shows db t (inl version_conflict) = tt
  get_reply-Shows db t (inl marshal_failed) = tt
  get_reply-Shows db t (inl (db_failed e)) = tt
  get_reply-Shows db t (inr s) = masked-HidesSecret s

  handle_get-Shows :
      (db : Faults) (admin : Bool) (key scope account : String) (t : Option Table)
      → Shows (handle_get lib db admin key scope account t)
  unfolding handle_get
  handle_get-Shows db true key scope account none = tt
  handle_get-Shows db false key scope account none = tt
  handle_get-Shows db true key scope account (some t) =
      get_reply-Shows db (some t) (get_setting lib db key scope account t)
  handle_get-Shows db false key scope account (some t) = tt

  list_reply-Shows :
      (db : Faults) (t : Option Table) (o : StoreError ⊎ List (Setting V))
      → Shows (list_reply lib db t o)
  unfolding list_reply
  list_reply-Shows db t (inl e) = tt
  list_reply-Shows db t (inr ss) = map-HidesSecret ss

  handle_list-Shows :
      (db : Faults) (admin : Bool) (scope category account : String) (t : Option Table)
      → Shows (handle_list lib db admin scope category account t)
  unfolding handle_list
  handle_list-Shows db true scope category account none = tt
  handle_list-Shows db false scope category account none = tt
  handle_list-Shows db true scope category account (some t) =
      list_reply-Shows db (some t) (list_settings lib db scope category account t)
  handle_list-Shows db false scope category account (some t) = tt

  -- No reply to a request that reads one setting or lists them, whoever asks, contains the value of a
  -- secret setting: it has the mask in its place.
  pub reads-Shows :
      (db : Faults) (admin : Bool) (key scope category account : String) (t : Option Table)
      → Shows (handle_get lib db admin key scope account t)
        × Shows (handle_list lib db admin scope category account t)
  reads-Shows db admin key scope category account t = (
    handle_get-Shows db admin key scope account t,
    handle_list-Shows db admin scope category account t,
  )

  handle_get-forbidden :
      (db : Faults) (key scope account : String) (t : Option Table)
      → handle_get lib db false key scope account t ≡ refused 403 "forbidden"
  unfolding handle_get
  handle_get-forbidden db key scope account none = refl
  handle_get-forbidden db key scope account (some t) = refl

module _ {V : Type 0} where
  -- What a request by someone who is no administrator is answered. Nothing but the request counts.
  unfoldable pub refusal : String → String → Reply V
  refusal method key =
      if str_eq key ""
      then refused 400 "key required"
      else if str_eq method "GET"
      then refused 403 "forbidden"
      else if str_eq method "PUT"
      then refused 403 "forbidden"
      else if str_eq method "DELETE"
      then refused 403 "forbidden"
      else refused 405 ""

module _ {V : Type 0} (lib : Library V) (same : V → V → Bool) where
  -- Who is not an administrator changes nothing and learns nothing: every request on a setting or on a
  -- batch is refused, store and cache stay as they are, and the refusal depends on the method and on
  -- the key asked for only, not on what the store and the cache hold or on how the database fails.
  pub handle_setting-Refuses :
      (asked db : Faults) (now : ℕ) (method key scope account : String)
      (req : Option (UpdateRequest V)) (ss : Option (List (Setting V))) (p : Panel V)
      → (handle_setting lib same asked db now false method key scope account req p
          ≡ (p, refusal method key))
        × (handle_batch lib same db now false ss p ≡ (p, refused 403 "forbidden"))
  unfolding handle_setting handle_batch handle_update handle_delete refusal
  handle_setting-Refuses asked db now method key scope account req ss p =
      (ground (arith, handle_get-forbidden lib db key scope account p.store), refl)
