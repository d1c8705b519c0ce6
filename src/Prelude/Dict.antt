-- ===== src/Prelude/Dict.antt =====
-- Go maps with string keys, as association lists. The order of the list is the order in which a
-- `range` visits the keys, which Go leaves open; an insertion at a new key goes to the end.
use Prim.Native.String.{String}
use mathlib.Core.Path.{◌≡◌, refl}
use mathlib.Core.Bool.{Bool, false, ◌||◌}
use mathlib.Core.List.{List, [], ◌∷◌}
use mathlib.Core.Option
use mathlib.Core.Option.{Option, none, some}
use native.Mathlib.Omega.{arith}
use text.Mathlib.TextEquality.{eq_iff}
use qcc_plus.Prelude.Tests.{if◌then◌else◌, str_eq, str_eq_self}

module _ {ℓ} {V : Type ℓ} where
  -- `m[k]`
  unfoldable pub lookup : String → List (String × V) → Option V
  lookup k [] = none
  lookup k ((j, v) ∷ m) = if str_eq j k then some v else lookup k m

  -- `m[k] = v`
  unfoldable pub insert : String → V → List (String × V) → List (String × V)
  insert k v [] = (k, v) ∷ []
  insert k v ((j, w) ∷ m) = if str_eq j k then (k, v) ∷ m else (j, w) ∷ insert k v m

  -- `delete(m, k)`
  unfoldable pub erase : String → List (String × V) → List (String × V)
  erase k [] = []
  erase k ((j, w) ∷ m) = let rest = erase k m in if str_eq j k then rest else (j, w) ∷ rest

  pub lookup-insert :
      (written asked : String) (v : V) (m : List (String × V))
      → lookup asked (insert written v m)
        ≡ (if str_eq written asked then some v else lookup asked m)
  unfolding lookup insert
  lookup-insert written asked v [] = refl
  lookup-insert written asked v ((first, old) ∷ rest) = ground (
    arith,
    eq_iff written asked,
    eq_iff first asked,
    eq_iff first written,
    lookup-insert written asked v rest,
  )

  pub lookup-erase :
      (k j : String) (m : List (String × V))
      → lookup j (erase k m) ≡ (if str_eq k j then none else lookup j m)
  unfolding lookup erase
  lookup-erase k j [] = ground arith
  lookup-erase k j ((i, w) ∷ m) =
      ground (arith, eq_iff k j, eq_iff i k, eq_iff i j, lookup-erase k j m)

  pub lookup-insert_self :
      (k : String) (v : V) (m : List (String × V)) → lookup k (insert k v m) ≡ some v
  lookup-insert_self k v m = ground (arith, lookup-insert k k v m, str_eq_self k)

  pub lookup-erase_self : (k : String) (m : List (String × V)) → lookup k (erase k m) ≡ none
  lookup-erase_self k m = ground (arith, lookup-erase k k m, str_eq_self k)

-- A write that keeps what `f` reads of a value that is there keeps what `f` reads everywhere.
pub map-insert {ℓ κ} :
    {V : Type ℓ} {W : Type κ} (f : V → W) (k j : String) (v v' : V) (m : List (String × V))
    → lookup k m ≡ some v
    → f v' ≡ f v
    → Option.map f (lookup j (insert k v' m)) ≡ Option.map f (lookup j m)
map-insert f k j v v' m there same = rw (lookup-insert k j v' m) (ground (arith, eq_iff k j))

-- Go sets, `map[string]struct{}` and `map[string]bool`: the keys that are present.
unfoldable pub contains : String → List String → Bool
contains k [] = false
contains k (j ∷ s) = str_eq j k || contains k s

-- `s[k] = struct{}{}`
unfoldable pub add_key : String → List String → List String
add_key k s = if contains k s then s else k ∷ s

-- `delete(s, k)`
unfoldable pub remove_key : String → List String → List String
remove_key k [] = []
remove_key k (j ∷ s) = let rest = remove_key k s in if str_eq j k then rest else j ∷ rest

pub contains-add_key :
    (k j : String) (s : List String) → contains j (add_key k s) ≡ (str_eq k j || contains j s)
unfolding add_key contains
contains-add_key k j s = ground (arith, eq_iff k j)

pub contains-remove_key :
    (k j : String) (s : List String)
    → contains j (remove_key k s) ≡ (if str_eq k j then false else contains j s)
unfolding remove_key contains
contains-remove_key k j [] = ground arith
contains-remove_key k j (i ∷ s) =
    ground (arith, eq_iff k j, eq_iff i k, eq_iff i j, contains-remove_key k j s)
