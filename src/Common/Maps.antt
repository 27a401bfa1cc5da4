-- ===== src/Common/Maps.antt =====
-- A JavaScript `Map` with text keys: an association list in insertion order, in which `set` keeps
-- the place of a key that is present.
use mathlib.Core.Path.{◌≡◌, refl}
use mathlib.Core.Logic.{◌≢◌}
use mathlib.Core.Bool.{false}
use mathlib.Core.Option.{Option, none, some}
use mathlib.Core.List.{List, [], ◌∷◌}
use Prim.Native.String.{String}
use native.Mathlib.Omega.{arith}
use text.Mathlib.Text.{◌==◌ as str_eq}
use text.Mathlib.TextEquality.{eq_iff}
use text.Mathlib.TextPositions.{eq_refl}
use hostingservices.Common.Tests.{if◌then◌else◌}

module _ {ℓ} {V : Type ℓ} where
  -- `map.get(key)`
  unfoldable pub lookup : String → List (String × V) → Option V
  lookup key [] = none
  lookup key ((other, value) ∷ entries) =
      if str_eq other key then some value else lookup key entries

  -- `map.set(key, value)`
  unfoldable pub insert : String → V → List (String × V) → List (String × V)
  insert key value [] = (key, value) ∷ []
  insert key value ((other, before) ∷ entries) =
      if str_eq other key
      then (key, value) ∷ entries
      else (other, before) ∷ insert key value entries

  -- `map.delete(key)`
  unfoldable pub remove : String → List (String × V) → List (String × V)
  remove key [] = []
  remove key ((other, value) ∷ entries) =
      if str_eq other key then remove key entries else (other, value) ∷ remove key entries

  -- After `set` the key has the value, and every other key what it had.
  pub lookup-insert :
      (key sought : String) (value : V) (entries : List (String × V))
      → lookup sought (insert key value entries)
        ≡ (if str_eq key sought then some value else lookup sought entries)
  unfolding lookup insert
  lookup-insert key sought value [] = refl
  lookup-insert key sought value ((other, before) ∷ entries) = ground (
    arith,
    eq_iff key sought,
    eq_iff other key,
    eq_iff other sought,
    lookup-insert key sought value entries,
  )

  pub lookup-insert_self :
      (key : String) (value : V) (entries : List (String × V))
      → lookup key (insert key value entries) ≡ some value
  lookup-insert_self key value entries = simp (lookup-insert, eq_refl)

  -- After `delete` the key is gone, and every other key has what it had.
  pub lookup-remove :
      (key sought : String) (entries : List (String × V))
      → lookup sought (remove key entries)
        ≡ (if str_eq key sought then none else lookup sought entries)
  unfolding lookup remove
  lookup-remove key sought [] = ground arith
  lookup-remove key sought ((other, value) ∷ entries) = ground (
    arith,
    eq_iff key sought,
    eq_iff other key,
    eq_iff other sought,
    lookup-remove key sought entries,
  )

  -- The values, in the order of `Map.prototype.values`.
  unfoldable pub values : List (String × V) → List V
  values [] = []
  values ((k, v) ∷ m) = v ∷ values m

pub str_ne : (a b : String) → str_eq a b ≡ false → a ≢ b
str_ne a b h e = ground (arith, eq_iff a b)
