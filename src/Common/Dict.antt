-- ===== src/Common/Dict.antt =====
-- A Go map with text keys, as an association list: an assignment writes in place or at the end.
-- Where the source ranges over a map, the order of the list is the order of the iteration.
use Prim.Native.String.{String}
use mathlib.Core.Path.{◌≡◌, refl}
use mathlib.Core.Logic.{inl, inr}
use mathlib.Core.Option.{Option, none, some}
use mathlib.Core.List.{List, [], ◌∷◌}
use native.Mathlib.Omega.{arith}
use text.Mathlib.TextEquality.{eq_iff}
use docker_go_sdk.Common.Tests.{str_eq, if◌then◌else◌, Bool-cases}

abbrev pub Dict {ℓ} : Type ℓ → Type ℓ
Dict V = List (String × V)

module _ {ℓ} {V : Type ℓ} where
  -- v, ok := m[k]
  unfoldable pub lookup : String → Dict V → Option V
  lookup k [] = none
  lookup k ((j, v) ∷ m) = if str_eq j k then some v else lookup k m

  -- m[k] = v
  unfoldable pub insert : String → V → Dict V → Dict V
  insert key value [] = (key, value) ∷ []
  insert key value ((present, old) ∷ entries) =
      let rest = insert key value entries in
      if str_eq present key then (key, value) ∷ entries else (present, old) ∷ rest

  -- delete(m, k)
  unfoldable pub remove : String → Dict V → Dict V
  remove k [] = []
  remove k ((j, w) ∷ m) = let rest = remove k m in if str_eq j k then rest else (j, w) ∷ rest

  -- maps.Copy(target, source)
  unfoldable pub copy : Dict V → Dict V → Dict V
  copy target [] = target
  copy target ((k, v) ∷ source) = copy (insert k v target) source

  -- After an assignment, the key has the new value and every other key what it had.
  pub lookup-insert :
      (key asked : String) (value : V) (entries : Dict V)
      → lookup asked (insert key value entries)
        ≡ (if str_eq key asked then some value else lookup asked entries)
  unfolding insert lookup
  lookup-insert key asked value [] = refl
  lookup-insert key asked value ((present, old) ∷ entries) = ground (
    arith,
    lookup-insert key asked value entries,
    eq_iff present asked,
    eq_iff present key,
    eq_iff key asked,
  )

  pub lookup-remove :
      (key asked : String) (entries : Dict V)
      → lookup asked (remove key entries)
        ≡ (if str_eq key asked then none else lookup asked entries)
  unfolding remove lookup
  lookup-remove key asked [] = ground arith
  lookup-remove key asked ((present, old) ∷ entries) = ground (
    arith,
    lookup-remove key asked entries,
    eq_iff present asked,
    eq_iff present key,
    eq_iff key asked,
  )

  -- The value of the last entry with the key, and otherwise the given one.
  unfoldable pub last_or : String → Dict V → Option V → Option V
  last_or k [] otherwise = otherwise
  last_or k ((j, v) ∷ m) otherwise = last_or k m (if str_eq j k then some v else otherwise)

  pub lookup-copy :
      (k : String) (m source : Dict V) → lookup k (copy m source) ≡ last_or k source (lookup k m)
  unfolding copy last_or
  lookup-copy k m [] = refl
  lookup-copy k m ((j, v) ∷ source) =
      rw (lookup-copy k (insert j v m) source, lookup-insert j k v m)

  -- No two entries have the same key, as in any Go map.
  unfoldable pub HasUniqueKeys : Dict V → Type ℓ
  unfolding lookup
  HasUniqueKeys [] = Unit
  HasUniqueKeys ((k, v) ∷ m) = (lookup k m ≡ none) × HasUniqueKeys m

  abbrev pub or_else : Option V → Option V → Option V
  or_else (some v) otherwise = some v
  or_else none otherwise = otherwise

  pub last_or-HasUniqueKeys :
      (k : String) (m : Dict V) (otherwise : Option V)
      → HasUniqueKeys m
      → last_or k m otherwise ≡ or_else (lookup k m) otherwise
  unfolding last_or HasUniqueKeys lookup
  last_or-HasUniqueKeys k [] otherwise u = refl
  last_or-HasUniqueKeys k ((j, v) ∷ m) otherwise (fresh, u) = elim (Bool-cases (str_eq j k)) [
    | inl q ↦ ground (arith, last_or-HasUniqueKeys k m (some v) u, eq_iff j k)
    | inr q ↦ rw q (last_or-HasUniqueKeys k m otherwise u)
  ]
