-- ===== src/Base/Dict.antt =====
-- Go maps keyed by strings, as association lists. A key that is missing is `none`.
use maboo.Base.Tests.{str_eq, str_eq_iff, if◌then◌else◌}
use Prim.Native.String.{String}
use mathlib.Core.Path.{◌≡◌, refl}
use mathlib.Core.Option.{Option, none, some}
use mathlib.Core.List.{List, [], ◌∷◌}
use native.Mathlib.Omega.{arith}

abbrev pub Dict {ℓ} : Type ℓ → Type ℓ
Dict V = List (String × V)

module _ {ℓ} {V : Type ℓ} where
  -- `v, ok := m[k]`
  unfoldable pub lookup : String → Dict V → Option V
  lookup k [] = none
  lookup k ((j, v) ∷ m) = if str_eq j k then some v else lookup k m

  -- `m[k] = v`
  unfoldable pub insert : String → V → Dict V → Dict V
  insert k v [] = (k, v) ∷ []
  insert k v ((j, w) ∷ m) = if str_eq j k then (k, v) ∷ m else (j, w) ∷ insert k v m

  -- `delete(m, k)`
  unfoldable pub delete : String → Dict V → Dict V
  delete k [] = []
  delete k ((j, w) ∷ m) = if str_eq j k then delete k m else (j, w) ∷ delete k m

  -- `range m`, the keys.
  unfoldable pub keys : Dict V → List String
  keys [] = []
  keys ((k, v) ∷ m) = k ∷ keys m

  pub lookup-insert :
      (k j : String) (v : V) (m : Dict V)
      → lookup j (insert k v m) ≡ (if str_eq k j then some v else lookup j m)
  unfolding lookup insert
  lookup-insert k j v [] = refl
  lookup-insert k j v ((i, w) ∷ m) =
      ground (arith, str_eq_iff k j, str_eq_iff i k, str_eq_iff i j, lookup-insert k j v m)

  pub lookup-delete :
      (k j : String) (m : Dict V)
      → lookup j (delete k m) ≡ (if str_eq k j then none else lookup j m)
  unfolding lookup delete
  lookup-delete k j [] = ground arith
  lookup-delete k j ((i, w) ∷ m) =
      ground (arith, str_eq_iff k j, str_eq_iff i k, str_eq_iff i j, lookup-delete k j m)

  -- No key stands twice, as in a Go map.
  abbrev pub Uniq : Dict V → Type ℓ
  Uniq [] = Unit {ℓ}
  Uniq ((k, v) ∷ m) = (lookup k m ≡ none) × Uniq m

  pub insert-Uniq : (k : String) (v : V) (m : Dict V) → Uniq m → Uniq (insert k v m)
  unfolding insert lookup
  insert-Uniq k v [] u = (refl, tt)
  insert-Uniq k v ((j, w) ∷ m) u =
      ground (arith, str_eq_iff j k, str_eq_iff k j, lookup-insert k j v m, insert-Uniq k v m u.1)

  pub delete-Uniq : (k : String) (m : Dict V) → Uniq m → Uniq (delete k m)
  unfolding delete
  delete-Uniq k [] u = tt
  delete-Uniq k ((j, w) ∷ m) u =
      ground (arith, str_eq_iff j k, str_eq_iff k j, lookup-delete k j m, delete-Uniq k m u.1)

  pub lookup-none : (k : String) → lookup k [] ≡ none
  unfolding lookup
  lookup-none k = refl
