-- ===== src/Base/Maps.antt =====
-- A Go map with string keys, as an association list with one entry for each key.
use mathlib.Core.Path.{◌≡◌, refl}
use mathlib.Core.List.{List, [], ◌∷◌, map}
use mathlib.Core.Option.{Option, none, some}
use native.Mathlib.Omega.{arith}
use andaime.Base.Tests.{if◌then◌else◌}
use andaime.Base.Strings.{Text, same, same_refl, same_iff}

abbrev pub Dict {ℓ} : Type ℓ → Type ℓ
Dict V = List (Text × V)

module _ {ℓ} {V : Type ℓ} where
  -- `m[k]` with its second result
  unfoldable pub lookup : Text → Dict V → Option V
  lookup k [] = none
  lookup k ((j, v) ∷ m) = if same j k then some v else lookup k m

  -- `m[k] = v`
  unfoldable pub insert : Text → V → Dict V → Dict V
  insert k v [] = (k, v) ∷ []
  insert k v ((j, w) ∷ m) = if same j k then (j, v) ∷ m else (j, w) ∷ insert k v m

  pub lookup-insert :
      (k j : Text) (v : V) (m : Dict V)
      → lookup j (insert k v m) ≡ (if same k j then some v else lookup j m)
  unfolding lookup insert
  lookup-insert k j v [] = refl
  lookup-insert k j v ((i, w) ∷ m) = ground (
    arith,
    same_iff k j,
    same_iff i k,
    same_iff i j,
    same_refl i,
    same_refl j,
    same_refl k,
    lookup-insert k j v m,
  )

  pub lookup-insert_self : (k : Text) (v : V) (m : Dict V) → lookup k (insert k v m) ≡ some v
  lookup-insert_self k v m = simp (lookup-insert, same_refl)

abbrev pub keys {ℓ} : {V : Type ℓ} → Dict V → List Text
keys = map λ e. e.0
