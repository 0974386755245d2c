-- ===== src/Prelude/Tables.antt =====
-- Maps with texts as keys: association lists in the order in which a loop over the map visits them,
-- which Go leaves open.
use Prim.Native.Nat.{suc, ◌≤◌, ◌<◌}
use mathlib.Core.Path.{◌≡◌, refl}
use mathlib.Core.List.{List, [], ◌∷◌}
use mathlib.Core.Option.{Option, none, some}
use native.Mathlib.Omega.{arith}
use nexa_panel.Prelude.Tests.{if◌then◌else◌}
use nexa_panel.Prelude.Lists.{length}
use nexa_panel.Prelude.Texts.{Text, text_eq, text_eq_refl, text_eq_sound}

module _ {ℓ} {V : Type ℓ} where
  unfoldable pub lookup : Text → List (Text × V) → Option V
  lookup k [] = none
  lookup k ((j, v) ∷ m) = if text_eq j k then some v else lookup k m

  -- `m[k] = v`
  unfoldable pub insert : Text → V → List (Text × V) → List (Text × V)
  insert k v [] = (k, v) ∷ []
  insert k v ((j, w) ∷ m) = if text_eq j k then (k, v) ∷ m else (j, w) ∷ insert k v m

  -- `delete(m, k)`
  unfoldable pub delete : Text → List (Text × V) → List (Text × V)
  delete k [] = []
  delete k ((j, w) ∷ m) = if text_eq j k then delete k m else (j, w) ∷ delete k m

  pub lookup-insert :
      (k j : Text) (v : V) (m : List (Text × V))
      → lookup j (insert k v m) ≡ (if text_eq k j then some v else lookup j m)
  unfolding lookup insert
  lookup-insert k j v [] = refl
  lookup-insert k j v ((i, w) ∷ m) = ground (
    arith,
    text_eq_sound i k,
    text_eq_sound i j,
    text_eq_sound k j,
    text_eq_refl i,
    text_eq_refl k,
    lookup-insert k j v m,
  )

  pub length-insert-le :
      (k : Text) (v : V) (m : List (Text × V)) → length (insert k v m) ≤ suc (length m)
  unfolding insert
  length-insert-le k v [] = omega arith
  length-insert-le k v ((j, w) ∷ m) = ground (arith, length-insert-le k v m)

  -- A write to a key that is there does not grow the map.
  pub length-insert_old :
      (k : Text) (v : V) (m : List (Text × V)) {w : V}
      → lookup k m ≡ some w
      → length (insert k v m) ≡ length m
  unfolding insert lookup
  length-insert_old k v [] h = cc
  length-insert_old k v ((j, u) ∷ m) {w = w} h = ground (arith, length-insert_old k v m {w = w})

  pub length-delete-le : (k : Text) (m : List (Text × V)) → length (delete k m) ≤ length m
  unfolding delete
  length-delete-le k [] = omega arith
  length-delete-le k ((j, w) ∷ m) = ground (arith, length-delete-le k m)

  -- Deleting a key that is there shrinks the map.
  pub length-delete-lt :
      (k : Text) (m : List (Text × V)) {v : V}
      → lookup k m ≡ some v
      → length (delete k m) < length m
  unfolding delete lookup
  length-delete-lt k [] h = cc
  length-delete-lt k ((j, w) ∷ m) {v = v} h =
      ground (arith, length-delete-le k m, length-delete-lt k m {v = v})

  pub lookup-delete :
      (k j : Text) (m : List (Text × V))
      → lookup j (delete k m) ≡ (if text_eq k j then none else lookup j m)
  unfolding lookup delete
  lookup-delete k j [] = ground arith
  lookup-delete k j ((i, w) ∷ m) = ground (
    arith,
    text_eq_sound i k,
    text_eq_sound i j,
    text_eq_sound k j,
    text_eq_refl i,
    text_eq_refl k,
    lookup-delete k j m,
  )
