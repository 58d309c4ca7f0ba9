-- ===== src/Prelude/Maps.antt =====
-- A `HashMap<String, V>` as an association list: the program never depends on its order.
use toche.Prelude.Tests.{if◌then◌else◌}
use toche.Prelude.Texts.{Text, text_eq, text_eq_iff, text_eq_refl}
use mathlib.Core.Logic.{◌⊎◌, ◌≢◌}
use mathlib.Core.Path.{◌≡◌}
use mathlib.Core.Option.{Option, none, some}
use mathlib.Core.List.{List, [], ◌∷◌}
use native.Mathlib.Omega.{arith}

abbrev pub Map {ℓ} : Type ℓ → Type ℓ
Map V = List (Text × V)

module _ {ℓ} {V : Type ℓ} where
  unfoldable pub get : Text → Map V → Option V
  get k [] = none
  get k ((j, v) ∷ m) = if text_eq j k then some v else get k m

  unfoldable pub remove : Text → Map V → Map V
  remove k [] = []
  remove k ((j, v) ∷ m) = let rest = remove k m in if text_eq j k then rest else (j, v) ∷ rest

  unfoldable pub insert : Text → V → Map V → Map V
  insert k v m = (k, v) ∷ remove k m

  pub get-remove :
      (k j : Text) (m : Map V) → get j (remove k m) ≡ (if text_eq k j then none else get j m)
  unfolding get remove
  get-remove k j [] = ground arith
  get-remove k j ((i, v) ∷ m) =
      ground (arith, get-remove k j m, text_eq_iff i k, text_eq_iff i j, text_eq_iff k j)

  pub get-insert :
      (k j : Text) (v : V) (m : Map V)
      → get j (insert k v m) ≡ (if text_eq k j then some v else get j m)
  unfolding get insert
  get-insert k j v m = ground (arith, get-remove k j m)

  -- What a read of a changed map says of the map before.
  pub get-insert-cases :
      (k j : Text) (v x : V) (m : Map V)
      → get j (insert k v m) ≡ some x
      → ((k ≡ j) × (v ≡ x)) ⊎ ((k ≢ j) × (get j m ≡ some x))
  get-insert-cases k j v x m h = ground (arith, get-insert k j v m, text_eq_iff k j)

  pub get-remove-cases :
      (k j : Text) (x : V) (m : Map V) → get j (remove k m) ≡ some x → (k ≢ j) × (get j m ≡ some x)
  get-remove-cases k j x m h = ground (arith, get-remove k j m, text_eq_iff k j)

  pub get-insert_ne : (k j : Text) (v : V) (m : Map V) → k ≢ j → get j (insert k v m) ≡ get j m
  get-insert_ne k j v m h = ground (arith, get-insert k j v m, text_eq_iff k j)

  pub get-insert_self : (k : Text) (v : V) (m : Map V) → get k (insert k v m) ≡ some v
  get-insert_self k v m = ground (arith, get-insert k k v m, text_eq_refl k)

  pub get-remove_ne : (k j : Text) (m : Map V) → k ≢ j → get j (remove k m) ≡ get j m
  get-remove_ne k j m h = ground (arith, get-remove k j m, text_eq_iff k j)

  pub get-remove_self : (k : Text) (m : Map V) → get k (remove k m) ≡ none
  get-remove_self k m = ground (arith, get-remove k k m, text_eq_refl k)
