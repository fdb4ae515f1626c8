-- ===== src/Prelude/Maps.antt =====
-- `QHash`, `QMap` and `QJsonObject` with text keys, as association lists. The order of the entries
-- stands for the order in which the program happens to iterate.
use Prim.Native.String.{String}
use mathlib.Core.Path.{◌≡◌, refl}
use mathlib.Core.Bool.{Bool}
use mathlib.Core.Option.{Option, none, some}
use mathlib.Core.List.{List, [], ◌∷◌, map}
use native.Mathlib.Omega.{arith}
use text.Mathlib.Text.{◌==◌}
use text.Mathlib.TextEquality.{eq_iff}
use dde_file_manager_extensi.Prelude.Tests.{if◌then◌else◌, is_some}

abbrev pub Hash {ℓ} : Type ℓ → Type ℓ
Hash V = List (String × V)

module _ {ℓ} {V : Type ℓ} where
  unfoldable pub find : String → Hash V → Option V
  find k [] = none
  find k ((j, v) ∷ m) = if j == k then some v else find k m

  -- `m[k] = v` and `m.insert(k, v)`
  unfoldable pub insert : String → V → Hash V → Hash V
  insert k v [] = (k, v) ∷ []
  insert k v ((j, w) ∷ m) = if j == k then (k, v) ∷ m else (j, w) ∷ insert k v m

  -- `m.take(k)` and `m.remove(k)`, without the value
  unfoldable pub erase : String → Hash V → Hash V
  erase k [] = []
  erase k ((j, w) ∷ m) = let rest = erase k m in if j == k then rest else (j, w) ∷ rest

  -- `m.contains(k)`
  abbrev pub has_key : String → Hash V → Bool
  has_key k m = is_some (find k m)

  -- `m.value(k, d)`
  abbrev pub value_or : String → Hash V → V → V
  value_or k m d = elim (find k m) [ none ↦ d | some v ↦ v ]

  abbrev pub keys_of : Hash V → List String
  keys_of = map (λ e. e.0)

  pub find-insert :
      (k j : String) (v : V) (m : Hash V)
      → find j (insert k v m) ≡ (if k == j then some v else find j m)
  unfolding find insert
  find-insert k j v [] = refl
  find-insert k j v ((i, w) ∷ m) =
      ground (arith, eq_iff k j, eq_iff i k, eq_iff i j, find-insert k j v m)

  pub find-erase :
      (k j : String) (m : Hash V) → find j (erase k m) ≡ (if k == j then none else find j m)
  unfolding find erase
  find-erase k j [] = ground arith
  find-erase k j ((i, w) ∷ m) = ground (arith, eq_iff k j, eq_iff i k, eq_iff i j, find-erase k j m)

  -- No key twice.
  abbrev pub IsDistinct : Hash V → Type ℓ
  IsDistinct [] = Unit
  IsDistinct ((k, v) ∷ m) = (find k m ≡ none) × IsDistinct m
