-- ===== src/Prelude/TextMap.antt =====
-- `BTreeMap<String, V>`: its entries in the order of their keys.
use mathlib.Core.Path.{◌≡◌, refl}
use mathlib.Core.Option.{Option, none, some}
use mathlib.Core.List.{List, [], ◌∷◌}
use native.Mathlib.Omega.{arith}
use brolga.Prelude.Tests.{if◌then◌else◌}
use brolga.Prelude.Texts.{Text, text_eq, text_eq_iff}
use brolga.Prelude.TextOrder.{text_leb}

abbrev pub TextMap {ℓ} : Type ℓ → Type ℓ
TextMap V = List (Text × V)

module _ {ℓ} {V : Type ℓ} where
  unfoldable pub get : Text → TextMap V → Option V
  get k [] = none
  get k ((j, v) ∷ m) = if text_eq k j then some v else get k m

  unfoldable pub insert : Text → V → TextMap V → TextMap V
  insert k v [] = (k, v) ∷ []
  insert k v ((j, w) ∷ m) =
      if text_eq k j
      then (k, v) ∷ m
      else if text_leb k j
      then (k, v) ∷ (j, w) ∷ m
      else (j, w) ∷ insert k v m

  unfoldable pub remove : Text → TextMap V → TextMap V
  remove k [] = []
  remove k ((j, w) ∷ m) = if text_eq k j then remove k m else (j, w) ∷ remove k m

  pub get-insert :
      (j k : Text) (v : V) (m : TextMap V)
      → get j (insert k v m) ≡ (if text_eq j k then some v else get j m)
  unfolding get insert
  get-insert j k v [] = refl
  get-insert j k v ((i, w) ∷ m) =
      ground (arith, text_eq_iff j k, text_eq_iff k i, text_eq_iff j i, get-insert j k v m)

  pub get-remove :
      (j k : Text) (m : TextMap V) → get j (remove k m) ≡ (if text_eq j k then none else get j m)
  unfolding get remove
  get-remove j k [] = ground arith
  get-remove j k ((i, w) ∷ m) =
      ground (arith, text_eq_iff j k, text_eq_iff k i, text_eq_iff j i, get-remove j k m)
