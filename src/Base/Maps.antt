-- ===== src/Base/Maps.antt =====
-- `HashMap<String, V>` as an association list, and `HashSet<String>` as a list of its members.
use mathlib.Core.Path.{◌≡◌, refl}
use mathlib.Core.Bool.{Bool, false, ◌||◌}
use mathlib.Core.Option.{Option, none, some}
use mathlib.Core.List.{List, [], ◌∷◌}
use native.Mathlib.Omega.{arith}
use craftsec.Base.Tests.{if◌then◌else◌}
use craftsec.Base.Bytes.{Text, text_eq, text_eq_iff}

module _ {ℓ} {V : Type ℓ} where
  unfoldable pub lookup : Text → List (Text × V) → Option V
  lookup k [] = none
  lookup k ((j, v) ∷ m) = if text_eq j k then some v else lookup k m

  unfoldable pub insert : Text → V → List (Text × V) → List (Text × V)
  insert k v [] = (k, v) ∷ []
  insert k v ((j, w) ∷ m) = if text_eq j k then (k, v) ∷ m else (j, w) ∷ insert k v m

  pub lookup-insert :
      (k j : Text) (v : V) (m : List (Text × V))
      → lookup j (insert k v m) ≡ (if text_eq k j then some v else lookup j m)
  unfolding lookup insert
  lookup-insert k j v [] = refl
  lookup-insert k j v ((i, w) ∷ m) =
      ground (arith, text_eq_iff k j, text_eq_iff i k, text_eq_iff i j, lookup-insert k j v m)

unfoldable pub contains : Text → List Text → Bool
contains k [] = false
contains k (j ∷ m) = text_eq j k || contains k m

unfoldable pub add : Text → List Text → List Text
add k m = k ∷ m

pub contains-add :
    (k j : Text) (m : List Text) → contains j (add k m) ≡ (text_eq k j || contains j m)
unfolding contains add
contains-add k j m = refl
