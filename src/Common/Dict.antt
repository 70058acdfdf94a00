-- ===== src/Common/Dict.antt =====
-- Maps from texts, such as `std::unordered_map<std::string, T>`, as lists of entries.
use Prim.Native.Nat.{suc}
use mathlib.Core.Path.{◌≡◌, refl}
use mathlib.Core.Bool.{Bool, false, ◌||◌}
use mathlib.Core.Option.{Option, none, some}
use mathlib.Core.List.{List, [], ◌∷◌}
use native.Mathlib.Omega.{arith}
use eestv_lib.Common.Tests.{if◌then◌else◌}
use eestv_lib.Common.Lists.{length}
use eestv_lib.Common.Text.{Text, text_eq, text_eq_iff}

abbrev pub Dict {ℓ} : Type ℓ → Type ℓ
Dict V = List (Text × V)

module _ {ℓ} {V : Type ℓ} where
  unfoldable pub lookup : Text → Dict V → Option V
  lookup k [] = none
  lookup k ((j, v) ∷ d) = if text_eq k j then some v else lookup k d

  -- `d[k] = v`
  unfoldable pub insert : Text → V → Dict V → Dict V
  insert k v [] = (k, v) ∷ []
  insert k v ((j, w) ∷ d) = if text_eq k j then (k, v) ∷ d else (j, w) ∷ insert k v d

  -- `d.find(k) != d.end()`
  unfoldable pub contains : Text → Dict V → Bool
  contains k [] = false
  contains k ((j, v) ∷ d) = text_eq k j || contains k d

  pub lookup-insert :
      (j k : Text) (v : V) (d : Dict V)
      → lookup j (insert k v d) ≡ (if text_eq j k then some v else lookup j d)
  unfolding lookup insert
  lookup-insert j k v [] = refl
  lookup-insert j k v ((i, w) ∷ d) =
      ground (arith, lookup-insert j k v d, text_eq_iff j k, text_eq_iff k i, text_eq_iff j i)

  pub contains-insert :
      (j k : Text) (v : V) (d : Dict V) → contains j (insert k v d) ≡ (text_eq j k || contains j d)
  unfolding contains insert
  contains-insert j k v [] = refl
  contains-insert j k v ((i, w) ∷ d) =
      ground (arith, contains-insert j k v d, text_eq_iff j k, text_eq_iff k i, text_eq_iff j i)

  pub length-insert :
      (k : Text) (v : V) (d : Dict V)
      → length (insert k v d) ≡ (if contains k d then length d else suc (length d))
  unfolding contains insert
  length-insert k v [] = refl
  length-insert k v ((i, w) ∷ d) = ground (arith, length-insert k v d)

  pub lookup-contains : (k : Text) (d : Dict V) → contains k d ≡ false → lookup k d ≡ none
  unfolding contains lookup
  lookup-contains k [] h = refl
  lookup-contains k ((i, w) ∷ d) h = ground (arith, lookup-contains k d)
