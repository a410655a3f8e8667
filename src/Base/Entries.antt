-- ===== src/Base/Entries.antt =====
-- The entries of a Go map with text keys, as an association list. The order of the entries stands
-- for nothing: Go iterates over a map in any order.
use Prim.Native.String.{String}
use mathlib.Core.Path.{◌≡◌, refl}
use mathlib.Core.Option.{Option, none, some}
use mathlib.Core.List.{List, [], ◌∷◌}
use native.Mathlib.Omega.{arith}
use text.Mathlib.Text.{◌==◌ as str_eq}
use text.Mathlib.TextEquality.{eq_iff}
use maintenance_controller.Base.Tests.{if◌then◌else◌}

abbrev pub Assoc {ℓ} : Type ℓ → Type ℓ
Assoc V = List (String × V)

module _ {ℓ} {V : Type ℓ} where
  unfoldable pub lookup : String → Assoc V → Option V
  lookup name [] = none
  lookup name ((key, val) ∷ m) =
      let rest = lookup name m in if str_eq key name then some val else rest

  unfoldable pub erase : String → Assoc V → Assoc V
  erase name [] = []
  erase name ((key, val) ∷ m) =
      let rest = erase name m in if str_eq key name then rest else (key, val) ∷ rest

  unfoldable pub insert : String → V → Assoc V → Assoc V
  insert name new [] = (name, new) ∷ []
  insert name new ((key, val) ∷ m) =
      let rest = insert name new m in if str_eq key name then (name, new) ∷ m else (key, val) ∷ rest

  pub lookup-nil : (name : String) → lookup name [] ≡ none
  unfolding lookup
  lookup-nil name = refl

  pub lookup-erase :
      (gone name : String) (m : Assoc V)
      → lookup name (erase gone m) ≡ (if str_eq gone name then none else lookup name m)
  unfolding erase lookup
  lookup-erase gone name [] = ground arith
  lookup-erase gone name ((key, val) ∷ m) =
      ground (arith, lookup-erase gone name m, eq_iff gone name, eq_iff key gone, eq_iff key name)

  pub lookup-insert :
      (name other : String) (new : V) (m : Assoc V)
      → lookup other (insert name new m) ≡ (if str_eq name other then some new else lookup other m)
  unfolding insert lookup
  lookup-insert name other new [] = refl
  lookup-insert name other new ((key, val) ∷ m) =
      ground (
        arith,
        eq_iff key other,
        eq_iff key name,
        eq_iff name other,
        lookup-insert name other new m,
      )
