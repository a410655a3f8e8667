-- ===== src/Base/Maps.antt =====
-- Go maps with text keys. A nil map reads as an empty one, and a write into it panics.
use Prim.Native.String.{String}
use mathlib.Core.Path.{◌≡◌, refl}
use mathlib.Core.Option.{Option, none, some}
use mathlib.Core.List.{[]}
use maintenance_controller.Base.Entries.{Assoc, lookup, insert, erase}
use maintenance_controller.Base.Runs.{Outcome, done, panicked}

pub data GoMap {ℓ} (V : Type ℓ) : Type ℓ where
  nil_map : GoMap V
  made : Assoc V → GoMap V

module _ {ℓ} {V : Type ℓ} where
  abbrev pub entries : GoMap V → Assoc V
  entries nil_map = []
  entries (made m) = m

  abbrev pub get : GoMap V → String → Option V
  get m k = lookup k (entries m)

  -- delete(m, k), which does nothing to a nil map
  abbrev pub delete : String → GoMap V → GoMap V
  delete k nil_map = nil_map
  delete k (made m) = made (erase k m)

  -- m[k] = v
  abbrev pub put : String → V → GoMap V → Outcome (GoMap V)
  put k v nil_map = panicked
  put k v (made m) = done (made (insert k v m))

  -- if m == nil { m = make(…) }
  abbrev pub make_if_nil : GoMap V → GoMap V
  make_if_nil nil_map = made []
  make_if_nil (made m) = made m

  abbrev pub or_else : Option V → V → V
  or_else none d = d
  or_else (some v) d = v

  pub entries-make_if_nil : (m : GoMap V) → entries (make_if_nil m) ≡ entries m
  entries-make_if_nil nil_map = refl
  entries-make_if_nil (made m) = refl
