-- ===== src/Base/Lists.antt =====
-- Lists measured by native numbers, and predicates on lists.
use Prim.Native.Nat.{ℕ, zero, suc, ◌+◌}
use Prim.Native.String.{String}
use mathlib.Core.Path.{◌≡◌, refl}
use mathlib.Core.Bool.{Bool, true, false, ◌||◌, ◌&&◌}
use mathlib.Core.Option.{Option, none, some}
use mathlib.Core.List.{List, [], ◌∷◌, ◌++◌, map}
use native.Mathlib.Omega.{arith}
use text.Mathlib.Text.{◌==◌ as str_eq}
use maintenance_controller.Base.Tests.{eq_self}

module _ {ℓ} {A : Type ℓ} where
  abbrev pub length : List A → ℕ
  length [] = 0
  length (x ∷ xs) = suc (length xs)

  abbrev pub get_elem? : List A → ℕ → Option A
  get_elem? [] i = none
  get_elem? (x ∷ xs) zero = some x
  get_elem? (x ∷ xs) (suc i) = get_elem? xs i

  -- Some element passes, every element passes: `slices.ContainsFunc` and its dual.
  abbrev pub any : (A → Bool) → List A → Bool
  any p [] = false
  any p (x ∷ xs) = p x || any p xs

  abbrev pub all : (A → Bool) → List A → Bool
  all p [] = true
  all p (x ∷ xs) = p x && all p xs

  pub length-append : (xs ys : List A) → length (xs ++ ys) ≡ length xs + length ys
  length-append [] ys = omega arith
  length-append (x ∷ xs) ys = omega (arith, length-append xs ys)

module _ {ℓ κ} {A : Type ℓ} (P : A → Type κ) where
  abbrev pub All : List A → Type κ
  All [] = Unit
  All (x ∷ xs) = P x × All xs

  pub All-append : (xs ys : List A) → All xs → All ys → All (xs ++ ys)
  All-append [] ys hx hy = hy
  All-append (x ∷ xs) ys hx hy = (hx.0, All-append xs ys hx.1 hy)

module _ {ℓ κ} {A : Type ℓ} {P Q : A → Type κ} where
  pub All-map : (xs : List A) → ((x : A) → P x → Q x) → All P xs → All Q xs
  All-map [] f h = h
  All-map (x ∷ xs) f h = (f x h.0, All-map xs f h.1)

pub any-congr {ℓ} :
    {A : Type ℓ} (f g : A → Bool) (xs : List A) → All (λ x. f x ≡ g x) xs → any f xs ≡ any g xs
any-congr f g [] h = refl
any-congr f g (x ∷ xs) h = cc (h.0, any-congr f g xs h.1)

-- slices.Contains on texts.
abbrev pub contains : List String → String → Bool
contains [] s = false
contains (t ∷ ts) s = str_eq t s || contains ts s

or-true_right : (a : Bool) {b : Bool} → b ≡ true → (a || b) ≡ true
or-true_right true h = refl
or-true_right false h = h

-- Every element's name is one of the names.
pub contains-map {ℓ} :
    {A : Type ℓ} (name : A → String) (xs : List A)
    → All (λ x. contains (map name xs) (name x) ≡ true) xs
contains-map name [] = tt
contains-map name (x ∷ xs) = (
  rw (eq_self (name x)),
  All-map xs (λ y h. or-true_right (str_eq (name x) (name y)) h) (contains-map name xs),
)
