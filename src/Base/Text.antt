-- ===== src/Base/Text.antt =====
-- The functions of Go's package strings that the program calls.
use Prim.Native.Nat.{ℕ, zero, suc, ◌-◌, ◌/◌, ◌%◌, ◌≤◌}
use Prim.Native.Char.{Char, code}
use Prim.Native.String.{String, ◌++◌, count}
use mathlib.Core.Path.{◌≡◌, refl}
use mathlib.Core.Bool.{true, false}
use mathlib.Core.Option.{Option, none, some}
use mathlib.Core.List.{List, [], ◌∷◌}
use text.Mathlib.Text.{starts_with}
use mathlib.Core.Logic.{inl, inr}
use native.Mathlib.Omega.{arith}
use maintenance_controller.Base.Tests.{◌==◌, ltb, if◌then◌else◌, Bool-cases}

-- `skip` characters of a separator that was found are still to be passed over, and `piece` is
-- what stands since the last separator.
split_from : String → ℕ → String → String → List String
split_from sep skip piece String.[] = piece ∷ []
split_from sep (suc skip) piece (String.◌∷◌ c s) = split_from sep skip piece s
split_from sep zero piece (String.◌∷◌ c s) = elim (starts_with (String.◌∷◌ c s) sep) [
  | true ↦ piece ∷ split_from sep (count sep - 1) "" s
  | false ↦ split_from sep zero (piece ++ String.◌∷◌ c "") s
]

-- strings.Split(s, sep), at a separator that is not empty
unfoldable pub split : String → String → List String
unfolding split_from
split s sep = split_from sep zero "" s

concat : List String → String
concat [] = ""
concat (s ∷ ss) = s ++ concat ss

-- strings.ReplaceAll(s, sep, "")
unfoldable pub remove_all : String → String → String
unfolding split concat
remove_all s sep = concat (split s sep)

-- The pieces with a text between them.
join : String → List String → String
join new [] = ""
join new (s ∷ []) = s
join new (s ∷ (t ∷ ts)) = s ++ (new ++ join new (t ∷ ts))

-- strings.ReplaceAll(s, sep, new), at a separator that is not empty
unfoldable pub replace_all : String → String → String → String
unfolding split join
replace_all s sep new = join new (split s sep)

-- s[len(s)-1:], which panics on the empty text; for a text of ASCII
unfoldable pub last_char : String → Option String
last_char String.[] = none
last_char (String.◌∷◌ c String.[]) = some (String.◌∷◌ c "")
last_char (String.◌∷◌ c (String.◌∷◌ d s)) = last_char (String.◌∷◌ d s)

-- s[1:], which panics on the empty text; for a text of ASCII
unfoldable pub drop_first : String → Option String
drop_first String.[] = none
drop_first (String.◌∷◌ c s) = some s

digit : ℕ → String
digit n =
    if n == 0
    then "0"
    else if n == 1
    then "1"
    else if n == 2
    then "2"
    else if n == 3
    then "3"
    else if n == 4
    then "4"
    else if n == 5
    then "5"
    else if n == 6
    then "6"
    else if n == 7
    then "7"
    else if n == 8
    then "8"
    else "9"

-- The digits of a number below 10 ^ suc fuel.
digits : ℕ → ℕ → String
digits zero n = digit n
digits (suc fuel) n = elim (ltb n 10) [
  | true ↦ digit n
  | false ↦ digits fuel (n / 10) ++ digit (n % 10)
]

-- A number printed by %v.
unfoldable pub decimal : ℕ → String
unfolding digits digit
decimal n = digits n n

-- One more round changes nothing once the fuel is the number.
digits_enough : (fuel n : ℕ) → n ≤ fuel → digits (suc fuel) n ≡ digits fuel n
unfolding digits
digits_enough zero n h = ground arith
digits_enough (suc fuel) n h = elim (Bool-cases (ltb n 10)) [
  | inl y ↦ rw (y, digits) refl
  | inr k ↦ rw (k, digits) (rw (digits_enough fuel (n / 10) (omega arith)) refl)
]

decimal_of : decimal 2048 ≡ "2048"
unfolding decimal
decimal_of = refl

trim_left : String → String
trim_left String.[] = ""
trim_left (String.◌∷◌ c s) = elim (code c == b' ') [ true ↦ trim_left s | false ↦ String.◌∷◌ c s ]

append_trimmed : Char → String → String
append_trimmed c String.[] = elim (code c == b' ') [ true ↦ "" | false ↦ String.◌∷◌ c "" ]
append_trimmed c (String.◌∷◌ d s) = String.◌∷◌ c (String.◌∷◌ d s)

trim_right : String → String
trim_right String.[] = ""
trim_right (String.◌∷◌ c s) = append_trimmed c (trim_right s)

-- strings.Trim(s, " ")
unfoldable pub trim_spaces : String → String
unfolding trim_left trim_right append_trimmed
trim_spaces s = trim_right (trim_left s)

split_profiles : split "a--b---c--" "--" ≡ "a" ∷ "b" ∷ "-c" ∷ "" ∷ []
unfolding split
split_profiles = refl

split_empty : split "" "--" ≡ "" ∷ []
unfolding split
split_empty = refl

replace_zone : replace_all "https://vc-$AZ.example/sdk" "$AZ" "a" ≡ "https://vc-a.example/sdk"
unfolding replace_all
replace_zone = refl

last_of_domain : last_char "qa-de-1d" ≡ some "d"
unfolding last_char
last_of_domain = refl

remove_parentheses : remove_all "(a && b)" "(" ≡ "a && b)"
unfolding remove_all
remove_parentheses = refl

trim_both : trim_spaces "  a b " ≡ "a b"
unfolding trim_spaces
trim_both = refl
