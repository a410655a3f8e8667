-- ===== src/Base/Letters.antt =====
-- strings.ToLower and time.Parse("15:04", …), on the code points of a text.
use Prim.Native.Nat.{ℕ, ◌+◌, ◌-◌, ◌*◌}
use Prim.Native.Char.{code}
use Prim.Native.String.{String}
use mathlib.Core.Path.{◌≡◌, refl}
use mathlib.Core.Bool.{Bool, true, false, ◌&&◌}
use mathlib.Core.Option.{Option, none, some}
use mathlib.Core.List.{List, [], ◌∷◌}
use maintenance_controller.Base.Tests.{leb, ltb, ◌==◌, if◌then◌else◌}

-- unicode.ToLower, as far as the result is an ASCII letter: two letters outside of ASCII, İ and the
-- sign of Kelvin, have one. Every other letter stays as it is here.
abbrev lower_code : ℕ → ℕ
lower_code c =
    if leb 65 c && leb c 90 then c + 32 else if c == 304 then 105 else if c == 8490 then 107 else c

abbrev codes : String → List ℕ
codes String.[] = []
codes (String.◌∷◌ c s) = code c ∷ codes s

abbrev same_lower : List ℕ → List ℕ → Bool
same_lower [] [] = true
same_lower [] (d ∷ ds) = false
same_lower (c ∷ cs) [] = false
same_lower (c ∷ cs) (d ∷ ds) = lower_code c == d && same_lower cs ds

-- strings.ToLower(s) == name, for an ASCII text `name`
unfoldable pub lowers_to : String → String → Bool
lowers_to s name = same_lower (codes s) (codes name)

abbrev is_digit : ℕ → Bool
is_digit c = leb 48 c && leb c 57

abbrev minute : ℕ
minute = 60_000_000_000

-- Two digits of a minute, and nothing after them.
abbrev read_minute : ℕ → List ℕ → Option ℕ
read_minute hour (a ∷ b ∷ []) =
    if is_digit a && (is_digit b && (ltb hour 24 && ltb ((a - 48) * 10 + (b - 48)) 60))
    then some ((hour * 60 + (a - 48) * 10 + (b - 48)) * minute)
    else none
read_minute hour [] = none
read_minute hour (a ∷ []) = none
read_minute hour (a ∷ b ∷ c ∷ cs) = none

abbrev read_colon : ℕ → List ℕ → Option ℕ
read_colon hour [] = none
read_colon hour (c ∷ cs) = if c == 58 then read_minute hour cs else none

abbrev read_clock : List ℕ → Option ℕ
read_clock [] = none
read_clock (a ∷ []) = none
read_clock (a ∷ b ∷ cs) =
    if is_digit a
    then if is_digit b
      then read_colon ((a - 48) * 10 + (b - 48)) cs
      else read_colon (a - 48) (b ∷ cs)
    else none

-- time.Parse("15:04", s): one or two digits of an hour and two of a minute, on the day 0000-01-01.
unfoldable pub parse_clock : String → Option ℕ
parse_clock s = read_clock (codes s)

lower_monday : lowers_to "MonDay" "monday" ≡ true
unfolding lowers_to
lower_monday = refl

nine_thirty : parse_clock "9:30" ≡ some 34_200_000_000_000
unfolding parse_clock
nine_thirty = refl

no_hour : parse_clock "24:00" ≡ none
unfolding parse_clock
no_hour = refl
