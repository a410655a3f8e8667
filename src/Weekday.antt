-- ===== src/Weekday.antt =====
-- common/weekday.go: the days of the week by name.
use Prim.Native.String.{◌++◌}
use maintenance_controller.Base.{
  ℕ, String, Option, none, some, List, [], ◌∷◌, ◌⊎◌, inl, inr, Assoc, if◌then◌else◌,
}
use maintenance_controller.Base.Letters.{lowers_to}
use maintenance_controller.Errors.{Error, message}

-- time.Sunday is 0.
abbrev weekday_map : Assoc ℕ
weekday_map =
    ("monday", 1)
    ∷ ("mon", 1)
    ∷ ("tuesday", 2)
    ∷ ("tue", 2)
    ∷ ("wednesday", 3)
    ∷ ("wed", 3)
    ∷ ("thursday", 4)
    ∷ ("thu", 4)
    ∷ ("friday", 5)
    ∷ ("fri", 5)
    ∷ ("saturday", 6)
    ∷ ("sat", 6)
    ∷ ("sunday", 0)
    ∷ ("sun", 0)
    ∷ []

-- WeekdayMap[strings.ToLower(s)]
abbrev find_weekday : String → Assoc ℕ → Option ℕ
find_weekday s [] = none
find_weekday s ((name, day) ∷ rest) = if lowers_to s name then some day else find_weekday s rest

unfoldable pub weekday_from_string : String → Error ⊎ ℕ
weekday_from_string s = elim (find_weekday s weekday_map) [
  | none ↦ inl (message ("'" ++ (s ++ "' is not a known weekday")))
  | some day ↦ inr day
]

-- The loops over the configured names, which end at the first unknown one.
abbrev pub cons_result : ℕ → Error ⊎ List ℕ → Error ⊎ List ℕ
cons_result d (inl err) = inl err
cons_result d (inr ds) = inr (d ∷ ds)

unfoldable pub weekdays_from_strings : List String → Error ⊎ List ℕ
unfolding weekday_from_string
weekdays_from_strings [] = inr []
weekdays_from_strings (s ∷ ss) =
    let rest = weekdays_from_strings ss in
    elim (weekday_from_string s) [ inl err ↦ inl err | inr d ↦ cons_result d rest ]
