-- ===== src/State/Labels.antt =====
-- state/state.go: the labels of the three states, and the value of the profile label.
-- A NodeStateLabel is a text, and the data on a node may hold one that is no state.
use Prim.Native.String.{◌++◌}
use maintenance_controller.Base.{String, Bool, ◌⊎◌, inl, inr, str_eq, contains, if◌then◌else◌}
use maintenance_controller.Base.Text.{split}
use maintenance_controller.Errors.{Error, message}

abbrev pub operational : String
operational = "operational"

abbrev pub required : String
required = "maintenance-required"

abbrev pub in_maintenance : String
in_maintenance = "in-maintenance"

abbrev pub profile_separator : String
profile_separator = "--"

-- constants.DefaultProfileName
abbrev pub default_profile_name : String
default_profile_name = "default"

unfoldable pub contains_profile : String → String → Bool
contains_profile all_profiles profile = contains (split all_profiles profile_separator) profile

unfoldable pub validate_label : String → Error ⊎ String
validate_label s =
    if str_eq s operational
    then inr operational
    else if str_eq s required
    then inr required
    else if str_eq s in_maintenance
    then inr in_maintenance
    else inl (message ("'" ++ (s ++ "' is not a valid NodeStateLabel")))
