-- ===== src/State/Data.antt =====
-- state/state.go: the data that the controller keeps in an annotation of the node, its parser, and
-- the pair of that data and the world which an evaluation of a node changes.
use maintenance_controller.Base.{
  String, Option, ◌⊎◌, inl, inr, GoMap, nil_map, get, make_if_nil, Run, Outcome, str_eq, zoom,
  if◌then◌else◌,
}
use maintenance_controller.Errors.{Error, wrapped}
use maintenance_controller.GoTime.{Time}
use maintenance_controller.World.{World}

pub record ProfileData : Type 0 where
  pub transition : Time
  pub current : String
  pub previous : String

-- A value of the map Profiles is a pointer, and `none` is the nil pointer.
pub record Data : Type 0 where
  pub profiles : GoMap (Option ProfileData)
  pub notifications : GoMap Time

abbrev pub no_data : Data
no_data = record { profiles = nil_map; notifications = nil_map }

-- Package encoding/json on `Data`: the decoder with unknown fields refused, and json.Marshal.
pub record Codec : Type 0 where
  pub decode : String → Error ⊎ Data
  pub encode : Data → Error ⊎ String

abbrev pub make_notifications : Data → Data
make_notifications data' = record data' { notifications = make_if_nil data'.notifications }

abbrev decoded : Error ⊎ Data → Error ⊎ Data
decoded (inl err) = inl (wrapped "failed to parse json value in data annotation" err)
decoded (inr d) = inr (make_notifications d)

unfoldable pub parse_data : Codec → String → Error ⊎ Data
parse_data json text =
    if str_eq text "" then inr (make_notifications no_data) else decoded (json.decode text)

-- An entry of d.Profiles: none if the key is missing, some none if the pointer is nil.
abbrev pub profile_entry : Data → String → Option (Option ProfileData)
profile_entry d name = get d.profiles name

pub record Session (E : Type 0) : Type 0 where
  pub data_of : Data
  pub world : World E

abbrev pub in_world : {E A : Type 0} → Run (World E) A → Run (Session E) A
in_world = zoom (λ s. s.world) (λ w s. record s { world = w })

-- An assignment into a map of the data, which panics if the map is nil.
abbrev pub stored : {E A : Type 0} → (A → Data) → Outcome A → Run (Session E) (Unit {0})
stored f (Outcome.done a) s = (Outcome.done tt, record s { data_of = f a })
stored f Outcome.panicked s = (Outcome.panicked, s)
