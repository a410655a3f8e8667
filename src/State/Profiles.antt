-- ===== src/State/Profiles.antt =====
-- state/state.go: profiles, and the per-profile data of a node.
use maintenance_controller.Base.{
  String, not, Option, none, some, List, [], ◌∷◌, Assoc, lookup, erase, GoMap, nil_map, made, put,
  make_if_nil, Run, Outcome, done, panicked, pure, ◌>>=◌, ◌>>◌, modify, str_eq, if◌then◌else◌,
}
use maintenance_controller.Base.Text.{split}
use maintenance_controller.GoTime.{Time}
use maintenance_controller.World.{Platform, on_ext}
use maintenance_controller.Plugin.Check.{CheckChain}
use maintenance_controller.Plugin.Trigger.{TriggerChain}
use maintenance_controller.Plugin.Notification.{NotificationChain}
use maintenance_controller.State.Labels.{
  operational, profile_separator, default_profile_name, contains_profile,
}
use maintenance_controller.State.Data.{ProfileData, Data, Session, profile_entry, in_world, stored}

pub record Transition (E : Type 0) : Type 0 where
  pub check : CheckChain E
  pub trigger : TriggerChain E
  pub next : String

pub record PluginChains (E : Type 0) : Type 0 where
  pub enter : TriggerChain E
  pub notification : NotificationChain E
  pub transitions : List (Transition E)

-- The zero value, which a missing key of Profile.Chains reads as.
abbrev pub no_chains : {E : Type 0} → PluginChains E
no_chains = record {
  enter = record { plugins = [] };
  notification = record { plugins = [] };
  transitions = [];
}

pub record Profile (E : Type 0) : Type 0 where
  pub name : String
  pub chains : Assoc (PluginChains E)

pub record ProfileState (E : Type 0) : Type 0 where
  pub profile : Profile E
  pub state : String

-- An empty label value stands for the default profile.
abbrev pub effective : String → String
effective profiles_str = if str_eq profiles_str "" then default_profile_name else profiles_str

-- The loop that collects toRemove.
unfoldable pub unused : String → Assoc (Option ProfileData) → List String
unused profiles_str [] = []
unused profiles_str ((name, d) ∷ m) =
    let rest = unused profiles_str m in
    if not (contains_profile profiles_str name) then name ∷ rest else rest

unfoldable pub erase_all : List String → Assoc (Option ProfileData) → Assoc (Option ProfileData)
erase_all [] m = m
erase_all (name ∷ names) m = erase_all names (erase name m)

abbrev pub over_entries : {V : Type 0} → (Assoc V → Assoc V) → GoMap V → GoMap V
over_entries f nil_map = nil_map
over_entries f (made m) = made (f m)

abbrev pub with_profiles : Data → GoMap (Option ProfileData) → Data
with_profiles d m = record d { profiles = m }

unfoldable pub cleaned : String → Data → Data
unfolding unused erase_all
cleaned profiles_str d =
    with_profiles d
      (over_entries (λ m. erase_all (unused profiles_str m) m) (make_if_nil d.profiles))

abbrev pub fresh : Time → ProfileData
fresh t = record { transition = t; current = operational; previous = operational }

-- d.Profiles[profile.Name].Current panics on a missing entry and on a nil pointer.
abbrev pub pointed : Option (Option ProfileData) → Outcome ProfileData
pointed none = panicked
pointed (some none) = panicked
pointed (some (some d)) = done d

abbrev pub cons_outcome : {A : Type 0} → A → Outcome (List A) → Outcome (List A)
cons_outcome x panicked = panicked
cons_outcome x (done xs) = done (x ∷ xs)

module _ {E : Type 0} where
  -- getProfiles, on the pieces of the label's value
  unfoldable pub select_profiles : List String → Assoc (Profile E) → List (Profile E)
  select_profiles [] available = []
  select_profiles (name ∷ names) available = elim (lookup name available) [
    | none ↦ select_profiles names available
    | some profile ↦ profile ∷ select_profiles names available
  ]

  unfoldable pub get_profiles : String → Assoc (Profile E) → List (Profile E)
  unfolding select_profiles
  get_profiles profiles_str available =
      select_profiles (split profiles_str profile_separator) available

  -- The body of the loop that initializes new states.
  unfoldable pub init_profile : Platform E → String → Run (Session E) (Unit {0})
  init_profile io name s = elim (profile_entry s.data_of name) [
    | some d ↦ pure tt s
    | none ↦
        (do
          t ← in_world (on_ext io.now)
          λ u. stored (with_profiles u.data_of) (put name (some (fresh t)) u.data_of.profiles) u)
          s
  ]

  unfoldable pub init_profiles : Platform E → List (Profile E) → Run (Session E) (Unit {0})
  init_profiles io [] = pure tt
  init_profiles io (p ∷ ps) = do init_profile io p.name; init_profiles io ps

  -- Data.MaintainProfileStates
  unfoldable pub maintain_profile_states :
      Platform E → String → Assoc (Profile E) → Run (Session E) (Unit {0})
  maintain_profile_states io profiles_str available = do
    modify (λ s. record s { data_of = cleaned (effective profiles_str) s.data_of })
    init_profiles io (get_profiles (effective profiles_str) available)

  unfoldable pub with_states : Data → List (Profile E) → Outcome (List (ProfileState E))
  with_states d [] = done []
  with_states d (p ∷ ps) = elim (pointed (profile_entry d p.name)) [
    | panicked ↦ panicked
    | done x ↦ cons_outcome (record { profile = p; state = x.current }) (with_states d ps)
  ]

  -- Data.GetProfilesWithState
  unfoldable pub get_profiles_with_state :
      Data → String → Assoc (Profile E) → Outcome (List (ProfileState E))
  unfolding with_states
  get_profiles_with_state d profiles_str available =
      with_states d (get_profiles (effective profiles_str) available)
