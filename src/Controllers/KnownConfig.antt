-- ===== src/Controllers/KnownConfig.antt =====
-- A configuration that loads has transitions to states only.
use maintenance_controller.Base.{
  String, true, List, [], ◌∷◌, ◌≡◌, refl, ◌⊎◌, inl, inr, Assoc, lookup, insert, lookup-insert,
  or_else, Bool-cases, str_eq,
}
use mathlib.Core.Path.{subst}
use maintenance_controller.Errors.{Error}
use maintenance_controller.Plugin.Registry.{
  Toolkit, Registry, new_registry, and_then, load_instances,
}
use maintenance_controller.Plugin.Assembly.{
  new_check_chain, new_notification_chain, new_trigger_chain,
}
use maintenance_controller.State.Labels.{
  operational, required, in_maintenance, default_profile_name, validate_label,
}
use maintenance_controller.State.Profiles.{PluginChains, no_chains, Profile}
use maintenance_controller.State.Known.{is_state, targets_known, HasKnownTargets, HasKnownProfiles}
use maintenance_controller.Controllers.Handler.{Config}
use maintenance_controller.Controllers.Configuration.{
  TransitionDescriptor, StateDescriptor, ProfileDescriptor, ConfigDescriptor, Plugins,
  add_plugins_to_registry, profile_of, load_transition, load_transitions, load_plugin_chains,
  load_profile, load_each_profile, load_profiles, load_config,
}

-- What holds of the value, if it was computed without an error.
abbrev Loads {ℓ} : {A : Type ℓ} → (A → Type 0) → Error ⊎ A → Type 0
Loads P (inl err) = Unit
Loads P (inr a) = P a

Loads-with :
    {A B : Type 0} (Q : A → Type 0) (P : B → Type 0) (r : Error ⊎ A) (f : A → Error ⊎ B)
    → Loads Q r
    → ((a : A) → Q a → Loads P (f a))
    → Loads P (and_then r f)
Loads-with Q P (inl err) f h k = tt
Loads-with Q P (inr a) f h k = k a h

-- The rest of a computation, whatever its first part gives.
Loads-then :
    {A B : Type 0} (P : B → Type 0) (r : Error ⊎ A) (f : A → Error ⊎ B)
    → ((a : A) → Loads P (f a))
    → Loads P (and_then r f)
Loads-then P (inl err) f h = tt
Loads-then P (inr a) f h = h a

Loads-at : {A : Type 0} (P : A → Type 0) (r : Error ⊎ A) (a : A) → Loads P r → r ≡ inr a → P a
Loads-at P r a h e = subst (Loads P) e h

validate_label-is_state : (s : String) → Loads (λ next. is_state next ≡ true) (validate_label s)
unfolding validate_label
validate_label-is_state s = elim (Bool-cases (str_eq s operational)) [
  | inl a ↦ rw a refl
  | inr a ↦ elim (Bool-cases (str_eq s required)) [
    | inl b ↦ rw (a, b) refl
    | inr b ↦ elim (Bool-cases (str_eq s in_maintenance)) [
      | inl c ↦ rw (a, b, c) refl
      | inr c ↦ rw (a, b, c) tt
    ]
  ]
]

abbrev KnownChains : {E : Type 0} → Assoc (PluginChains E) → Type 0
KnownChains m = (k : String) → targets_known (or_else (lookup k m) no_chains).transitions ≡ true

insert-KnownChains :
    {E : Type 0} (name : String) (c : PluginChains E) (m : Assoc (PluginChains E))
    → targets_known c.transitions ≡ true
    → KnownChains m
    → KnownChains (insert name c m)
insert-KnownChains name c m h known k = elim (Bool-cases (str_eq name k)) [
  | inl y ↦ rw (lookup-insert name k c m, y) h
  | inr n ↦ rw (lookup-insert name k c m, n) (known k)
]

insert-HasKnownProfiles :
    {E : Type 0} (name : String) (p : Profile E) (m : Assoc (Profile E))
    → HasKnownTargets p
    → HasKnownProfiles m
    → HasKnownProfiles (insert name p m)
insert-HasKnownProfiles name p m h known k = elim (Bool-cases (str_eq name k)) [
  | inl y ↦ rw (lookup-insert name k p m, y, HasKnownTargets) h
  | inr n ↦ rw (lookup-insert name k p m, n, HasKnownTargets) (known k)
]

profile_of-HasKnownTargets :
    {E : Type 0} (name : String) (o q m : PluginChains E)
    → targets_known o.transitions ≡ true
    → targets_known q.transitions ≡ true
    → targets_known m.transitions ≡ true
    → HasKnownTargets (profile_of name o q m)
unfolding lookup
profile_of-HasKnownTargets name o q m h i j =
    insert-KnownChains in_maintenance m _ j
      (insert-KnownChains required q _ i (insert-KnownChains operational o [] h (λ k. refl)))

module _ {E Raw Conf : Type 0} (kit : Toolkit Raw Conf) (r : Registry E Conf) where
  load_transition-is_state :
      (d : TransitionDescriptor) → Loads (λ t. is_state t.next ≡ true) (load_transition kit r d)
  load_transition-is_state d = Loads-then _ (new_check_chain kit r d.check) _ (λ check.
      Loads-then _ (new_trigger_chain r d.trigger) _ (λ trigger.
        Loads-with (λ next. is_state next ≡ true) _ (validate_label d.next) _
          (validate_label-is_state d.next) (λ next h. h)))

  load_transitions-Known :
      (ds : List TransitionDescriptor)
      → Loads (λ ts. targets_known ts ≡ true) (load_transitions kit r ds)
  unfolding load_transitions
  load_transitions-Known [] = refl
  load_transitions-Known (d ∷ ds) =
      Loads-with (λ t. is_state t.next ≡ true) _ (load_transition kit r d) _
        (load_transition-is_state d)
        (λ t h.
          Loads-with (λ ts. targets_known ts ≡ true) _ (load_transitions kit r ds) _
            (load_transitions-Known ds) (λ ts k. rw h k))

  load_plugin_chains-Known :
      (d : StateDescriptor)
      → Loads (λ c. targets_known c.transitions ≡ true) (load_plugin_chains kit r d)
  unfolding load_plugin_chains
  load_plugin_chains-Known d = Loads-then _ (new_notification_chain r d.notify) _ (λ n.
      Loads-then _ (new_trigger_chain r d.enter) _ (λ t.
        Loads-with (λ ts. targets_known ts ≡ true) _ (load_transitions kit r d.transitions) _
          (load_transitions-Known d.transitions) (λ ts h. h)))

  load_profile-Known : (d : ProfileDescriptor) → Loads HasKnownTargets (load_profile kit r d)
  unfolding load_profile
  load_profile-Known d =
      Loads-with (λ c. targets_known c.transitions ≡ true) _
        (load_plugin_chains kit r d.operational) _ (load_plugin_chains-Known d.operational)
        (λ o h.
          Loads-with (λ c. targets_known c.transitions ≡ true) _
            (load_plugin_chains kit r d.maintenance_required) _
            (load_plugin_chains-Known d.maintenance_required)
            (λ q i.
              Loads-with (λ c. targets_known c.transitions ≡ true) _
                (load_plugin_chains kit r d.in_maintenance) _
                (load_plugin_chains-Known d.in_maintenance)
                (λ m j. profile_of-HasKnownTargets d.name o q m h i j)))

  load_each_profile-Known :
      (ds : List ProfileDescriptor) (m : Assoc (Profile E))
      → HasKnownProfiles m
      → Loads HasKnownProfiles (load_each_profile kit r ds m)
  unfolding load_each_profile
  load_each_profile-Known [] m known = known
  load_each_profile-Known (d ∷ ds) m known =
      Loads-with HasKnownTargets _ (load_profile kit r d) _ (load_profile-Known d) (λ p h.
        load_each_profile-Known ds (insert d.name p m) (insert-HasKnownProfiles d.name p m h known))

  load_profiles-Known :
      (ds : List ProfileDescriptor) → Loads HasKnownProfiles (load_profiles kit r ds)
  unfolding load_profiles lookup
  load_profiles-Known ds = load_each_profile-Known ds _ (
      insert-HasKnownProfiles default_profile_name _ []
        (profile_of-HasKnownTargets default_profile_name no_chains no_chains no_chains refl refl
          refl)
        none_yet)
    where
      none_yet : HasKnownProfiles {E = E} []
      none_yet name k = refl

-- If a configuration loads, each transition of each of its profiles leads to one of the three states.
pub load_config-HasKnownProfiles :
    {E Raw Conf : Type 0} (kit : Toolkit Raw Conf) (plugins : Plugins E Conf)
    (d : ConfigDescriptor Raw) (config : Config E)
    → load_config kit plugins d ≡ inr config
    → HasKnownProfiles config.profiles
unfolding load_config
load_config-HasKnownProfiles kit plugins d config e =
    Loads-at (λ c. HasKnownProfiles c.profiles) (load_config kit plugins d) config
      (Loads-then _ (load_instances kit d.instances (add_plugins_to_registry plugins new_registry))
        _
        (λ r.
          Loads-with HasKnownProfiles _ (load_profiles kit r d.profiles) _
            (load_profiles-Known kit r d.profiles) (λ profiles h. h)))
      e
