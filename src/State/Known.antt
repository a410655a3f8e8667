-- ===== src/State/Known.antt =====
-- Which texts are states, and that Apply leads from a state to a state.
use maintenance_controller.Base.{
  String, Bool, true, ◌||◌, Option, none, some, List, [], ◌∷◌, map, ◌≡◌, refl, inl, inr, Assoc,
  lookup, all, or_else, arith, str_eq, eq_iff, Bool-cases,
}
use maintenance_controller.Errors.{Error}
use maintenance_controller.World.{Parameters, Platform}
use maintenance_controller.State.Labels.{operational, required, in_maintenance}
use maintenance_controller.State.Data.{ProfileData, Data, profile_entry}
use maintenance_controller.State.Profiles.{Transition, PluginChains, no_chains, Profile}
use maintenance_controller.State.Transition.{TransitionResult}
use maintenance_controller.State.Apply.{
  NodeState, is_operational, maintenance_required, is_in_maintenance, ApplyResult, from_label,
  label_of, chains_of,
}
use maintenance_controller.State.Choice.{first_target}
use maintenance_controller.State.Outcomes.{IsApplied}

abbrev pub is_state : String → Bool
is_state s = str_eq s operational || (str_eq s required || str_eq s in_maintenance)

-- The entry of a profile, if there is one with data, holds a state.
abbrev pub known_entry : Option (Option ProfileData) → Bool
known_entry none = true
known_entry (some none) = true
known_entry (some (some d)) = is_state d.current

abbrev pub HasKnownStates : Data → Type 0
HasKnownStates d = (k : String) → known_entry (profile_entry d k) ≡ true

abbrev pub no_profile : {E : Type 0} → Profile E
no_profile = record { name = ""; chains = [] }

module _ {E : Type 0} where
  abbrev pub targets_known : List (Transition E) → Bool
  targets_known ts = all is_state (map (λ t. t.next) ts)

  abbrev pub chains_in : Profile E → String → PluginChains E
  chains_in p k = or_else (lookup k p.chains) no_chains

  abbrev pub HasKnownTargets : Profile E → Type 0
  HasKnownTargets p = (k : String) → targets_known (chains_in p k).transitions ≡ true

  -- Every transition of every profile leads to a state.
  abbrev pub HasKnownProfiles : Assoc (Profile E) → Type 0
  HasKnownProfiles profiles =
      (name : String) → HasKnownTargets (or_else (lookup name profiles) no_profile)

  pub label_of-is_state : (state : NodeState E) → is_state (label_of state) ≡ true
  label_of-is_state (is_operational chains) = refl
  label_of-is_state (maintenance_required chains) = refl
  label_of-is_state (is_in_maintenance chains) = refl

  pub from_label-chains_of :
      (label : String) (chains : PluginChains E) (state : NodeState E)
      → from_label label chains ≡ inr state
      → chains_of state ≡ chains
  unfolding from_label
  from_label-chains_of label chains state e =
      ground (arith, eq_iff label operational, eq_iff label required, eq_iff label in_maintenance)

first_target-is_state :
    (rs : List TransitionResult) (current : String)
    → is_state current ≡ true
    → all is_state (map (λ r. r.target) rs) ≡ true
    → is_state (first_target rs current) ≡ true
first_target-is_state [] current h k = h
first_target-is_state (r ∷ rs) current h k = elim (Bool-cases r.passed) [
  | inl y ↦ rw y (ground arith)
  | inr n ↦ rw n (first_target-is_state rs current h (ground arith))
]

-- From known targets, Apply returns a state, with an error or without.
pub applied-is_state :
    {E : Type 0} (io : Platform E) (state : NodeState E) (p : Parameters)
    (a : ApplyResult × Option Error)
    → targets_known (chains_of state).transitions ≡ true
    → IsApplied io state p a
    → is_state a.0.next ≡ true
applied-is_state io state p (r, some err) known h = rw h (label_of-is_state state)
applied-is_state io state p (r, none) known h = rw h.0 (
    first_target-is_state r.transitions (label_of state) (label_of-is_state state) (rw h.1.0 known))
