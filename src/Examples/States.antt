-- ===== src/Examples/States.antt =====
-- The evaluation of one state of a profile, at the cluster of Examples/Cluster.antt.
use maintenance_controller.Base.{
  ℕ, String, Bool, true, false, Option, none, some, List, [], ◌∷◌, map, ◌≡◌, refl, ◌≢◌, done, All,
  is_some, if◌then◌else◌, or_else, Assoc, lookup, insert, made, contains, any,
}
use maintenance_controller.Errors.{Error, message}
use maintenance_controller.GoTime.{Time}
use maintenance_controller.World.{World, Parameters}
use maintenance_controller.State.Labels.{contains_profile, operational, required, in_maintenance}
use maintenance_controller.State.Data.{ProfileData, Session}
use maintenance_controller.State.Profiles.{
  fresh, get_profiles, select_profiles, maintain_profile_states, get_profiles_with_state,
}
use maintenance_controller.Plugin.Check.{
  execute_checks, run_checks, tally_check, conclude, evaluate,
}
use maintenance_controller.Plugin.Trigger.{execute_triggers, run_triggers}
use maintenance_controller.Impl.Labels.{has_label, check_key, alter_label, alter}
use maintenance_controller.State.Transition.{
  TransitionsResult, judge, transition_default, execute_transitions, execute_transition,
  on_transitions, choose, settle,
}
use maintenance_controller.State.Notify.{notify_default, notify_instances}
use maintenance_controller.State.Maintained.{
  settled, kept_entry, session, is_nil, has_panicked, maintain_profile_states-settles,
  get_profiles_with_state_panics,
}
use maintenance_controller.State.Apply.{
  ApplyResult, apply, staying, apply_entry, enter, notify, evaluate_state, finish_notify,
  transition, finish_transition, find_trigger, trigger, finish_trigger, transition_error,
  finish_enter,
}
use maintenance_controller.State.Choice.{IsExclusive, first_target, transition_default-first_target}
use maintenance_controller.State.Outcomes.{apply-first_target, apply_exclusive, apply_error-label}
use maintenance_controller.State.Frame.{apply-profiles}
use maintenance_controller.Examples.Cluster.{
  clock, world_one, parameters_one, to_state, state_to, session_one, returned, available, data_one,
}

abbrev transitions : TransitionsResult × Option Error
transitions =
    returned (record { next = ""; infos = [] }, none)
      (transition_default parameters_one operational
        (to_state in_maintenance ∷ to_state required ∷ []) world_one)

transition_default-first_target_example :
    (transitions.0.next ≡ (
      if is_some transitions.1 then operational else first_target transitions.0.infos operational))
    × (map (λ r. r.target) transitions.0.infos ≡ in_maintenance ∷ required ∷ [])
    × All (IsExclusive parameters_one) transitions.0.infos
unfolding transition_default maintenance_controller.State.Transition.execute_transitions
    maintenance_controller.State.Transition.execute_transition
    maintenance_controller.Plugin.Check.execute_checks
    maintenance_controller.Plugin.Check.run_checks maintenance_controller.Impl.Labels.has_label
    maintenance_controller.Plugin.Check.conclude maintenance_controller.Plugin.Check.tally_check
    maintenance_controller.Base.lookup maintenance_controller.Base.insert
    maintenance_controller.State.Transition.on_transitions
transition_default-first_target_example =
    transition_default-first_target parameters_one operational
      (to_state in_maintenance ∷ to_state required ∷ []) world_one transitions.0 transitions.1
      (transition_default parameters_one operational
        (to_state in_maintenance ∷ to_state required ∷ []) world_one).1
      refl

abbrev applied : ApplyResult × Option Error
applied =
    returned (staying (state_to required) [] "", some (message "panic"))
      (apply clock (state_to required) parameters_one session_one)

apply-first_target_example :
    (applied.0.next ≡ first_target applied.0.transitions operational)
    × (map (λ r. r.target) applied.0.transitions ≡ required ∷ [])
unfolding apply apply_entry enter notify evaluate_state finish_notify transition finish_transition
    find_trigger trigger finish_trigger transition_error finish_enter transition_default
    execute_transitions execute_transition on_transitions choose settle judge execute_checks
    run_checks tally_check conclude evaluate execute_triggers run_triggers has_label check_key
    alter_label alter notify_default notify_instances lookup insert
apply-first_target_example =
    apply-first_target clock (state_to required) parameters_one session_one applied.0
      (apply clock (state_to required) parameters_one session_one).1 refl

abbrev refused : ApplyResult × Option Error
refused =
    returned (staying (state_to required) [] "", none)
      (apply clock (state_to in_maintenance) parameters_one session_one)

apply_exclusive_example : refused.0.next ≢ in_maintenance
unfolding apply apply_entry enter notify evaluate_state finish_notify transition finish_transition
    find_trigger trigger finish_trigger transition_error finish_enter transition_default
    execute_transitions execute_transition on_transitions choose settle judge execute_checks
    run_checks tally_check conclude evaluate execute_triggers run_triggers has_label check_key
    alter_label alter notify_default notify_instances lookup insert
apply_exclusive_example =
    apply_exclusive clock (state_to in_maintenance) parameters_one session_one refused.0 refused.1
      (apply clock (state_to in_maintenance) parameters_one session_one).1 refl (λ e. cc) refl

-- A profile that the data does not hold.
abbrev parameters_missing : Parameters
parameters_missing = record parameters_one { profile = "missing" }

abbrev failed : ApplyResult × Option Error
failed =
    returned (staying (state_to required) [] "", none)
      (apply clock (state_to required) parameters_missing session_one)

apply_error-label_example : failed.0.next ≡ operational
unfolding apply apply_entry enter notify evaluate_state finish_notify transition finish_transition
    find_trigger trigger finish_trigger transition_error finish_enter transition_default
    execute_transitions execute_transition on_transitions choose settle judge execute_checks
    run_checks tally_check conclude evaluate execute_triggers run_triggers has_label check_key
    alter_label alter notify_default notify_instances lookup insert
apply_error-label_example =
    apply_error-label clock (state_to required) parameters_missing session_one failed.0
      (or_else failed.1 (message "none"))
      (apply clock (state_to required) parameters_missing session_one).1 refl

apply-profiles_example :
    (apply clock (state_to required) parameters_one session_one).1.data_of.profiles
    ≡ session_one.data_of.profiles
apply-profiles_example = apply-profiles clock (state_to required) parameters_one session_one

-- The annotation held `null` for the profile reboot.
abbrev session_nil : Session ℕ
session_nil = record session_one {
  data_of = record data_one {
    profiles = made (("kernel", some (fresh 5)) ∷ ("reboot", none) ∷ []);
  };
}

maintain_profile_states-settles_example :
    (m : Assoc (Option ProfileData)) × (w' : World ℕ) × (maintain_profile_states clock
        "kernel--extra" available session_one
      ≡ (done tt, session m (made []) w'))
    × ((k : String)
        → (t : Time) × (lookup k m
            ≡ settled
                (kept_entry "kernel--extra" data_one k)
                (contains (map (λ p. p.name) (get_profiles "kernel--extra" available)) k)
                t))
maintain_profile_states-settles_example =
    maintain_profile_states-settles clock "kernel--extra" available session_one

get_profiles_with_state_panics_example :
    has_panicked (
      get_profiles_with_state
        (maintain_profile_states clock "kernel--reboot" available session_nil).1.data_of
        "kernel--reboot"
        available)
    ≡ any
        (λ p. is_nil (kept_entry "kernel--reboot" session_nil.data_of p.name))
        (get_profiles "kernel--reboot" available)
get_profiles_with_state_panics_example =
    get_profiles_with_state_panics clock "kernel--reboot" available session_nil

-- The nil pointer is read, and the reading panics.
nil_panics :
    any
      (λ p. is_nil (kept_entry "kernel--reboot" session_nil.data_of p.name))
      (get_profiles "kernel--reboot" available)
    ≡ true
unfolding get_profiles select_profiles lookup maintenance_controller.Base.Text.split
    contains_profile
nil_panics = refl
