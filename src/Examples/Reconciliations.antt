-- ===== src/Examples/Reconciliations.antt =====
-- The evaluation of all profiles of a node, at the cluster of Examples/Cluster.antt.
use maintenance_controller.Base.{
  ℕ, String, Bool, true, false, none, some, List, [], ◌∷◌, map, ◌≡◌, refl, ◌≢◌, inl, inr, lookup,
  insert, GoMap, nil_map, get, Outcome, done, All, str_eq, if◌then◌else◌, or_else,
}
use maintenance_controller.Errors.{is_retry}
use maintenance_controller.Plugin.Check.{
  execute_checks, run_checks, tally_check, conclude, evaluate,
}
use maintenance_controller.Plugin.Trigger.{execute_triggers, run_triggers}
use maintenance_controller.Impl.Labels.{has_label, check_key, alter_label, alter}
use maintenance_controller.State.Labels.{operational, in_maintenance}
use maintenance_controller.State.Profiles.{
  ProfileState, get_profiles, select_profiles, get_profiles_with_state, with_states,
}
use maintenance_controller.State.Transition.{
  judge, transition_default, execute_transitions, execute_transition, on_transitions, choose,
  settle,
}
use maintenance_controller.State.Notify.{notify_default, notify_instances}
use maintenance_controller.State.Apply.{
  from_label, apply, apply_entry, enter, notify, evaluate_state, finish_notify, transition,
  finish_transition, find_trigger, trigger, finish_trigger, transition_error, finish_enter,
}
use maintenance_controller.Controllers.Handler.{
  Frame, Config, Progress, no_progress, attempt_all, attempt, attempt_state, apply_state,
  add_attempt, any_in_maintenance, with_labels, node_labels, state_label_key,
}
use maintenance_controller.Controllers.Evaluate.{update_state_label}
use maintenance_controller.Controllers.Attempts.{
  attempt_all_results, attempt_all_exclusive, keeps_out,
}
use maintenance_controller.Controllers.StateLabel.{state_of_severity, worst, update_state_label_lem}
use maintenance_controller.Examples.Cluster.{
  clock, available, session_one, states_one, reboot, returned,
}

abbrev pub config_one : Config ℕ
config_one = record { requeue_interval = 60; profiles = available; dashboard_label_filter = [] }

abbrev pub frame_one : Frame ℕ
frame_one = record { session = session_one; cache = [] }

abbrev progress_one : Progress
progress_one = returned no_progress (attempt_all clock states_one states_one session_one)

attempt_all_results_example :
    (map (λ r. r.name) progress_one.results ≡ "kernel" ∷ "reboot" ∷ [])
    × (map (λ r. r.state) progress_one.results ≡ operational ∷ in_maintenance ∷ [])
unfolding attempt_all attempt attempt_state apply_state add_attempt any_in_maintenance from_label
    is_retry apply apply_entry enter notify evaluate_state finish_notify transition
    finish_transition find_trigger trigger finish_trigger transition_error finish_enter
    transition_default execute_transitions execute_transition on_transitions choose settle judge
    execute_checks run_checks tally_check conclude evaluate execute_triggers run_triggers has_label
    check_key alter_label alter notify_default notify_instances lookup insert
attempt_all_results_example =
    attempt_all_results clock states_one states_one session_one
      (attempt_all clock states_one states_one session_one).1 progress_one refl refl

attempt_all_exclusive_example : All (λ r. keeps_out r ≡ true) progress_one.results
unfolding attempt_all attempt attempt_state apply_state add_attempt any_in_maintenance from_label
    is_retry apply apply_entry enter notify evaluate_state finish_notify transition
    finish_transition find_trigger trigger finish_trigger transition_error finish_enter
    transition_default execute_transitions execute_transition on_transitions choose settle judge
    execute_checks run_checks tally_check conclude evaluate execute_triggers run_triggers has_label
    check_key alter_label alter notify_default notify_instances lookup insert
attempt_all_exclusive_example =
    attempt_all_exclusive clock states_one session_one
      (attempt_all clock states_one states_one session_one).1 progress_one refl refl

-- A state that the label names and the program does not know.
abbrev states_unknown : List (ProfileState ℕ)
states_unknown = record { profile = reboot; state = "broken" } ∷ states_one

abbrev progress_unknown : Progress
progress_unknown =
    returned no_progress (attempt_all clock states_unknown states_unknown session_one)

update_state_label_lem_example :
    (m : GoMap String) × (shown : String) × (update_state_label config_one session_one
      ≡ (done none, with_labels m session_one))
    × (shown ≡ state_of_severity (worst states_one))
    × ((k : String)
        → get m k
          ≡ (if str_eq state_label_key k then some shown else get (node_labels session_one) k))
unfolding get_profiles_with_state with_states get_profiles select_profiles lookup
    maintenance_controller.Base.Text.split
update_state_label_lem_example = update_state_label_lem config_one session_one states_one refl
