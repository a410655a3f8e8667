-- ===== src/Examples/Histories.antt =====
-- Two reconciliations of the node of Examples/Cluster.antt, one after the other.
use maintenance_controller.Base.{
  String, true, or_else, Bool-cases, inl, inr, str_eq, ℕ, none, ◌≡◌, refl, done, lookup, insert,
}
use maintenance_controller.State.Labels.{contains_profile, operational, in_maintenance}
use maintenance_controller.State.Data.{parse_data}
use maintenance_controller.State.Profiles.{
  init_profiles, init_profile, cleaned, unused, erase_all, get_profiles, select_profiles,
  maintain_profile_states, get_profiles_with_state, with_states,
}
use maintenance_controller.State.Known.{HasKnownProfiles, targets_known, chains_in, no_profile}
use maintenance_controller.Cache.{update}
use maintenance_controller.Errors.{is_retry}
use maintenance_controller.Plugin.Check.{
  execute_checks, run_checks, tally_check, conclude, evaluate,
}
use maintenance_controller.Plugin.Trigger.{execute_triggers, run_triggers}
use maintenance_controller.Impl.Labels.{has_label, check_key, alter_label, alter}
use maintenance_controller.State.Transition.{
  judge, transition_default, execute_transitions, execute_transition, on_transitions, choose,
  settle,
}
use maintenance_controller.State.Notify.{notify_default, notify_instances}
use maintenance_controller.State.Apply.{
  from_label, apply, apply_entry, enter, notify, evaluate_state, finish_notify, transition,
  finish_transition, find_trigger, trigger, finish_trigger, transition_error, finish_enter,
}
use maintenance_controller.Controllers.Handler.{attempt, attempt_state, apply_state, add_attempt}
use maintenance_controller.Controllers.Handler.{
  Frame, attempt_all, any_in_maintenance, commit_all, commit_profile, ensure_label_map,
  maintain_states, filter_node_labels,
}
use maintenance_controller.Controllers.Evaluate.{
  apply_states, update_state_label, handle_node, apply_profiles, show_node, conclude_profiles,
  run_handlers, label_for, write_label,
}
use maintenance_controller.Controllers.Reconcile.{
  data_text, reconcile_internal, handle_data, finish_handling, write_data,
}
use maintenance_controller.Controllers.Persistence.{ParsesTo, reconcile_internal_roundtrip}
use maintenance_controller.Controllers.Reachable.{
  Stored, unreconciled, reconciled, HoldsKnownStates, Stored-HoldsKnownStates,
}
use maintenance_controller.Examples.Cluster.{clock, available}
use maintenance_controller.Examples.Encoding.{small_json, small_json-IsFaithful}
use maintenance_controller.Examples.Reconciliations.{config_one, frame_one}

abbrev frame_after : Frame ℕ
frame_after = (reconcile_internal clock config_one small_json frame_one).1

abbrev frame_last : Frame ℕ
frame_last = (reconcile_internal clock config_one small_json frame_after).1

known_targets :
    (name k : String)
    → targets_known (chains_in (or_else (lookup name available) no_profile) k).transitions ≡ true
unfolding lookup
known_targets name k = elim (Bool-cases (str_eq "kernel" name)) [
  | inl y ↦
      rw y (elim (Bool-cases (str_eq operational k)) [ inl z ↦ rw z refl | inr z ↦ rw z refl ])
  | inr n ↦ elim (Bool-cases (str_eq "reboot" name)) [
    | inl y ↦
        rw (n, y)
          (elim (Bool-cases (str_eq in_maintenance k)) [ inl z ↦ rw z refl | inr z ↦ rw z refl ])
    | inr m ↦ rw (n, m) refl
  ]
]

known_profiles : HasKnownProfiles config_one.profiles
known_profiles name k = known_targets name k

no_data_yet : HoldsKnownStates small_json ""
unfolding parse_data lookup
no_data_yet k = refl

runs_once : reconcile_internal clock config_one small_json frame_one ≡ (done none, frame_after)
unfolding reconcile_internal handle_data finish_handling write_data parse_data lookup insert
    handle_node run_handlers ensure_label_map maintain_states maintain_profile_states init_profiles
    cleaned unused erase_all get_profiles select_profiles maintenance_controller.Base.Text.split
    contains_profile apply_profiles get_profiles_with_state with_states apply_states attempt_all
    any_in_maintenance show_node conclude_profiles commit_all update_state_label label_for
    write_label update filter_node_labels attempt attempt_state apply_state add_attempt from_label
    is_retry apply apply_entry enter notify evaluate_state finish_notify transition
    finish_transition find_trigger trigger finish_trigger transition_error finish_enter
    transition_default execute_transitions execute_transition on_transitions choose settle judge
    execute_checks run_checks tally_check conclude evaluate execute_triggers run_triggers has_label
    check_key alter_label alter notify_default notify_instances commit_profile init_profile
runs_once = refl

runs_again : reconcile_internal clock config_one small_json frame_after ≡ (done none, frame_last)
unfolding reconcile_internal handle_data finish_handling write_data parse_data lookup insert
    handle_node run_handlers ensure_label_map maintain_states maintain_profile_states init_profiles
    cleaned unused erase_all get_profiles select_profiles maintenance_controller.Base.Text.split
    contains_profile apply_profiles get_profiles_with_state with_states apply_states attempt_all
    any_in_maintenance show_node conclude_profiles commit_all update_state_label label_for
    write_label update filter_node_labels attempt attempt_state apply_state add_attempt from_label
    is_retry apply apply_entry enter notify evaluate_state finish_notify transition
    finish_transition find_trigger trigger finish_trigger transition_error finish_enter
    transition_default execute_transitions execute_transition on_transitions choose settle judge
    execute_checks run_checks tally_check conclude evaluate execute_triggers run_triggers has_label
    check_key alter_label alter notify_default notify_instances commit_profile init_profile
runs_again = refl

history : Stored clock config_one small_json "" (data_text frame_last.session.world.node)
unfolding reconcile_internal handle_data finish_handling write_data parse_data lookup insert
    handle_node run_handlers ensure_label_map maintain_states maintain_profile_states init_profiles
    cleaned unused erase_all get_profiles select_profiles maintenance_controller.Base.Text.split
    contains_profile apply_profiles get_profiles_with_state with_states apply_states attempt_all
    any_in_maintenance show_node conclude_profiles commit_all update_state_label label_for
    write_label update filter_node_labels attempt attempt_state apply_state add_attempt from_label
    is_retry apply apply_entry enter notify evaluate_state finish_notify transition
    finish_transition find_trigger trigger finish_trigger transition_error finish_enter
    transition_default execute_transitions execute_transition on_transitions choose settle judge
    execute_checks run_checks tally_check conclude evaluate execute_triggers run_triggers has_label
    check_key alter_label alter notify_default notify_instances commit_profile init_profile
history =
    reconciled frame_after frame_last (reconciled frame_one frame_after unreconciled runs_once)
      runs_again

Stored-HoldsKnownStates_example :
    HoldsKnownStates small_json (data_text frame_last.session.world.node)
Stored-HoldsKnownStates_example =
    Stored-HoldsKnownStates clock config_one small_json "" (data_text frame_last.session.world.node)
      small_json-IsFaithful known_profiles no_data_yet history

reconcile_internal_roundtrip_example :
    ParsesTo
      (parse_data small_json (data_text frame_after.session.world.node))
      frame_after.session.data_of
reconcile_internal_roundtrip_example =
    reconcile_internal_roundtrip clock config_one small_json small_json-IsFaithful frame_one
      frame_after runs_once
