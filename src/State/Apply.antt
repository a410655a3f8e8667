-- ===== src/State/Apply.antt =====
-- state/state.go (FromLabel, Apply) and the three states of state/operational.go,
-- state/required.go and state/maintenance.go.
use Prim.Native.String.{◌++◌}
use maintenance_controller.Base.{
  String, Option, none, some, List, [], ◌∷◌, ◌⊎◌, inl, inr, not, Run, done, pure, panic, ◌>>=◌,
  ◌>>◌, modify, str_eq, if◌then◌else◌,
}
use maintenance_controller.Errors.{Error, message, wrapped, error_text, is_retry}
use maintenance_controller.World.{World, Parameters, Platform}
use maintenance_controller.Plugin.Trigger.{TriggerChain, execute_triggers}
use maintenance_controller.State.Labels.{operational, required, in_maintenance}
use maintenance_controller.State.Data.{ProfileData, Session, profile_entry, in_world}
use maintenance_controller.State.Profiles.{Transition, PluginChains}
use maintenance_controller.State.Transition.{
  TransitionResult, TransitionsResult, transition_default,
}
use maintenance_controller.State.Notify.{notify_default}

pub data NodeState (E : Type 0) : Type 0 where
  is_operational : PluginChains E → NodeState E
  maintenance_required : PluginChains E → NodeState E
  is_in_maintenance : PluginChains E → NodeState E

pub record ApplyResult : Type 0 where
  pub next : String
  pub transitions : List TransitionResult
  pub error : String

module _ {E : Type 0} where
  unfoldable pub from_label : String → PluginChains E → Error ⊎ NodeState E
  from_label label chains =
      if str_eq label operational
      then inr (is_operational chains)
      else if str_eq label required
      then inr (maintenance_required chains)
      else if str_eq label in_maintenance
      then inr (is_in_maintenance chains)
      else inl (message ("node state \"" ++ (label ++ "\" is not known")))

  abbrev pub label_of : NodeState E → String
  label_of (is_operational chains) = operational
  label_of (maintenance_required chains) = required
  label_of (is_in_maintenance chains) = in_maintenance

  abbrev pub chains_of : NodeState E → PluginChains E
  chains_of (is_operational chains) = chains
  chains_of (maintenance_required chains) = chains
  chains_of (is_in_maintenance chains) = chains

  record_entry : Platform E → String → Option Error → Run (World E) (Option Error)
  record_entry io profile (some err) w = (done (some err), w)
  record_entry io profile none w =
      (done none, record w { ext = io.record_shuffles w.node profile w.ext })

  -- Enter: only the state in-maintenance records shuffles.
  unfoldable pub enter : Platform E → NodeState E → Parameters → Run (World E) (Option Error)
  unfolding record_entry
  enter io (is_operational chains) p = execute_triggers chains.enter p
  enter io (maintenance_required chains) p = execute_triggers chains.enter p
  enter io (is_in_maintenance chains) p = do
    answer ← execute_triggers chains.enter p
    record_entry io p.profile answer

  -- Notify, the same for the three states
  unfoldable pub notify : Platform E → NodeState E → Parameters → Run (Session E) (Option Error)
  notify io state p = notify_default io p (chains_of state).notification

  -- Trigger, the same for the three states: the first transition to the next state.
  unfoldable pub find_trigger : List (Transition E) → String → Option (TriggerChain E)
  find_trigger [] next = none
  find_trigger (t ∷ ts) next = if str_eq t.next next then some t.trigger else find_trigger ts next

  unfoldable pub trigger : NodeState E → Parameters → String → Run (World E) (Option Error)
  trigger state p next = elim (find_trigger (chains_of state).transitions next) [
    | none ↦
        pure
          (some (message ("could not find triggers from " ++ (label_of state ++ (" to " ++ next)))))
    | some chain ↦ execute_triggers chain p
  ]

  -- Transition, the same for the three states
  unfoldable pub transition :
      NodeState E → Parameters → Run (World E) (TransitionsResult × Option Error)
  transition state p = transition_default p (label_of state) (chains_of state).transitions

  abbrev pub staying : NodeState E → List TransitionResult → String → ApplyResult
  staying state infos text = record { next = label_of state; transitions = infos; error = text }

  -- An event of the node, of type Normal.
  abbrev emit : Platform E → String → String → Run (Session E) (Unit {0})
  emit io reason note =
      in_world (modify (λ w. record w { ext = io.record_event w.node reason note w.ext }))

  -- handleTransitionError, with its prefix and the same in lower case
  unfoldable pub transition_error :
      Platform E
      → NodeState E
      → Parameters
      → List TransitionResult
      → String
      → String
      → Error
      → Run (Session E) (ApplyResult × Option Error)
  transition_error io state p infos prefix lower err = do
    in_world (modify (λ w. record w { ext = io.record_failure p.profile w.ext }))
    emit io "ChangeMaintenanceStateFailed"
        (prefix ++ (" for profile " ++ (p.profile ++ (": Will stay in " ++ (p.state ++ " state")))))
    pure (
      staying state infos (error_text err),
      some (wrapped (lower ++ (" for profile " ++ p.profile)) err),
    )

  unfoldable pub finish_trigger :
      Platform E
      → NodeState E
      → Parameters
      → TransitionsResult
      → Option Error
      → Run (Session E) (ApplyResult × Option Error)
  finish_trigger io state p ts (some err) =
      transition_error io state p ts.infos "At least one trigger plugin failed"
        "at least one trigger plugin failed" err
  finish_trigger io state p ts none = do
    emit io "ChangedMaintenanceState"
        ("The node is now in the " ++ (ts.next ++ (" state caused by profile " ++ p.profile)))
    pure (record { next = ts.next; transitions = ts.infos; error = "" }, none)

  unfoldable pub finish_transition :
      Platform E
      → NodeState E
      → Parameters
      → TransitionsResult × Option Error
      → Run (Session E) (ApplyResult × Option Error)
  finish_transition io state p (ts, some err) =
      transition_error io state p ts.infos "At least one check plugin failed"
        "at least one check plugin failed" err
  finish_transition io state p (ts, none) =
      if not (str_eq ts.next (label_of state))
      then (do answer ← in_world (trigger state p ts.next); finish_trigger io state p ts answer)
      else pure (staying state ts.infos "", none)

  unfoldable pub finish_notify :
      Platform E
      → NodeState E
      → Parameters
      → Option Error
      → Run (Session E) (ApplyResult × Option Error)
  finish_notify io state p (some err) =
      transition_error io state p [] "At least one notification plugin failed"
        "at least one notification plugin failed" err
  finish_notify io state p none = do
    answer ← in_world (transition state p)
    finish_transition io state p answer

  -- From the notifications on.
  unfoldable pub evaluate_state :
      Platform E → NodeState E → Parameters → Run (Session E) (ApplyResult × Option Error)
  evaluate_state io state p = do answer ← notify io state p; finish_notify io state p answer

  unfoldable pub finish_enter :
      Platform E
      → NodeState E
      → Parameters
      → Option Error
      → Run (Session E) (ApplyResult × Option Error)
  finish_enter io state p (some err) =
      if is_retry err
      then pure (staying state [] "", some err)
      else transition_error io state p [] ("Failed to enter state " ++ label_of state)
          ("failed to enter state " ++ label_of state) err
  finish_enter io state p none = evaluate_state io state p

  unfoldable pub apply_entry :
      Platform E
      → NodeState E
      → Parameters
      → Option (Option ProfileData)
      → Run (Session E) (ApplyResult × Option Error)
  apply_entry io state p none =
      let err = message ("could not find profile '" ++ (p.profile ++ "' in state data")) in
      pure (staying state [] (error_text err), some err)
  -- stateInfo.Previous of a nil pointer
  apply_entry io state p (some none) = panic
  apply_entry io state p (some (some d)) =
      if not (str_eq d.previous d.current)
      then (do answer ← in_world (enter io state p); finish_enter io state p answer)
      else evaluate_state io state p

  -- Apply
  unfoldable pub apply :
      Platform E → NodeState E → Parameters → Run (Session E) (ApplyResult × Option Error)
  apply io state p s = apply_entry io state p (profile_entry s.data_of p.profile) s
