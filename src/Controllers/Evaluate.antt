-- ===== src/Controllers/Evaluate.antt =====
-- controllers/node_handler.go: ApplyProfiles, UpdateMaintenanceStateLabel and HandleNode, made of
-- the loops in Controllers/Handler.antt.
use maintenance_controller.Base.{
  String, Bool, Option, none, some, List, [], ◌∷◌, put, make_if_nil, Run, Outcome, done, panicked,
  pure, ◌>>=◌, ◌>>◌, modify, any, str_eq, if◌then◌else◌,
}
use maintenance_controller.Errors.{Error, wrapped, join_errors}
use maintenance_controller.World.{Platform, on_ext}
use maintenance_controller.State.Labels.{operational, required, in_maintenance}
use maintenance_controller.State.Data.{Session, in_world}
use maintenance_controller.State.Profiles.{ProfileState, get_profiles_with_state}
use maintenance_controller.Cache.{update}
use maintenance_controller.Controllers.Handler.{
  Frame, Config, Progress, in_session, node_labels, profiles_str, with_labels, state_label_key,
  ensure_label_map, maintain_states, attempt_all, filter_node_labels, commit_all,
}

-- NodeHandler
abbrev pub Handler : Type 0 → Type 0
Handler E = Run (Frame E) (Option Error)

-- A value that was computed, or a panic.
abbrev pub lift_outcome : {S A : Type 0} → Outcome A → Run S A
lift_outcome r s = (r, s)

module _ {E : Type 0} where
  -- params.nodeInfoCache.Update
  unfoldable pub show_node : Platform E → Config E → Progress → Run (Frame E) (Unit {0})
  show_node io config progress = do
    now ← in_session (in_world (on_ext io.now))
    modify (λ f. record f {
      cache =
          update now
            (record {
              node = f.session.world.node.name;
              profiles = progress.results;
              labels = filter_node_labels (node_labels f.session) config.dashboard_label_filter;
              updated = now;
            })
            f.cache;
    })

  unfoldable pub conclude_profiles :
      Platform E → List (ProfileState E) → Progress → List Error → Run (Frame E) (Option Error)
  conclude_profiles io states progress [] = do
    in_session (commit_all io progress.retrying states progress.results)
    pure none
  conclude_profiles io states progress (e ∷ es) =
      pure (some (wrapped "failed to apply current state" (join_errors (e ∷ es))))

  -- ApplyProfiles, on the profiles with their states
  unfoldable pub apply_states :
      Platform E → Config E → List (ProfileState E) → Run (Frame E) (Option Error)
  unfolding conclude_profiles
  apply_states io config states = do
    progress ← in_session (attempt_all io states states)
    show_node io config progress
    conclude_profiles io states progress progress.errors

  abbrev pub states_of : Config E → Session E → Outcome (List (ProfileState E))
  states_of config s = get_profiles_with_state s.data_of (profiles_str s) config.profiles

  unfoldable pub apply_profiles : Platform E → Config E → Run (Frame E) (Option Error)
  unfolding apply_states
  apply_profiles io config = do
    states ← (λ f. lift_outcome (states_of config f.session) f)
    apply_states io config states

  abbrev pub has_state : String → List (ProfileState E) → Bool
  has_state label = any (λ ps. str_eq ps.state label)

  -- The two loops with their early returns, and the default after them.
  unfoldable pub label_for : List (ProfileState E) → String
  label_for states =
      if has_state in_maintenance states
      then in_maintenance
      else if has_state required states
      then required
      else operational

  unfoldable pub write_label : String → Run (Session E) (Unit {0})
  write_label label s = elim (put state_label_key label (node_labels s)) [
    | panicked ↦ (panicked, s)
    | done m ↦ (done tt, with_labels m s)
  ]

  -- UpdateMaintenanceStateLabel
  unfoldable pub update_state_label : Config E → Run (Session E) (Option Error)
  unfolding write_label
  update_state_label config = do
    states ← (λ s. lift_outcome (states_of config s) s)
    modify (λ s. with_labels (make_if_nil (node_labels s)) s)
    write_label (label_for states)
    pure none

  abbrev pub handlers : Platform E → Config E → List (Handler E)
  handlers io config =
      in_session ensure_label_map
      ∷ in_session (maintain_states io config)
      ∷ apply_profiles io config
      ∷ in_session (update_state_label config)
      ∷ []

  unfoldable pub run_handlers : List (Handler E) → Run (Frame E) (Option Error)
  run_handlers [] = pure none
  run_handlers (h ∷ hs) = do
    answer ← h
    elim answer [ none ↦ run_handlers hs | some err ↦ pure (some err) ]

  -- HandleNode
  unfoldable pub handle_node : Platform E → Config E → Run (Frame E) (Option Error)
  unfolding run_handlers
  handle_node io config = run_handlers (handlers io config)
