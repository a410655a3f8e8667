-- ===== src/State/Transition.antt =====
-- state/state.go: Transition.Execute and transitionDefault, which evaluate the checks of every
-- transition of a state and choose the next state.
use maintenance_controller.Base.{
  String, Bool, true, false, not, ◌&&◌, ◌||◌, Option, none, some, List, [], ◌∷◌, Run, pure, panic,
  ◌>>=◌, str_eq, if◌then◌else◌,
}
use maintenance_controller.Errors.{Error, wrapped, error_text, join_errors}
use maintenance_controller.World.{World, Parameters}
use maintenance_controller.Plugin.Check.{CheckInstance, CheckChainResult, execute_checks}
use maintenance_controller.State.Labels.{in_maintenance}
use maintenance_controller.State.Profiles.{Transition}

pub record TransitionResult : Type 0 where
  pub passed : Bool
  pub target : String
  pub chain : CheckChainResult
  pub error : String

pub record TransitionsResult : Type 0 where
  pub next : String
  pub infos : List TransitionResult

abbrev pub result_of : Bool → String → CheckChainResult → TransitionResult
result_of passed target chain = record {
  passed = passed;
  target = target;
  chain = chain;
  error = "";
}

-- The end of Transition.Execute: at most one profile of a node is to be in maintenance.
unfoldable pub judge :
    Parameters → String → CheckChainResult × Option Error → TransitionResult × Option Error
judge p next (chain, some err) =
    (record { passed = false; target = next; chain = chain; error = error_text err }, some err)
judge p next (chain, none) =
    if not chain.passed || (str_eq next in_maintenance && p.in_maintenance)
    then (result_of false next chain, none)
    else (result_of true next chain, none)

abbrev pub add_error : Option Error → List Error → List Error
add_error none es = es
add_error (some e) es = e ∷ es

abbrev chosen : String → String → Option Error → String × Option Error
chosen current target none = (target, none)
chosen current target (some err) = (current, some err)

module _ {E : Type 0} where
  unfoldable pub execute_transition :
      Transition E → Parameters → Run (World E) (TransitionResult × Option Error)
  unfolding judge
  execute_transition t p = do answer ← execute_checks t.check p; pure (judge p t.next answer)

  -- The first loop: the results of all transitions, and the errors among them.
  unfoldable pub execute_transitions :
      Parameters → List (Transition E) → Run (World E) (List TransitionResult × List Error)
  execute_transitions p [] = pure ([], [])
  execute_transitions p (t ∷ ts) = do
    first ← execute_transition t p
    rest ← execute_transitions p ts
    pure (first.0 ∷ rest.0, add_error first.1 rest.1)

  -- OnTransition of each check of the chain, up to the first error.
  unfoldable pub on_transitions : Parameters → List (CheckInstance E) → Run (World E) (Option Error)
  on_transitions p [] = pure none
  on_transitions p (c ∷ cs) = do
    answer ← c.plugin.on_transition p
    elim answer [ none ↦ on_transitions p cs | some err ↦ pure (some err) ]

  -- The second loop: the first result that passed. `ts[i]` is out of range if results are longer.
  unfoldable pub choose :
      Parameters
      → String
      → List (Transition E)
      → List TransitionResult
      → Run (World E) (String × Option Error)
  choose p current ts [] = pure (current, none)
  choose p current [] (r ∷ rs) = elim r.passed [ true ↦ panic | false ↦ choose p current [] rs ]
  choose p current (t ∷ ts) (r ∷ rs) = elim r.passed [
    | false ↦ choose p current ts rs
    | true ↦ (do answer ← on_transitions p t.check.plugins; pure (chosen current r.target answer))
  ]

  unfoldable pub settle :
      Parameters
      → String
      → List (Transition E)
      → List TransitionResult × List Error
      → Run (World E) (TransitionsResult × Option Error)
  unfolding choose
  settle p current ts (results, []) = do
    next ← choose p current ts results
    pure (record { next = next.0; infos = results }, next.1)
  settle p current ts (results, e ∷ es) = pure (
    record { next = current; infos = results },
    some (wrapped "had failed transition checks" (join_errors (e ∷ es))),
  )

  -- transitionDefault
  unfoldable pub transition_default :
      Parameters → String → List (Transition E) → Run (World E) (TransitionsResult × Option Error)
  unfolding settle
  transition_default p current ts = do
    results ← execute_transitions p ts
    settle p current ts results
