-- ===== src/State/Choice.antt =====
-- transitionDefault: which state the checks of the transitions choose.
use maintenance_controller.Base.{
  String, true, false, ◌&&◌, Option, none, some, List, [], ◌∷◌, map, ◌≡◌, refl, inl, inr, done,
  Ends, Ends-resume, Ends-mono, Ends-all, str_eq, arith, is_some, All, Bool-cases, Ends-at,
  if◌then◌else◌,
}
use maintenance_controller.Errors.{Error}
use maintenance_controller.World.{World, Parameters}
use maintenance_controller.Plugin.Check.{CheckChainResult, execute_checks}
use maintenance_controller.State.Labels.{in_maintenance}
use maintenance_controller.State.Profiles.{Transition}
use maintenance_controller.State.Transition.{
  TransitionResult, TransitionsResult, judge, execute_transition, execute_transitions,
  on_transitions, choose, settle, transition_default,
}

-- The target of the first result that passed.
abbrev pub first_target : List TransitionResult → String → String
first_target [] current = current
first_target (r ∷ rs) current = elim r.passed [ true ↦ r.target | false ↦ first_target rs current ]

-- A transition into maintenance passes only if no profile was in maintenance.
abbrev pub IsExclusive : Parameters → TransitionResult → Type 0
IsExclusive p r = (r.passed && (str_eq r.target in_maintenance && p.in_maintenance)) ≡ false

judge-IsExclusive :
    (p : Parameters) (next : String) (answer : CheckChainResult × Option Error)
    → IsExclusive p (judge p next answer).0
unfolding judge
judge-IsExclusive p next (chain, none) = ground arith
judge-IsExclusive p next (chain, some err) = refl

judge-target :
    (p : Parameters) (next : String) (answer : CheckChainResult × Option Error)
    → (judge p next answer).0.target ≡ next
unfolding judge
judge-target p next (chain, none) = ground arith
judge-target p next (chain, some err) = refl

module _ {E : Type 0} where
  -- The results of the first loop are those of the transitions, in their order.
  abbrev pub Judged : Parameters → List (Transition E) → List TransitionResult → Type 0
  Judged p ts rs = (map (λ r. r.target) rs ≡ map (λ t. t.next) ts) × All (IsExclusive p) rs

  execute_transition-judged :
      (p : Parameters) (t : Transition E) (w : World E)
      → Ends (λ a _. (a.0.target ≡ t.next) × IsExclusive p a.0) (execute_transition t p w)
  unfolding execute_transition
  execute_transition-judged p t w = Ends-resume _ (execute_checks t.check p w) _ (
      Ends-all _ (execute_checks t.check p w)
        λ answer _. (judge-target p t.next answer, judge-IsExclusive p t.next answer))

  execute_transitions-Judged :
      (p : Parameters) (ts : List (Transition E)) (w : World E)
      → Ends (λ a _. Judged p ts a.0) (execute_transitions p ts w)
  unfolding execute_transitions
  execute_transitions-Judged p [] w = (refl, tt)
  execute_transitions-Judged p (t ∷ ts) w = Ends-resume _ (execute_transition t p w) _ (
      Ends-mono _ _ (execute_transition t p w)
        (λ first v head. Ends-resume _ (execute_transitions p ts v) _ (
          Ends-mono _ _ (execute_transitions p ts v)
            (λ rest _ tail. (cc (head.0, tail.0), (head.1, tail.1)))
            (execute_transitions-Judged p ts v)))
        (execute_transition-judged p t w))

  -- The second loop ends at the first result that passed, or stays with an error.
  choose-first_target :
      (p : Parameters) (current : String) (ts : List (Transition E)) (rs : List TransitionResult)
      (w : World E)
      → Ends
          (λ a _. a.0 ≡ (if is_some a.1 then current else first_target rs current))
          (choose p current ts rs w)
  unfolding choose
  choose-first_target p current ts [] w = refl
  choose-first_target p current [] (r ∷ rs) w = elim (Bool-cases r.passed) [
    | inl e ↦ rw e tt
    | inr e ↦ rw e (choose-first_target p current [] rs w)
  ]
  choose-first_target p current (t ∷ ts) (r ∷ rs) w = elim (Bool-cases r.passed) [
    | inl e ↦ rw e (
        Ends-resume _ (on_transitions p t.check.plugins w) _ (
          Ends-all _ (on_transitions p t.check.plugins w)
            (elim [ none ↦ λ _. refl | some err ↦ λ _. refl ])))
    | inr e ↦ rw e (choose-first_target p current ts rs w)
  ]

  -- What `transition_default` returns, in terms of the results that it lists.
  abbrev pub IsChoice :
      Parameters → String → List (Transition E) → TransitionsResult × Option Error → Type 0
  IsChoice p current ts (res, err) =
      (res.next ≡ (if is_some err then current else first_target res.infos current))
      × Judged p ts res.infos

  settle-IsChoice :
      (p : Parameters) (current : String) (ts : List (Transition E))
      (results : List TransitionResult × List Error) (w : World E)
      → Judged p ts results.0
      → Ends (λ a _. IsChoice p current ts a) (settle p current ts results w)
  unfolding settle
  settle-IsChoice p current ts (results, []) w h = Ends-resume _ (choose p current ts results w) _ (
      Ends-mono _ _ (choose p current ts results w) (λ a _ e. (e, h))
        (choose-first_target p current ts results w))
  settle-IsChoice p current ts (results, e ∷ es) w h = (refl, h)

  pub transition_default-Ends :
      (p : Parameters) (current : String) (ts : List (Transition E)) (w : World E)
      → Ends (λ a _. IsChoice p current ts a) (transition_default p current ts w)
  unfolding transition_default
  transition_default-Ends p current ts w = Ends-resume _ (execute_transitions p ts w) _ (
      Ends-mono _ _ (execute_transitions p ts w)
        (λ results v h. settle-IsChoice p current ts results v h)
        (execute_transitions-Judged p ts w))

  -- If the evaluation of the transitions of a state returns, there is one result for each
  -- transition, in order and with its target; a result with the target in-maintenance passes only
  -- if no profile of the node was in maintenance; and the next state is the current one if there is
  -- an error, and otherwise the target of the first result that passed (the current state if none).
  pub transition_default-first_target :
      (p : Parameters) (current : String) (ts : List (Transition E)) (w : World E)
      (res : TransitionsResult) (err : Option Error) (w' : World E)
      → transition_default p current ts w ≡ (done (res, err), w')
      → (res.next ≡ (if is_some err then current else first_target res.infos current))
        × (map (λ r. r.target) res.infos ≡ map (λ t. t.next) ts)
        × All (IsExclusive p) res.infos
  transition_default-first_target p current ts w res err w' e =
      let (next, judged) = Ends-at _ _ (res, err) w' (transition_default-Ends p current ts w) e in
      (next, judged.0, judged.1)
