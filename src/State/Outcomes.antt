-- ===== src/State/Outcomes.antt =====
-- Apply: the state that it returns, and when a profile may move into maintenance.
use maintenance_controller.Base.{
  String, Bool, true, false, not, ◌&&◌, Option, none, some, List, [], ◌∷◌, map, ◌≡◌, refl, ◌≢◌, inl,
  inr, Outcome, done, Ends, Ends-at, Ends-resume, Ends-mono, Ends-all, All, Bool-cases, arith,
  str_eq, eq_iff, eq_of_ne, ◌||◌,
}
use maintenance_controller.Errors.{Error, is_retry}
use maintenance_controller.World.{Parameters, Platform}
use maintenance_controller.State.Labels.{in_maintenance}
use maintenance_controller.State.Data.{ProfileData, Session, profile_entry}
use maintenance_controller.State.Transition.{
  TransitionResult, TransitionsResult, transition_default,
}
use maintenance_controller.State.Apply.{
  NodeState, ApplyResult, label_of, chains_of, enter, notify, trigger, transition, transition_error,
  finish_trigger, finish_transition, finish_notify, finish_enter, evaluate_state, apply_entry,
  apply,
}
use maintenance_controller.State.Sessions.{Ends-in_world}
use maintenance_controller.State.Choice.{
  first_target, IsExclusive, Judged, IsChoice, transition_default-Ends,
}

module _ {E : Type 0} (io : Platform E) (state : NodeState E) (p : Parameters) where
  abbrev pub IsApplied : ApplyResult × Option Error → Type 0
  IsApplied (r, none) =
      (r.next ≡ first_target r.transitions (label_of state))
      × Judged p (chains_of state).transitions r.transitions
  IsApplied (r, some err) = r.next ≡ label_of state

  abbrev EndsApplied : Outcome (ApplyResult × Option Error) × Session E → Type 0
  EndsApplied = Ends (λ a _. IsApplied a)

  transition_error-applied :
      (infos : List TransitionResult) (prefix lower : String) (err : Error) (s : Session E)
      → EndsApplied (transition_error io state p infos prefix lower err s)
  unfolding transition_error
  transition_error-applied infos prefix lower err s = refl

  finish_trigger-applied :
      (ts : TransitionsResult) (answer : Option Error) (s : Session E)
      → IsChoice p (label_of state) (chains_of state).transitions (ts, none)
      → EndsApplied (finish_trigger io state p ts answer s)
  unfolding finish_trigger
  finish_trigger-applied ts none s h = h
  finish_trigger-applied ts (some err) s h = transition_error-applied ts.infos _ _ err s

  finish_transition-applied :
      (answer : TransitionsResult × Option Error) (s : Session E)
      → IsChoice p (label_of state) (chains_of state).transitions answer
      → EndsApplied (finish_transition io state p answer s)
  unfolding finish_transition
  finish_transition-applied (ts, some err) s h = transition_error-applied ts.infos _ _ err s
  finish_transition-applied (ts, none) s h = elim (Bool-cases (str_eq ts.next (label_of state))) [
    | inl same ↦ rw same (cc (h.0, (eq_iff ts.next (label_of state)).0 same), h.1)
    | inr other ↦ rw other (
        Ends-in_world _ (trigger state p ts.next s.world) s _ (
          Ends-all _ (trigger state p ts.next s.world)
            (λ answer w. finish_trigger-applied ts answer (record s { world = w }) h)))
  ]

  finish_notify-applied :
      (answer : Option Error) (s : Session E) → EndsApplied (finish_notify io state p answer s)
  unfolding finish_notify transition
  finish_notify-applied (some err) s = transition_error-applied [] _ _ err s
  finish_notify-applied none s =
      let ts = (chains_of state).transitions in
      let run = transition_default p (label_of state) ts s.world in
      Ends-in_world _ run s _ (
        Ends-mono _ _ run (λ answer w. finish_transition-applied answer (record s { world = w }))
          (transition_default-Ends p (label_of state) ts s.world))

  evaluate_state-applied : (s : Session E) → EndsApplied (evaluate_state io state p s)
  unfolding evaluate_state
  evaluate_state-applied s =
      Ends-resume _ (notify io state p s) _ (Ends-all _ (notify io state p s) finish_notify-applied)

  finish_enter-applied :
      (answer : Option Error) (s : Session E) → EndsApplied (finish_enter io state p answer s)
  unfolding finish_enter
  finish_enter-applied none s = evaluate_state-applied s
  finish_enter-applied (some err) s = elim (Bool-cases (is_retry err)) [
    | inl retry ↦ rw retry refl
    | inr other ↦ rw other (transition_error-applied [] _ _ err s)
  ]

  apply_entry-applied :
      (entry : Option (Option ProfileData)) (s : Session E)
      → EndsApplied (apply_entry io state p entry s)
  unfolding apply_entry
  apply_entry-applied none s = refl
  apply_entry-applied (some none) s = tt
  apply_entry-applied (some (some d)) s = elim (Bool-cases (str_eq d.previous d.current)) [
    | inl same ↦ rw same (evaluate_state-applied s)
    | inr other ↦ rw other (
        Ends-in_world _ (enter io state p s.world) s _ (
          Ends-all _ (enter io state p s.world)
            (λ answer w. finish_enter-applied answer (record s { world = w }))))
  ]

  pub apply-ends : (s : Session E) → EndsApplied (apply io state p s)
  unfolding apply
  apply-ends s = apply_entry-applied (profile_entry s.data_of p.profile) s

  -- If Apply returns an error, the next state that it returns is the state itself.
  pub apply_error-label :
      (s : Session E) (r : ApplyResult) (err : Error) (s' : Session E)
      → apply io state p s ≡ (done (r, some err), s')
      → r.next ≡ label_of state
  apply_error-label s r err s' e = Ends-at _ _ (r, some err) s' (apply-ends s) e

  -- If Apply returns without an error, the next state is the target of the first transition result
  -- that passed, or the state itself if none did; there is one result for each transition of the
  -- state, in order and with its target.
  pub apply-first_target :
      (s : Session E) (r : ApplyResult) (s' : Session E)
      → apply io state p s ≡ (done (r, none), s')
      → (r.next ≡ first_target r.transitions (label_of state))
        × (map (λ x. x.target) r.transitions ≡ map (λ t. t.next) (chains_of state).transitions)
  apply-first_target s r s' e =
      let (next, judged) = Ends-at _ _ (r, none) s' (apply-ends s) e in (next, judged.0)

  first_target-exclusive :
      (rs : List TransitionResult) (current : String)
      → p.in_maintenance ≡ true
      → current ≢ in_maintenance
      → All (IsExclusive p) rs
      → first_target rs current ≢ in_maintenance
  first_target-exclusive [] current busy other h e = other e
  first_target-exclusive (r ∷ rs) current busy other h e = elim (Bool-cases r.passed) [
    | inl y ↦ ground (arith, eq_iff r.target in_maintenance)
    | inr n ↦ first_target-exclusive rs current busy other h.1 (ground arith)
  ]

  -- Whether the evaluation keeps the profile out of maintenance, as a test.
  abbrev pub stays_out : ApplyResult → Bool
  stays_out r = str_eq (label_of state) in_maintenance || not (str_eq r.next in_maintenance)

  pub applied-stays_out :
      (a : ApplyResult × Option Error)
      → IsApplied a
      → (p.in_maintenance && not (stays_out a.0)) ≡ false
  applied-stays_out (r, some err) h = rw h (ground arith)
  applied-stays_out (r, none) h = elim (Bool-cases p.in_maintenance) [
    | inr idle ↦ rw idle
    | inl busy ↦ elim (Bool-cases (str_eq (label_of state) in_maintenance)) [
      | inl e ↦ rw e (ground arith)
      | inr other ↦
          (let out =
              first_target-exclusive r.transitions (label_of state) busy
                (λ e. cc ((eq_iff (label_of state) in_maintenance).1 e)) h.1.1 in
            rw (other, h.0, eq_of_ne _ _ out) (ground arith))
    ]
  ]

  -- While some profile of the node is in maintenance, Apply moves no other profile into
  -- maintenance, whether it fails or not.
  pub apply_exclusive :
      (s : Session E) (r : ApplyResult) (err : Option Error) (s' : Session E)
      → p.in_maintenance ≡ true
      → label_of state ≢ in_maintenance
      → apply io state p s ≡ (done (r, err), s')
      → r.next ≢ in_maintenance
  apply_exclusive s r (some err) s' busy other e moved = other (cc (apply_error-label s r err s' e))
  apply_exclusive s r none s' busy other e moved =
      let (next, judged) = Ends-at _ _ (r, none) s' (apply-ends s) e in
      first_target-exclusive r.transitions (label_of state) busy other judged.1 (cc next)
