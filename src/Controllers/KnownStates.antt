-- ===== src/Controllers/KnownStates.antt =====
-- The first loop of ApplyProfiles: every result leads to a state.
use maintenance_controller.Base.{
  String, true, none, some, List, [], ◌∷◌, ◌≡◌, refl, sym, ◌∙◌, ap, ◌⊎◌, inl, inr, Outcome, done,
  panicked, Ends, Ends-resume, Ends-mono, All, Bool-cases,
}
use maintenance_controller.Errors.{Error, is_retry}
use maintenance_controller.World.{Platform}
use maintenance_controller.State.Data.{ProfileData, Session, profile_entry}
use maintenance_controller.State.Profiles.{ProfileState, pointed}
use maintenance_controller.State.Apply.{NodeState, from_label, chains_of, apply}
use maintenance_controller.State.Outcomes.{apply-ends}
use maintenance_controller.State.Known.{
  is_state, HasKnownTargets, targets_known, applied-is_state, from_label-chains_of,
}
use maintenance_controller.Cache.{ProfileResult}
use maintenance_controller.Controllers.Handler.{
  Progress, Attempt, add_attempt, parameters_for, chains_for, apply_state, attempt_state, attempt,
  attempt_all, any_in_maintenance,
}

abbrev pub LeadsToState : ProfileResult → Type 0
LeadsToState r = is_state r.applied.next ≡ true

abbrev Leads : Attempt → Type 0
Leads (inl err) = Unit
Leads (inr (r, err)) = LeadsToState r

abbrev pub AllKnown : {E : Type 0} → List (ProfileState E) → Type 0
AllKnown states = All (λ ps. HasKnownTargets ps.profile) states

module _ {E : Type 0} (io : Platform E) (peers : List (ProfileState E)) where
  attempt_state-Leads :
      (ps : ProfileState E) (found : Error ⊎ NodeState E) (s : Session E)
      → HasKnownTargets ps.profile
      → found ≡ from_label ps.state (chains_for ps)
      → Ends (λ a _. Leads a) (attempt_state io (any_in_maintenance peers) ps found s)
  unfolding attempt_state apply_state
  attempt_state-Leads ps (inl err) s known e = tt
  attempt_state-Leads ps (inr state) s known e =
      go (pointed (profile_entry s.data_of ps.profile.name))
    where
      targets : targets_known (chains_of state).transitions ≡ true
      targets =
          ap (λ c. targets_known c.transitions)
            (from_label-chains_of ps.state (chains_for ps) state (sym e))
          ∙ known ps.state

      go :
          (d : Outcome ProfileData)
          → Ends (λ a _. Leads a) (apply_state io (any_in_maintenance peers) ps state d s)
      go panicked = tt
      go (done d) =
          let p = parameters_for s ps (any_in_maintenance peers) d in
          Ends-resume _ (apply io state p s) _ (
            Ends-mono _ _ (apply io state p s) (λ a _ h. applied-is_state io state p a targets h)
              (apply-ends io state p s))

  add_attempt-Leads :
      (name : String) (a : Attempt) (progress : Progress)
      → Leads a
      → All LeadsToState progress.results
      → All LeadsToState (add_attempt name a progress).results
  unfolding add_attempt
  add_attempt-Leads name (inl err) progress h k = k
  add_attempt-Leads name (inr (r, none)) progress h k = (h, k)
  add_attempt-Leads name (inr (r, some err)) progress h k = elim (Bool-cases (is_retry err)) [
    | inl retry ↦ rw retry (h, k)
    | inr other ↦ rw other (h, k)
  ]

  pub attempt_all-Leads :
      (states : List (ProfileState E)) (s : Session E)
      → AllKnown states
      → Ends (λ a _. All LeadsToState a.results) (attempt_all io peers states s)
  unfolding attempt_all attempt
  attempt_all-Leads [] s known = tt
  attempt_all-Leads (ps ∷ rest) s known =
      Ends-resume _ (attempt io (any_in_maintenance peers) ps s) _ (
        Ends-mono _ _ (attempt io (any_in_maintenance peers) ps s)
          (λ a u h. Ends-resume _ (attempt_all io peers rest u) _ (
            Ends-mono _ _ (attempt_all io peers rest u)
              (λ progress v k. add_attempt-Leads ps.profile.name a progress h k)
              (attempt_all-Leads rest u known.1)))
          (attempt_state-Leads ps (from_label ps.state (chains_for ps)) _ known.0 refl))
