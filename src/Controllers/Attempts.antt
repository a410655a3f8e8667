-- ===== src/Controllers/Attempts.antt =====
-- The first loop of ApplyProfiles: one result for each profile, and who may move into maintenance.
use maintenance_controller.Base.{
  String, Bool, true, false, not, ◌&&◌, ◌||◌, sym, none, some, List, [], ◌∷◌, map, ◌≡◌, refl, ◌⊎◌,
  inl, inr, Outcome, done, panicked, Ends, Ends-at, Ends-resume, Ends-mono, All, All-map,
  Bool-cases, any, arith, str_eq, eq_iff,
}
use maintenance_controller.Errors.{Error, is_retry}
use maintenance_controller.World.{Platform}
use maintenance_controller.State.Labels.{operational, required, in_maintenance}
use maintenance_controller.State.Data.{ProfileData, Session, profile_entry}
use maintenance_controller.State.Profiles.{ProfileState, PluginChains, pointed}
use maintenance_controller.State.Apply.{NodeState, from_label, label_of, apply}
use maintenance_controller.State.Outcomes.{apply-ends, applied-stays_out}
use maintenance_controller.Cache.{ProfileResult}
use maintenance_controller.Controllers.Handler.{
  Progress, Attempt, add_attempt, parameters_for, chains_for, apply_state, attempt_state, attempt,
  attempt_all, any_in_maintenance,
}

-- A result that keeps out of maintenance, if its profile was not there.
abbrev pub keeps_out : ProfileResult → Bool
keeps_out r = str_eq r.state in_maintenance || not (str_eq r.applied.next in_maintenance)

-- What an evaluation says of its profile: the name and the state are the profile's, and it does
-- not move into maintenance while the node is busy with another profile.
abbrev Describes : {E : Type 0} → Bool → ProfileState E → Attempt → Type 0
Describes busy ps (inl err) = Unit
Describes busy ps (inr (r, err)) =
    (r.name ≡ ps.profile.name) × (r.state ≡ ps.state) × ((busy && not (keeps_out r)) ≡ false)

from_label-label :
    {E : Type 0} (label : String) (chains : PluginChains E) (state : NodeState E)
    → from_label label chains ≡ inr state
    → label_of state ≡ label
unfolding from_label
from_label-label label chains state e =
    ground (arith, eq_iff label operational, eq_iff label required, eq_iff label in_maintenance)

module _ {E : Type 0} (io : Platform E) (peers : List (ProfileState E)) where
  attempt_state-Describes :
      (ps : ProfileState E) (found : Error ⊎ NodeState E) (s : Session E)
      → found ≡ from_label ps.state (chains_for ps)
      → Ends
          (λ a _. Describes (any_in_maintenance peers) ps a)
          (attempt_state io (any_in_maintenance peers) ps found s)
  unfolding attempt_state apply_state
  attempt_state-Describes ps (inl err) s e = tt
  attempt_state-Describes ps (inr state) s e =
      go (pointed (profile_entry s.data_of ps.profile.name))
    where
      same : label_of state ≡ ps.state
      same = from_label-label ps.state (chains_for ps) state (sym e)

      go :
          (d : Outcome ProfileData)
          → Ends
              (λ a _. Describes (any_in_maintenance peers) ps a)
              (apply_state io (any_in_maintenance peers) ps state d s)
      go panicked = tt
      go (done d) =
          let p = parameters_for s ps (any_in_maintenance peers) d in
          Ends-resume _ (apply io state p s) _ (
            Ends-mono _ _ (apply io state p s)
              (λ a _ h. (refl, same, applied-stays_out io state p a h)) (apply-ends io state p s))

  attempt-Describes :
      (ps : ProfileState E) (s : Session E)
      → Ends
          (λ a _. Describes (any_in_maintenance peers) ps a)
          (attempt io (any_in_maintenance peers) ps s)
  unfolding attempt
  attempt-Describes ps s = attempt_state-Describes ps (from_label ps.state (chains_for ps)) _ refl

  -- The results, where no evaluation failed.
  abbrev Aligned : List (ProfileState E) → Progress → Type 0
  Aligned states progress =
      progress.errors ≡ []
      → (map (λ r. r.name) progress.results ≡ map (λ ps. ps.profile.name) states)
        × (map (λ r. r.state) progress.results ≡ map (λ ps. ps.state) states)

  abbrev Outside : Progress → Type 0
  Outside progress =
      All (λ r. ((any_in_maintenance peers) && not (keeps_out r)) ≡ false) progress.results

  add_attempt-Aligned :
      (ps : ProfileState E) (rest : List (ProfileState E)) (a : Attempt) (progress : Progress)
      → Describes (any_in_maintenance peers) ps a
      → Aligned rest progress
      → Aligned (ps ∷ rest) (add_attempt ps.profile.name a progress)
  unfolding add_attempt
  add_attempt-Aligned ps rest (inl err) progress h k e = cc
  add_attempt-Aligned ps rest (inr (r, none)) progress h k e =
      (cc (h.0, (k e).0), cc (h.1, (k e).1))
  add_attempt-Aligned ps rest (inr (r, some err)) progress h k e =
      elim (Bool-cases (is_retry err)) [
        | inl retry ↦
            (let same = k (rw retry at e) in rw retry (cc (h.0, same.0), cc (h.1, same.1)))
        | inr other ↦ absurd (grind (arith, rw other at e))
      ]

  add_attempt-Outside :
      (ps : ProfileState E) (a : Attempt) (progress : Progress)
      → Describes (any_in_maintenance peers) ps a
      → Outside progress
      → Outside (add_attempt ps.profile.name a progress)
  unfolding add_attempt
  add_attempt-Outside ps (inl err) progress h k = k
  add_attempt-Outside ps (inr (r, none)) progress h k = (h.2, k)
  add_attempt-Outside ps (inr (r, some err)) progress h k = elim (Bool-cases (is_retry err)) [
    | inl retry ↦ rw retry (h.2, k)
    | inr other ↦ rw other (h.2, k)
  ]

  attempt_all-Aligned :
      (states : List (ProfileState E)) (s : Session E)
      → Ends (λ a _. Aligned states a × Outside a) (attempt_all io peers states s)
  unfolding attempt_all
  attempt_all-Aligned [] s = ((λ e. (refl, refl)), tt)
  attempt_all-Aligned (ps ∷ rest) s = Ends-resume _ (attempt io (any_in_maintenance peers) ps s) _ (
      Ends-mono _ _ (attempt io (any_in_maintenance peers) ps s)
        (λ a u h. Ends-resume _ (attempt_all io peers rest u) _ (
          Ends-mono _ _ (attempt_all io peers rest u)
            (λ progress v k. (
              add_attempt-Aligned ps rest a progress h k.0,
              add_attempt-Outside ps a progress h k.1,
            ))
            (attempt_all-Aligned rest u)))
        (attempt-Describes ps s))

  -- If no evaluation fails (a retry is no failure), there is exactly one result for each profile,
  -- in order, with the name and the state of that profile: the indices of the second loop of
  -- ApplyProfiles are in range and meet the right profile.
  pub attempt_all_results :
      (states : List (ProfileState E)) (s s' : Session E) (progress : Progress)
      → attempt_all io peers states s ≡ (done progress, s')
      → progress.errors ≡ []
      → (map (λ r. r.name) progress.results ≡ map (λ ps. ps.profile.name) states)
        × (map (λ r. r.state) progress.results ≡ map (λ ps. ps.state) states)
  attempt_all_results states s s' progress e =
      (Ends-at _ _ progress s' (attempt_all-Aligned states s) e).0

module _ {E : Type 0} (io : Platform E) where
  any_in_maintenance_lem :
      (states : List (ProfileState E))
      → any_in_maintenance states ≡ any (λ ps. str_eq ps.state in_maintenance) states
  unfolding any_in_maintenance
  any_in_maintenance_lem [] = refl
  any_in_maintenance_lem (ps ∷ rest) = ground (arith, any_in_maintenance_lem rest)

  -- If some profile of the node is in maintenance when the evaluation of its profiles begins, no
  -- result moves a profile from another state into maintenance.
  pub attempt_all_exclusive :
      (states : List (ProfileState E)) (s s' : Session E) (progress : Progress)
      → any (λ ps. str_eq ps.state in_maintenance) states ≡ true
      → attempt_all io states states s ≡ (done progress, s')
      → All (λ r. keeps_out r ≡ true) progress.results
  attempt_all_exclusive states s s' progress b e =
      let busy = any_in_maintenance_lem states in
      All-map progress.results (λ r h. ground arith)
        (Ends-at _ _ progress s' (attempt_all-Aligned io states states s) e).1
