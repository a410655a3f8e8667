-- ===== src/Controllers/Views.antt =====
-- ApplyProfiles: a failed evaluation leaves the data of every profile as it was.
use maintenance_controller.Base.{
  Option, List, [], ◌∷◌, ◌≡◌, refl, ◌∙◌, ◌⊎◌, inl, inr, Assoc, GoMap, made, Outcome, done, panicked,
  resume-keeps,
}
use maintenance_controller.Errors.{Error}
use maintenance_controller.GoTime.{Time}
use maintenance_controller.World.{World, Platform}
use maintenance_controller.Cache.{NodeInfoCache}
use maintenance_controller.State.Data.{ProfileData, Data, Session, profile_entry}
use maintenance_controller.State.Profiles.{ProfileState, pointed}
use maintenance_controller.State.Apply.{NodeState, from_label, apply}
use maintenance_controller.State.Frame.{apply-keeps}
use maintenance_controller.Controllers.Handler.{
  Frame, Config, Progress, parameters_for, chains_for, apply_state, attempt_state, attempt,
  attempt_all, any_in_maintenance,
}
use maintenance_controller.Controllers.Evaluate.{show_node}

module _ {V E : Type 0} (view : Data → V)
    (same : (ps : GoMap (Option ProfileData)) (x y : Assoc Time)
      → view (record { profiles = ps; notifications = made x })
        ≡ view (record { profiles = ps; notifications = made y }))
    (io : Platform E) (peers : List (ProfileState E)) where
  apply_state-keeps :
      (ps : ProfileState E) (state : NodeState E) (d : Outcome ProfileData) (s : Session E)
      → view (apply_state io (any_in_maintenance peers) ps state d s).1.data_of ≡ view s.data_of
  unfolding apply_state
  apply_state-keeps ps state panicked s = refl
  apply_state-keeps ps state (done d) s =
      let p = parameters_for s ps (any_in_maintenance peers) d in
      resume-keeps (λ u. view u.data_of) (apply io state p s) _ _
        (apply-keeps view same io p state s) (λ a u h. h)

  attempt_state-keeps :
      (ps : ProfileState E) (found : Error ⊎ NodeState E) (s : Session E)
      → view (attempt_state io (any_in_maintenance peers) ps found s).1.data_of ≡ view s.data_of
  unfolding attempt_state
  attempt_state-keeps ps (inl err) s = refl
  attempt_state-keeps ps (inr state) s =
      apply_state-keeps ps state (pointed (profile_entry s.data_of ps.profile.name)) s

  attempt-keeps :
      (ps : ProfileState E) (s : Session E)
      → view (attempt io (any_in_maintenance peers) ps s).1.data_of ≡ view s.data_of
  unfolding attempt
  attempt-keeps ps s = attempt_state-keeps ps (from_label ps.state (chains_for ps)) _

  pub attempt_all-keeps :
      (states : List (ProfileState E)) (s : Session E)
      → view (attempt_all io peers states s).1.data_of ≡ view s.data_of
  unfolding attempt_all
  attempt_all-keeps [] s = refl
  attempt_all-keeps (ps ∷ rest) s =
      resume-keeps (λ u. view u.data_of) (attempt io (any_in_maintenance peers) ps s) _ _
        (attempt-keeps ps s)
        (λ a u h.
          resume-keeps (λ u. view u.data_of) (attempt_all io peers rest u) _ _
            (attempt_all-keeps rest u ∙ h) (λ progress v k. k))

module _ {E : Type 0} (io : Platform E) (config : Config E) where
  pub show_node_session :
      (progress : Progress) (f : Frame E)
      → (w : World E) × (c : NodeInfoCache) × (show_node io config progress f ≡ (
        done tt,
        record { session = record { data_of = f.session.data_of; world = w }; cache = c },
      ))
  unfolding show_node
  show_node_session progress f = (_, _, refl)
