-- ===== src/Controllers/KnownNode.antt =====
-- HandleNode leads from data whose profiles are in states to data whose profiles are in states.
use maintenance_controller.Base.{
  String, Option, none, some, List, [], ◌∷◌, ◌≡◌, refl, sym, inl, inr, make_if_nil, put, map,
  contains, Outcome, done, panicked, Ends-zoom, resume-stays, resume-stays_with, All,
}
use mathlib.Core.Path.{subst}
use maintenance_controller.Base.Text.{split}
use maintenance_controller.Errors.{Error}
use maintenance_controller.World.{Platform}
use maintenance_controller.State.Data.{Data, Session}
use maintenance_controller.State.Labels.{profile_separator}
use maintenance_controller.State.Profiles.{
  ProfileState, effective, get_profiles, get_profiles_with_state,
}
use maintenance_controller.State.Known.{HasKnownStates, HasKnownProfiles}
use maintenance_controller.State.Maintained.{kept_entry, maintain_profile_states-settles}
use maintenance_controller.Controllers.Handler.{
  Frame, Config, Progress, attempt_all, commit_all, ensure_label_map, maintain_states, profiles_str,
  in_session, node_labels, state_label_key, with_labels,
}
use maintenance_controller.Controllers.Evaluate.{
  Handler, show_node, conclude_profiles, apply_states, apply_profiles, states_of, write_label,
  label_for, update_state_label, handlers, run_handlers, handle_node,
}
use maintenance_controller.Controllers.Views.{attempt_all-keeps}
use maintenance_controller.Controllers.KnownStates.{LeadsToState, AllKnown, attempt_all-Leads}
use maintenance_controller.Controllers.KnownData.{
  known_entry-settled, known_entry-kept_entry, commit_all-stays, select_profiles-Known,
  with_states-Known, KnownList, Outcome-cases,
}

abbrev Stays : {E : Type 0} → Frame E → Type 0
Stays f = HasKnownStates f.session.data_of

module _ {E : Type 0} (io : Platform E) (config : Config E) where
  get_profiles_with_state-Known :
      (d : Data) (str : String)
      → HasKnownProfiles config.profiles
      → KnownList (get_profiles_with_state d str config.profiles)
  unfolding get_profiles_with_state get_profiles
  get_profiles_with_state-Known d str h =
      with_states-Known d (get_profiles (effective str) config.profiles)
        (select_profiles-Known (split (effective str) profile_separator) config.profiles h)

  attempt_all-stays :
      (states : List (ProfileState E)) (s : Session E)
      → HasKnownStates s.data_of
      → HasKnownStates (attempt_all io states states s).1.data_of
  attempt_all-stays states s known k =
      subst (λ m. HasKnownStates (record s.data_of { profiles = m }))
        (sym (attempt_all-keeps (λ d. d.profiles) (λ ps x y. refl) io states states s)) known k

  conclude_profiles-Stays :
      (states : List (ProfileState E)) (progress : Progress) (errs : List Error) (f : Frame E)
      → All LeadsToState progress.results
      → Stays f
      → Stays (conclude_profiles io states progress errs f).1
  unfolding conclude_profiles
  conclude_profiles-Stays states progress [] f h known =
      resume-stays Stays (in_session (commit_all io progress.retrying states progress.results) f) _
        (commit_all-stays io progress.retrying states progress.results f.session h known)
        (λ a u k. k)
  conclude_profiles-Stays states progress (e ∷ es) f h known = known

  apply_states-Stays :
      (states : List (ProfileState E)) (f : Frame E)
      → AllKnown states
      → Stays f
      → Stays (apply_states io config states f).1
  unfolding apply_states show_node
  apply_states-Stays states f targets known =
      let run = attempt_all io states states in
      resume-stays_with Stays (λ progress. All LeadsToState progress.results) (in_session run f) _
        (attempt_all-stays states f.session known)
        (Ends-zoom _ (λ s f. record f { session = s }) f (run f.session)
          (attempt_all-Leads io states states f.session targets))
        (λ progress u h k. conclude_profiles-Stays states progress progress.errors _ h k)

  apply_profiles-Stays :
      HasKnownProfiles config.profiles
      → (f : Frame E) → Stays f
      → Stays (apply_profiles io config f).1
  unfolding apply_profiles
  apply_profiles-Stays h f known = go (states_of config f.session) refl
    where
      known_states : KnownList (states_of config f.session)
      known_states = get_profiles_with_state-Known f.session.data_of (profiles_str f.session) h

      go :
          (o : Outcome (List (ProfileState E)))
          → o ≡ states_of config f.session
          → Stays (apply_profiles io config f).1
      go panicked e = rw (← e) known
      go (done states) e =
          rw (← e) (apply_states-Stays states f (subst KnownList (sym e) known_states) known)

  maintain_states-stays :
      (s : Session E)
      → HasKnownStates s.data_of
      → HasKnownStates (maintain_states io config s).1.data_of
  unfolding maintain_states
  maintain_states-stays s known =
      let (m, w', run, at) =
        maintain_profile_states-settles io (profiles_str s) config.profiles s in
      rw run (λ k. rw (at k).1 (
        known_entry-settled (kept_entry (effective (profiles_str s)) s.data_of k)
          (contains (map (λ p. p.name) (get_profiles (effective (profiles_str s)) config.profiles))
            k)
          (at k).0 (known_entry-kept_entry (effective (profiles_str s)) s.data_of k known)))

  write_label-stays :
      (label : String) (s : Session E)
      → HasKnownStates s.data_of
      → HasKnownStates (write_label label s).1.data_of
  unfolding write_label
  write_label-stays label s known =
      elim (Outcome-cases (put state_label_key label (node_labels s))) [
        | inl e ↦ rw (e, write_label) known
        | inr (m, e) ↦ rw (e, write_label) known
      ]

  update_state_label-stays :
      (s : Session E)
      → HasKnownStates s.data_of
      → HasKnownStates (update_state_label config s).1.data_of
  unfolding update_state_label write_label
  update_state_label-stays s known = elim (Outcome-cases (states_of config s)) [
    | inl e ↦ rw e known
    | inr (states, e) ↦ rw e (
        let u = with_labels (make_if_nil (node_labels s)) s in
        resume-stays (λ v. HasKnownStates v.data_of) (write_label (label_for states) u) _
          (write_label-stays (label_for states) u known) (λ a v k. k))
  ]

  run_handlers-Stays :
      (hs : List (Handler E)) (f : Frame E)
      → All (λ h. (f : Frame E) → Stays f → Stays (h f).1) hs
      → Stays f
      → Stays (run_handlers hs f).1
  unfolding run_handlers
  run_handlers-Stays [] f all known = known
  run_handlers-Stays (h ∷ hs) f all known =
      resume-stays Stays (h f) _ (all.0 f known) (next (λ u k. run_handlers-Stays hs u all.1 k))
    where
      next :
          ((u : Frame E) → Stays u → Stays (run_handlers hs u).1)
          → (answer : Option Error) (u : Frame E) → Stays u
          → Stays (run_handlers ((λ v. (done answer, v)) ∷ hs) u).1
      next rest none u k = rest u k
      next rest (some err) u k = k

  -- If every transition of the configured profiles leads to a state, and every profile in the data of a node
  -- is in a state, this is still so after HandleNode: whether it succeeds, fails or panics.
  pub handle_node-HasKnownStates :
      (f : Frame E)
      → HasKnownProfiles config.profiles
      → HasKnownStates f.session.data_of
      → HasKnownStates (handle_node io config f).1.session.data_of
  unfolding handle_node ensure_label_map
  handle_node-HasKnownStates f h known =
      run_handlers-Stays (handlers io config) f
        (
          (λ g k. k),
          (
            (λ g k. maintain_states-stays g.session k),
            (
              (λ g k. apply_profiles-Stays h g k),
              ((λ g k. update_state_label-stays g.session k), tt),
            ),
          ),
        )
        known
