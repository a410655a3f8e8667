-- ===== src/Controllers/KnownData.antt =====
-- The second loop of ApplyProfiles and the selection of profiles keep to known states.
use maintenance_controller.Base.{
  String, Bool, true, false, Option, none, some, List, [], ◌∷◌, ◌≡◌, refl, ◌⊎◌, ◌∙◌, inl, inr,
  Assoc, lookup, lookup-insert, GoMap, made, nil_map, get, put, or_else, Outcome, done, panicked,
  resume-stays, All, Bool-cases, Option-cases, arith, str_eq, contains,
}
use mathlib.Core.Path.{subst}
use maintenance_controller.GoTime.{Time}
use maintenance_controller.World.{Platform}
use maintenance_controller.State.Data.{ProfileData, Data, Session, profile_entry, stored}
use maintenance_controller.State.Profiles.{
  Profile, ProfileState, pointed, select_profiles, with_profiles, cons_outcome, with_states,
}
use maintenance_controller.State.Known.{
  is_state, known_entry, no_profile, HasKnownStates, HasKnownTargets, HasKnownProfiles,
  targets_known, chains_in,
}
use maintenance_controller.State.Maintained.{settled, kept_entry}
use maintenance_controller.Cache.{ProfileResult}
use maintenance_controller.Controllers.Handler.{moved, commit_profile, commit_all}
use maintenance_controller.Controllers.KnownStates.{LeadsToState, AllKnown}

abbrev known_outcome : Outcome ProfileData → Bool
known_outcome panicked = true
known_outcome (done d) = is_state d.current

known_outcome-pointed :
    (e : Option (Option ProfileData)) → known_outcome (pointed e) ≡ known_entry e
known_outcome-pointed none = refl
known_outcome-pointed (some none) = refl
known_outcome-pointed (some (some d)) = refl

moved-is_state :
    (now : Time) (state : String) (r : ProfileResult) (d : ProfileData)
    → LeadsToState r
    → is_state d.current ≡ true
    → is_state (moved now state r d).current ≡ true
moved-is_state now state r d h k = elim (Bool-cases (str_eq state r.applied.next)) [
  | inl y ↦ rw y k
  | inr n ↦ rw n h
]

pub known_entry-settled :
    (e : Option (Option ProfileData)) (selected : Bool) (t : Time)
    → known_entry e ≡ true
    → known_entry (settled e selected t) ≡ true
known_entry-settled (some d) selected t h = h
known_entry-settled none true t h = refl
known_entry-settled none false t h = refl

pub known_entry-kept_entry :
    (str : String) (d : Data) (k : String)
    → HasKnownStates d
    → known_entry (kept_entry str d k) ≡ true
known_entry-kept_entry str d k h = ground (arith, h k)

pub Outcome-cases {ℓ} : {A : Type ℓ} → (o : Outcome A) → (o ≡ panicked) ⊎ ((a : A) × (o ≡ done a))
Outcome-cases panicked = inl refl
Outcome-cases (done a) = inr (a, refl)

abbrev pub KnownList : {E : Type 0} → Outcome (List (ProfileState E)) → Type 0
KnownList panicked = Unit
KnownList (done states) = AllKnown states

cons_outcome-Known :
    {E : Type 0} (ps : ProfileState E) (o : Outcome (List (ProfileState E)))
    → HasKnownTargets ps.profile
    → KnownList o
    → KnownList (cons_outcome ps o)
cons_outcome-Known ps panicked h k = tt
cons_outcome-Known ps (done states) h k = (h, k)

module _ {E : Type 0} where
  store-stays :
      (s : Session E) (m : GoMap (Option ProfileData)) (name : String) (x : ProfileData)
      → HasKnownStates s.data_of
      → ((k : String) → known_entry (get m k) ≡ true)
      → is_state x.current ≡ true
      → HasKnownStates (stored (with_profiles s.data_of) (put name (some x) m) s).1.data_of
  store-stays s nil_map name x h h' e k = h k
  store-stays s (made m) name x h h' e k = elim (Bool-cases (str_eq name k)) [
    | inl y ↦ rw (lookup-insert name k (some x) m, y) e
    | inr n ↦ rw (lookup-insert name k (some x) m, n) (h' k)
  ]

  commit_profile-stays :
      (io : Platform E) (ps : ProfileState E) (r : ProfileResult) (d : Outcome ProfileData)
      (s : Session E)
      → LeadsToState r
      → known_outcome d ≡ true
      → HasKnownStates s.data_of
      → HasKnownStates (commit_profile io ps r d s).1.data_of
  unfolding commit_profile
  commit_profile-stays io ps r panicked s e h known = known
  commit_profile-stays io ps r (done d) s e h known =
      elim (Bool-cases (str_eq ps.state r.applied.next)) [
        | inl y ↦ rw y (
            store-stays s s.data_of.profiles ps.profile.name (record d { previous = r.state }) known
              known h)
        | inr n ↦ rw n (
            let now = io.now s.world.ext in
            store-stays (record s { world = record s.world { ext = now.1 } }) s.data_of.profiles
              ps.profile.name
              (record { transition = now.0; current = r.applied.next; previous = r.state }) known
              known e)
      ]

  pub commit_all-stays :
      (io : Platform E) (retrying : List String) (states : List (ProfileState E))
      (results : List ProfileResult) (s : Session E)
      → All LeadsToState results
      → HasKnownStates s.data_of
      → HasKnownStates (commit_all io retrying states results s).1.data_of
  unfolding commit_all
  commit_all-stays io retrying [] results s h known = known
  commit_all-stays io retrying (ps ∷ rest) [] s h known =
      elim (Bool-cases (contains retrying ps.profile.name)) [
        | inl y ↦ rw y (commit_all-stays io retrying rest [] s h known)
        | inr n ↦ rw n known
      ]
  commit_all-stays io retrying (ps ∷ rest) (r ∷ results) s h known =
      elim (Bool-cases (contains retrying ps.profile.name)) [
        | inl y ↦ rw y (commit_all-stays io retrying rest results s h.1 known)
        | inr n ↦ rw n (
            let d = pointed (profile_entry s.data_of ps.profile.name) in
            resume-stays (λ u. HasKnownStates u.data_of) (commit_profile io ps r d s) _
              (commit_profile-stays io ps r d s h.0
                (known_outcome-pointed (profile_entry s.data_of ps.profile.name)
                  ∙ known ps.profile.name)
                known)
              (λ a u k. commit_all-stays io retrying rest results u h.1 k))
      ]

  pub select_profiles-Known :
      (names : List String) (available : Assoc (Profile E))
      → HasKnownProfiles available
      → All HasKnownTargets (select_profiles names available)
  unfolding select_profiles
  select_profiles-Known [] available h = tt
  select_profiles-Known (name ∷ names) available h = elim (Option-cases (lookup name available)) [
    | inl e ↦ rw (e, All) (select_profiles-Known names available h)
    | inr (p, e) ↦
        rw (e, All)
          (
            (λ k.
                subst (λ o. targets_known (chains_in (or_else o no_profile) k).transitions ≡ true) e
                  (h name k)),
            select_profiles-Known names available h,
          )
  ]

  pub with_states-Known :
      (d : Data) (ps : List (Profile E)) → All HasKnownTargets ps → KnownList (with_states d ps)
  unfolding with_states
  with_states-Known d [] h = tt
  with_states-Known d (p ∷ ps) h = elim (Outcome-cases (pointed (profile_entry d p.name))) [
    | inl e ↦ rw (e, KnownList) tt
    | inr (x, e) ↦
        rw (e, KnownList)
          (cons_outcome-Known (record { profile = p; state = x.current }) (with_states d ps) h.0
            (with_states-Known d ps h.1))
  ]
