-- ===== src/State/Maintained.antt =====
-- MaintainProfileStates and GetProfilesWithState: the data of each profile afterwards.
use maintenance_controller.Base.{
  String, Bool, true, false, Option, none, some, List, [], ◌∷◌, map, ◌≡◌, refl, ◌∙◌, inl, inr,
  Assoc, lookup, insert, erase, lookup-insert, lookup-erase, GoMap, nil_map, made, entries,
  make_if_nil, Outcome, done, Bool-cases, Option-cases, contains, arith, str_eq, eq_iff,
  if◌then◌else◌, All-map, any, any-congr, contains-map, panicked,
}
use maintenance_controller.GoTime.{Time}
use maintenance_controller.World.{World, Platform}
use maintenance_controller.State.Labels.{contains_profile}
use maintenance_controller.State.Data.{ProfileData, Data, Session, profile_entry}
use maintenance_controller.State.Profiles.{
  Profile, effective, unused, erase_all, cleaned, fresh, over_entries, get_profiles, init_profile,
  init_profiles, maintain_profile_states, with_states, get_profiles_with_state,
}

abbrev Entry : Type 0
Entry = Option (Option ProfileData)

-- The entry of a profile: what was there is kept, and a selected profile gets a fresh one.
abbrev pub settled : Entry → Bool → Time → Entry
settled (some d) selected t = some d
settled none true t = some (some (fresh t))
settled none false t = none

lookup-erase_all :
    (names : List String) (k : String) (m : Assoc (Option ProfileData))
    → lookup k (erase_all names m) ≡ (if contains names k then none else lookup k m)
unfolding erase_all
lookup-erase_all [] k m = refl
lookup-erase_all (name ∷ names) k m =
    rw (lookup-erase_all names k (erase name m), lookup-erase name k m) (ground arith)

contains-unused_kept :
    (str k : String) (m : Assoc (Option ProfileData))
    → contains_profile str k ≡ true
    → contains (unused str m) k ≡ false
unfolding unused
contains-unused_kept str k [] h = refl
contains-unused_kept str k ((j, d) ∷ m) h =
    ground (arith, contains-unused_kept str k m h, eq_iff j k)

contains-unused_gone :
    (str k : String) (m : Assoc (Option ProfileData)) (d : Option ProfileData)
    → contains_profile str k ≡ false
    → lookup k m ≡ some d
    → contains (unused str m) k ≡ true
unfolding unused lookup
contains-unused_gone str k [] d h e = cc
contains-unused_gone str k ((j, c) ∷ m) d h e =
    ground (arith, contains-unused_gone str k m d h, eq_iff j k)

entries-over_entries :
    {V : Type 0} (f : Assoc V → Assoc V) (m : GoMap V)
    → over_entries f (make_if_nil m) ≡ made (f (entries m))
entries-over_entries f nil_map = refl
entries-over_entries f (made m) = refl

-- The data after the unused profiles are gone.
abbrev pub kept_entry : String → Data → String → Entry
kept_entry str d k = if contains_profile str k then profile_entry d k else none

lookup-cleaned :
    (str k : String) (d : Data)
    → lookup k (erase_all (unused str (entries d.profiles)) (entries d.profiles))
      ≡ kept_entry str d k
lookup-cleaned str k d =
    let m = entries d.profiles in
    rw (lookup-erase_all (unused str m) k m) (elim (Bool-cases (contains_profile str k)) [
      | inl y ↦ rw (y, contains-unused_kept str k m y) refl
      | inr n ↦ elim (Option-cases (lookup k m)) [
        | inl e ↦ rw (n, e) (ground arith)
        | inr (v, e) ↦ rw (n, contains-unused_gone str k m v n e) refl
      ]
    ])

-- A session whose profiles are the entries `m`.
abbrev pub session : {E : Type 0} → Assoc (Option ProfileData) → GoMap Time → World E → Session E
session m n w = record { data_of = record { profiles = made m; notifications = n }; world = w }

module _ {E : Type 0} (io : Platform E) where
  -- The run ended with the entries `m'`, each settled for the names.
  abbrev Settles :
      List String
      → Assoc (Option ProfileData)
      → GoMap Time
      → Outcome (Unit {0}) × Session E
      → Type 0
  Settles names m n r =
      (m' : Assoc (Option ProfileData)) × (w' : World E) × (r ≡ (done tt, session m' n w'))
      × ((k : String) → (t : Time) × (lookup k m' ≡ settled (lookup k m) (contains names k) t))

  abbrev read_clock : World E → Time × World E
  read_clock w = let (t, e) = io.now w.ext in (t, record w { ext = e })

  init_profile_absent :
      (name : String) (m : Assoc (Option ProfileData)) (n : GoMap Time) (w : World E)
      → lookup name m ≡ none
      → init_profile io name (session m n w)
        ≡ (done tt, session (insert name (some (fresh (read_clock w).0)) m) n (read_clock w).1)
  unfolding init_profile
  init_profile_absent name m n w e = rw (e, init_profile)

  init_profile_present :
      (name : String) (m : Assoc (Option ProfileData)) (n : GoMap Time) (w : World E)
      (d : Option ProfileData)
      → lookup name m ≡ some d
      → init_profile io name (session m n w) ≡ (done tt, session m n w)
  unfolding init_profile
  init_profile_present name m n w d e = rw (e, init_profile)

  init_profiles-Settles :
      (ps : List (Profile E)) (m : Assoc (Option ProfileData)) (n : GoMap Time) (w : World E)
      → Settles (map (λ p. p.name) ps) m n (init_profiles io ps (session m n w))
  unfolding init_profiles
  init_profiles-Settles [] m n w = (m, w, refl, λ k. (0, ground arith))
  init_profiles-Settles (p ∷ ps) m n w = elim (Option-cases (lookup p.name m)) [
    | inl e ↦
        (let now = (read_clock w).0 in
          let m₁ = insert p.name (some (fresh now)) m in
          let (m', w', run, at) = init_profiles-Settles ps m₁ n (read_clock w).1 in
          (
            m',
            w',
            rw (init_profile_absent p.name m n w e) run,
            λ k. (
              if str_eq p.name k then now else (at k).0,
              ground
                  (arith, (at k).1, lookup-insert p.name k (some (fresh now)) m, eq_iff p.name k),
            ),
          ))
    | inr (v, e) ↦
        (let (m', w', run, at) = init_profiles-Settles ps m n w in
          (
            m',
            w',
            rw (init_profile_present p.name m n w v e) run,
            λ k. ((at k).0, ground (arith, (at k).1, eq_iff p.name k)),
          ))
  ]

  -- MaintainProfileStates always returns, and touches only the profiles' data and the clock. The
  -- entry of each profile is then the one it had, if the profile stands in the node's label (or is
  -- the default profile of an empty label); otherwise it is gone. A profile that is selected and
  -- has no such entry gets a fresh one, operational since the time that was read.
  pub maintain_profile_states-settles :
      (str : String) (available : Assoc (Profile E)) (s : Session E)
      → (m : Assoc (Option ProfileData)) × (w' : World E) × (maintain_profile_states io str
            available s
          ≡ (done tt, session m s.data_of.notifications w'))
        × ((k : String)
            → (t : Time) × (lookup k m
                ≡ settled
                    (kept_entry (effective str) s.data_of k)
                    (contains (map (λ p. p.name) (get_profiles (effective str) available)) k)
                    t))
  unfolding maintain_profile_states cleaned
  maintain_profile_states-settles str available s =
      let eff = effective str in
      let m₀ = entries s.data_of.profiles in
      let ps = get_profiles eff available in
      let (m, w', run, at) =
        init_profiles-Settles ps (erase_all (unused eff m₀) m₀) s.data_of.notifications s.world in
      (
        m,
        w',
        rw (entries-over_entries (λ x. erase_all (unused eff x) x) s.data_of.profiles) run,
        λ k. ((at k).0, rw (← lookup-cleaned eff k s.data_of) (at k).1),
      )

-- The entry is a nil pointer: the JSON of the annotation had `null` for the profile.
abbrev pub is_nil : Entry → Bool
is_nil (some none) = true
is_nil (some (some d)) = false
is_nil none = false

abbrev lacks_data : Entry → Bool
lacks_data (some (some d)) = false
lacks_data (some none) = true
lacks_data none = true

abbrev pub has_panicked {ℓ} : {A : Type ℓ} → Outcome A → Bool
has_panicked (done a) = false
has_panicked panicked = true

with_states_panics :
    {E : Type 0} (d : Data) (ps : List (Profile E))
    → has_panicked (with_states d ps) ≡ any (λ p. lacks_data (profile_entry d p.name)) ps
unfolding with_states
with_states_panics d [] = refl
with_states_panics d (p ∷ ps) = ground (arith, with_states_panics d ps)

lacks_data-settled : (e : Entry) (t : Time) → lacks_data (settled e true t) ≡ is_nil e
lacks_data-settled e t = ground arith

module _ {E : Type 0} (io : Platform E) where
  -- After MaintainProfileStates, GetProfilesWithState panics exactly if some selected profile
  -- stands in the label and has a nil pointer in the data.
  pub get_profiles_with_state_panics :
      (str : String) (available : Assoc (Profile E)) (s : Session E)
      → has_panicked (
          get_profiles_with_state
            (maintain_profile_states io str available s).1.data_of
            str
            available)
        ≡ any
            (λ p. is_nil (kept_entry (effective str) s.data_of p.name))
            (get_profiles (effective str) available)
  unfolding get_profiles_with_state
  get_profiles_with_state_panics str available s =
      let eff = effective str in
      let ps = get_profiles eff available in
      let (m, w', run, at) = maintain_profile_states-settles io str available s in
      rw run (
        with_states_panics (session m s.data_of.notifications w').data_of ps
        ∙ any-congr _ _ ps (
            All-map ps
              (λ p h. cc (
                (at p.name).1,
                h,
                lacks_data-settled (kept_entry eff s.data_of p.name) (at p.name).0,
              ))
              (contains-map (λ p. p.name) ps)))
