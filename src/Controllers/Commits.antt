-- ===== src/Controllers/Commits.antt =====
-- The second loop of ApplyProfiles: how the data of each profile moves.
use maintenance_controller.Base.{
  String, Bool, true, false, Option, none, some, List, [], ◌∷◌, map, ◌≡◌, refl, ◌∙◌, inl, inr,
  Assoc, lookup, insert, lookup-insert, GoMap, made, Outcome, done, Bool-cases, contains, arith,
  str_eq, eq_iff, eq_self, if◌then◌else◌,
}
use maintenance_controller.GoTime.{Time}
use maintenance_controller.World.{World, Platform}
use maintenance_controller.State.Data.{ProfileData, Session}
use maintenance_controller.State.Profiles.{ProfileState}
use maintenance_controller.Cache.{ProfileResult}
use maintenance_controller.Controllers.Handler.{commit_profile, commit_all}

abbrev Entry : Type 0
Entry = Option (Option ProfileData)

abbrev pub name_of : {E : Type 0} → ProfileState E → String
name_of ps = ps.profile.name

-- No profile is named twice.
abbrev pub Distinct : List String → Type 0
Distinct [] = Unit
Distinct (n ∷ ns) = (contains ns n ≡ false) × Distinct ns

-- Every profile has data that is no nil pointer.
abbrev pub HasData : {E : Type 0} → Assoc (Option ProfileData) → List (ProfileState E) → Type 0
HasData m [] = Unit
HasData m (ps ∷ rest) =
    ((d : ProfileData) × (lookup ps.profile.name m ≡ some (some d))) × HasData m rest

-- What the data of a profile becomes that was evaluated in `state`.
abbrev pub next_data : Time → String → ProfileResult → ProfileData → ProfileData
next_data now state r d = record {
  transition = if str_eq state r.applied.next then d.transition else now;
  current = if str_eq state r.applied.next then d.current else r.applied.next;
  previous = state;
}

-- The entry of a profile after its evaluation gave `r`.
abbrev pub advanced : Time → Bool → String → ProfileResult → Entry → Entry
advanced now retry state r none = none
advanced now retry state r (some none) = some none
advanced now retry state r (some (some d)) =
    some (some (if retry then d else next_data now state r d))

-- Each profile's entry has advanced by its own result, at a reading of the clock.
abbrev pub Advanced :
    {E : Type 0}
    → Platform E
    → List String
    → Assoc (Option ProfileData)
    → Assoc (Option ProfileData)
    → List (ProfileState E)
    → List ProfileResult
    → Type 0
Advanced io retrying m m' [] [] = Unit
Advanced io retrying m m' [] (r ∷ rs) = ⊥
Advanced io retrying m m' (ps ∷ rest) [] = ⊥
Advanced {E = E} io retrying m m' (ps ∷ rest) (r ∷ rs) =
    ((e : E) × (lookup ps.profile.name m'
        ≡ advanced (io.now e).0 (contains retrying ps.profile.name) ps.state r
            (lookup ps.profile.name m)))
    × Advanced io retrying m m' rest rs

abbrev pub session : {E : Type 0} → Assoc (Option ProfileData) → GoMap Time → World E → Session E
session m n w = record { data_of = record { profiles = made m; notifications = n }; world = w }

lookup-insert_other :
    (name k : String) (v : Option ProfileData) (m : Assoc (Option ProfileData))
    → str_eq k name ≡ false
    → lookup k (insert name v m) ≡ lookup k m
lookup-insert_other name k v m h =
    ground (arith, lookup-insert name k v m, eq_iff name k, eq_iff k name)

module _ {E : Type 0} (io : Platform E) where
  -- One commit stores the moved data, and may read the clock.
  commit_profile-stores :
      (ps : ProfileState E) (r : ProfileResult) (d : ProfileData) (m : Assoc (Option ProfileData))
      (n : GoMap Time) (w : World E)
      → r.state ≡ ps.state
      → (e : E) × (w' : World E) × (commit_profile io ps r (done d) (session m n w) ≡ (
        done tt,
        session (insert ps.profile.name (some (next_data (io.now e).0 ps.state r d)) m) n w',
      ))
  unfolding commit_profile
  commit_profile-stores ps r d m n w evaluated =
      elim (Bool-cases (str_eq ps.state r.applied.next)) [
        | inl same ↦ (w.ext, w, rw (same, evaluated))
        | inr other ↦ (w.ext, record w { ext = (io.now w.ext).1 }, rw (other, evaluated))
      ]

  HasData-insert :
      (name : String) (v : ProfileData) (m : Assoc (Option ProfileData))
      (states : List (ProfileState E))
      → HasData m states
      → HasData (insert name (some v) m) states
  HasData-insert name v m [] h = tt
  HasData-insert name v m (ps ∷ rest) ((d, e), h) = (
    (
      if str_eq name ps.profile.name then v else d,
      ground (arith, lookup-insert name ps.profile.name (some v) m),
    ),
    HasData-insert name v m rest h,
  )

  -- What was stored under another name does not matter.
  Advanced-insert :
      (retrying : List String) (name : String) (v : Option ProfileData)
      (m m' : Assoc (Option ProfileData)) (states : List (ProfileState E)) (rs : List ProfileResult)
      → contains (map name_of states) name ≡ false
      → Advanced io retrying (insert name v m) m' states rs
      → Advanced io retrying m m' states rs
  Advanced-insert retrying name v m m' [] [] h a = tt
  Advanced-insert retrying name v m m' (ps ∷ rest) (r ∷ rs) h ((now, e), a) = (
    (now, cc (e, lookup-insert_other name ps.profile.name v m (ground arith))),
    Advanced-insert retrying name v m m' rest rs (ground arith) a,
  )
  Advanced-insert retrying name v m m' [] (r ∷ rs) h a = a
  Advanced-insert retrying name v m m' (ps ∷ rest) [] h a = a

  -- The loop ended with the entries `m'`: the profiles have advanced, and no other entry changed.
  abbrev pub Commits :
      List String
      → List (ProfileState E)
      → List ProfileResult
      → Assoc (Option ProfileData)
      → GoMap Time
      → Outcome (Unit {0}) × Session E
      → Type 0
  Commits retrying states rs m n run =
      (m' : Assoc (Option ProfileData)) × (w' : World E) × (run ≡ (done tt, session m' n w'))
      × Advanced io retrying m m' states rs
      × ((k : String) → contains (map name_of states) k ≡ false → lookup k m' ≡ lookup k m)

  -- The entry of a profile is as `m₁` has it, when the loop comes to the profiles after it.
  Commits-cons :
      (retrying : List String) (ps : ProfileState E) (rest : List (ProfileState E))
      (r : ProfileResult) (rs : List ProfileResult) (m : Assoc (Option ProfileData))
      (v : Option ProfileData) (n : GoMap Time) (clock : E)
      (run run' : Outcome (Unit {0}) × Session E)
      → contains (map name_of rest) ps.profile.name ≡ false
      → some v
        ≡ advanced
            (io.now clock).0
            (contains retrying ps.profile.name)
            ps.state
            r
            (lookup ps.profile.name m)
      → run' ≡ run
      → Commits retrying rest rs (insert ps.profile.name v m) n run
      → Commits retrying (ps ∷ rest) (r ∷ rs) m n run'
  Commits-cons retrying ps rest r rs m v n clock run run' fresh adv same (m', w', e, a, others) = (
    m',
    w',
    same ∙ e,
    (
      (
        clock,
        others ps.profile.name fresh
            ∙ (ground (
              arith,
              lookup-insert ps.profile.name ps.profile.name v m,
              eq_self ps.profile.name,
            )
                ∙ adv),
      ),
      Advanced-insert retrying ps.profile.name v m m' rest rs fresh a,
    ),
    λ k h.
        others k (ground arith)
        ∙ lookup-insert_other ps.profile.name k v m
            (ground (arith, eq_iff ps.profile.name k, eq_iff k ps.profile.name)),
  )

  Commits-skip :
      (retrying : List String) (ps : ProfileState E) (rest : List (ProfileState E))
      (r : ProfileResult) (rs : List ProfileResult) (m : Assoc (Option ProfileData))
      (d : ProfileData) (n : GoMap Time) (clock : E) (run run' : Outcome (Unit {0}) × Session E)
      → contains (map name_of rest) ps.profile.name ≡ false
      → contains retrying ps.profile.name ≡ true
      → lookup ps.profile.name m ≡ some (some d)
      → run' ≡ run
      → Commits retrying rest rs m n run
      → Commits retrying (ps ∷ rest) (r ∷ rs) m n run'
  Commits-skip retrying ps rest r rs m d n clock run run' fresh skip has same
        (m', w', e, a, others) =
      (
        m',
        w',
        same ∙ e,
        ((clock, rw (others ps.profile.name fresh, skip, has) refl), a),
        λ k h. others k (ground arith),
      )

  pub commit_all-Commits :
      (retrying : List String) (states : List (ProfileState E)) (rs : List ProfileResult)
      (m : Assoc (Option ProfileData)) (n : GoMap Time) (w : World E)
      → Distinct (map name_of states)
      → HasData m states
      → map (λ r. r.name) rs ≡ map name_of states
      → map (λ r. r.state) rs ≡ map (λ ps. ps.state) states
      → Commits retrying states rs m n (commit_all io retrying states rs (session m n w))
  unfolding commit_all
  commit_all-Commits retrying [] [] m n w u h l k = (m, w, refl, tt, λ k _. refl)
  commit_all-Commits retrying [] (r ∷ rs) m n w u h l k = cc
  commit_all-Commits retrying (ps ∷ rest) [] m n w u h l k = cc
  commit_all-Commits retrying (ps ∷ rest) (r ∷ rs) m n w u ((d, has), h) l k =
      elim (Bool-cases (contains retrying ps.profile.name)) [
        | inl skip ↦
            Commits-skip retrying ps rest r rs m d n w.ext _ _ u.0 skip has (rw skip)
              (commit_all-Commits retrying rest rs m n w u.1 h (cc l) (cc k))
        | inr go ↦
            (let (clock, w', run) = commit_profile-stores ps r d m n w (cc k) in
              let v = next_data (io.now clock).0 ps.state r d in
              Commits-cons retrying ps rest r rs m (some v) n clock _ _ u.0 (rw (go, has) refl)
                (rw (go, has, run) refl)
                (commit_all-Commits retrying rest rs (insert ps.profile.name (some v) m) n w' u.1
                  (HasData-insert ps.profile.name v m rest h) (cc l) (cc k)))
      ]
