-- ===== src/Impl/Candidates.antt =====
-- maxMaintenance: which nodes count, and when the check passes.
use maintenance_controller.Base.{
  String, Bool, true, false, not, ◌&&◌, ◌||◌, none, some, List, [], ◌∷◌, ◌≡◌, refl, ◌∙◌, panicked,
  all, GoMap, get, done, str_eq, Bool-cases, Option-cases, inl, inr, ap,
}
use maintenance_controller.Base.Int.{ltb_ℤ}
use maintenance_controller.GoTime.{Time, sub_time}
use maintenance_controller.State.Data.{Codec}
use maintenance_controller.World.{Node}
use maintenance_controller.Impl.MaxMaintenance.{
  MaxMaintenance, keep, in_profile, has_value, filter_profile_name, filter_group_label,
  filter_groups, candidates, node_recent, skips,
}

abbrev pub in_group : GoMap String → Node → String → Bool
in_group own node label = elim (get own label) [
  | none ↦ true
  | some value ↦ str_eq label "" || (str_eq value "" || has_value label value node)
]

abbrev pub counts : MaxMaintenance → GoMap String → Node → Bool
counts m own node =
    (str_eq m.profile "" || in_profile m.profile node) && all (in_group own node) m.group_by

pub keep-keep {ℓ} :
    {A : Type ℓ} (p q : A → Bool) (xs : List A) → keep q (keep p xs) ≡ keep (λ x. p x && q x) xs
unfolding keep
keep-keep p q [] = refl
keep-keep p q (x ∷ xs) = elim (Bool-cases (p x)) [
  | inl y ↦ rw y (elim (Bool-cases (q x)) [
    | inl z ↦ rw (z, keep-keep p q xs) refl
    | inr n ↦ rw (n, keep-keep p q xs) refl
  ])
  | inr n ↦ rw n (keep-keep p q xs)
]

keep-congr {ℓ} :
    {A : Type ℓ} (p q : A → Bool) (xs : List A) → ((x : A) → p x ≡ q x) → keep p xs ≡ keep q xs
keep-congr p q xs h = ap (λ f. keep f xs) (λ i x. h x i)

keep_all {ℓ} : {A : Type ℓ} (xs : List A) → keep (λ x. true) xs ≡ xs
unfolding keep
keep_all [] = refl
keep_all (x ∷ xs) = rw (keep_all xs) refl

filter_profile_name-keep :
    (profile : String) (nodes : List Node)
    → filter_profile_name profile nodes
      ≡ keep (λ n. str_eq profile "" || in_profile profile n) nodes
unfolding filter_profile_name
filter_profile_name-keep profile nodes = elim (Bool-cases (str_eq profile "")) [
  | inl y ↦ rw (y, keep_all nodes) refl
  | inr n ↦ rw n refl
]

filter_group_label-keep :
    (label value : String) (nodes : List Node)
    → filter_group_label label value nodes
      ≡ keep (λ n. str_eq label "" || (str_eq value "" || has_value label value n)) nodes
unfolding filter_group_label
filter_group_label-keep label value nodes = elim (Bool-cases (str_eq label "")) [
  | inl y ↦ rw (y, keep_all nodes) refl
  | inr n ↦ elim (Bool-cases (str_eq value "")) [
    | inl y ↦ rw (n, y, keep_all nodes) refl
    | inr m ↦ rw (n, m) refl
  ]
]

filter_groups-keep :
    (own : GoMap String) (labels : List String) (nodes : List Node)
    → filter_groups own labels nodes ≡ keep (λ n. all (in_group own n) labels) nodes
unfolding filter_groups
filter_groups-keep own [] nodes = rw (keep_all nodes) refl
filter_groups-keep own (label ∷ labels) nodes = elim (Option-cases (get own label)) [
  | inl e ↦
      rw (e, filter_groups)
        (filter_groups-keep own labels nodes ∙ keep-congr _ _ nodes (λ n. rw (e, in_group) refl))
  | inr (value, e) ↦
      rw (e, filter_groups)
        (rw (filter_group_label-keep label value nodes) (
          filter_groups-keep own labels _
          ∙ (keep-keep _ _ nodes
              ∙ keep-congr
                  (λ n.
                    (str_eq label "" || (str_eq value "" || has_value label value n))
                    && all (in_group own n) labels)
                  (λ n. all (in_group own n) (label ∷ labels)) nodes (λ n. rw (e, in_group) refl))))
]

-- The nodes that count are those of the list, in its order, that have the profile (every node, if
-- no profile is configured) and agree with the evaluated node on each of the labels to group by
-- that the evaluated node has with a value that is not empty.
pub candidates-keep :
    (m : MaxMaintenance) (own : GoMap String) (nodes : List Node)
    → candidates m own nodes ≡ keep (counts m own) nodes
candidates-keep m own nodes =
    rw (filter_profile_name-keep m.profile nodes)
      (filter_groups-keep own m.group_by _ ∙ keep-keep _ _ nodes)

-- The node's latest transition can be read, and is more recent than the time to skip.
abbrev pub is_recent : Codec → MaxMaintenance → Time → Node → Bool
is_recent json m now node = elim (node_recent json m.profile node) [
  | panicked ↦ false
  | done (inl err) ↦ false
  | done (inr t) ↦ ltb_ℤ (sub_time now t) m.skip_after
]

-- A node counts, and also has a recent transition if the check is to skip old ones.
abbrev pub is_counted : Codec → MaxMaintenance → GoMap String → Time → Node → Bool
is_counted json m own now node = counts m own node && (not (skips m) || is_recent json m now node)
