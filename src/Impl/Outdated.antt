-- ===== src/Impl/Outdated.antt =====
-- clusterSemver: which nodes have an outdated version.
use maintenance_controller.Base.{
  String, Bool, true, false, ◌||◌, none, some, List, [], ◌∷◌, ◌≡◌, refl, ap, ◌∙◌, ◌⊎◌, inl, inr,
  get, is_some, All, Option-cases, Bool-cases, arith, any, if◌then◌else◌,
}
use maintenance_controller.Errors.{Error}
use maintenance_controller.World.{Node}
use maintenance_controller.Impl.Semver.{
  ClusterSemver, Versions, raised, max_version, filter_by_profile, compare_listed,
}

module _ {V : Type 0} (semver : Versions V) (conf : ClusterSemver) where
  abbrev below : V → Error ⊎ V → Bool
  below own (inl err) = false
  below own (inr v) = semver.lt own v

  -- The label of the node holds a version above the one that is given.
  abbrev pub is_newer : V → Node → Bool
  is_newer own node = elim (get node.labels conf.key) [
    | none ↦ false
    | some text ↦ below own (semver.parse text)
  ]

  -- LT is a strict weak order, and GT its reverse.
  abbrev pub IsOrder : Type 0
  IsOrder =
      ((a b : V) → semver.gt a b ≡ semver.lt b a)
      × ((a b c : V) → semver.lt a b ≡ true → semver.lt b c ≡ true → semver.lt a c ≡ true)
      × ((a b c : V) → semver.lt a b ≡ true → semver.lt c b ≡ false → semver.lt a c ≡ true)

  below-raised :
      IsOrder
      → (own greatest : V) (found : Error ⊎ V)
      → semver.lt own (raised semver conf greatest found)
        ≡ (semver.lt own greatest || below own found)
  below-raised order own greatest (inl err) = ground arith
  below-raised order own greatest (inr v) = elim (Bool-cases (semver.lt greatest v)) [
    | inl y ↦
        rw (order.0 v greatest, y)
          (elim (Bool-cases (semver.lt own greatest)) [
            | inl a ↦ rw a (order.1 own greatest v a y)
            | inr a ↦ rw a refl
          ])
    | inr n ↦
        rw (order.0 v greatest, n)
          (elim (Bool-cases (semver.lt own v)) [
            | inl a ↦ rw (a, order.2 own v greatest a n) refl
            | inr a ↦ rw a (ground arith)
          ])
  ]

  or_assoc : (a b c : Bool) → ((a || b) || c) ≡ (a || (b || c))
  or_assoc a b c = ground arith

  max_version-found :
      IsOrder
      → (own greatest : V) (nodes : List Node)
      → All (λ n. is_some (get n.labels conf.key) ≡ true) nodes
      → (m : V) × (max_version semver conf greatest nodes ≡ inr m)
        × (semver.lt own m ≡ (semver.lt own greatest || any (is_newer own) nodes))
  unfolding max_version
  max_version-found order own greatest [] h = (greatest, refl, ground arith)
  max_version-found order own greatest (n ∷ ns) h = elim (Option-cases (get n.labels conf.key)) [
    | inl e ↦ absurd (unlabelled (rw e at h.0))
    | inr (text, e) ↦
        rw (e, max_version, is_newer)
          (let (m, found, at) =
              max_version-found order own (raised semver conf greatest (semver.parse text)) ns
                h.1 in
            (
              m,
              found,
              at
                  ∙ (ap (λ b. b || any (is_newer own) ns)
                        (below-raised order own greatest (semver.parse text))
                      ∙ or_assoc (semver.lt own greatest) (below own (semver.parse text))
                          (any (is_newer own) ns)),
            ))
  ]
    where
      unlabelled : false ≡ true → ⊥
      unlabelled e = cc

  -- The nodes that are compared with: all of the list, or those of the profile.
  abbrev pub considered : String → List Node → List Node
  considered profile nodes = if conf.profile_scoped then filter_by_profile profile nodes else nodes

  -- If LT of package semver is a strict weak order with the reverse GT, and the nodes that are compared
  -- with have the label, clusterSemver returns no error, and passes exactly if the node's own version is
  -- below 0.1.0 or below a version that the label of one of these nodes holds.
  pub compare_listed_passed :
      (own : V) (profile : String) (nodes : List Node)
      → IsOrder
      → All (λ n. is_some (get n.labels conf.key) ≡ true) (considered profile nodes)
      → ((compare_listed semver conf own profile (inr nodes)).1 ≡ none)
        × ((compare_listed semver conf own profile (inr nodes)).0.passed
            ≡ (semver.lt own semver.lowest || any (is_newer own) (considered profile nodes)))
  unfolding compare_listed
  compare_listed_passed own profile nodes order h =
      let (m, found, at) = max_version-found order own semver.lowest (considered profile nodes) h in
      rw found (refl, at)
