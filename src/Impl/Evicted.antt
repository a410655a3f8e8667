-- ===== src/Impl/Evicted.antt =====
-- The eviction trigger and EnsureDrain: when a node counts as drained, and what is left behind.
use maintenance_controller.Base.{
  String, Bool, true, false, not, ◌&&◌, ◌||◌, Option, none, some, List, [], ◌∷◌, ◌++◌ as append,
  ◌≡◌, refl, ap, any, get, All, Option-cases, ◌∙◌, ◌⊎◌, inl, inr, Run, done, pure, ◌>>=◌,
  resume-keeps, Ends, Ends-at, Ends-resume, Ends-all, Bool-cases, str_eq, arith, if◌then◌else◌,
  is_some, eq_iff,
}
use maintenance_controller.Base.Int.{ℤ, pos}
use maintenance_controller.Errors.{Error, is_retry}
use maintenance_controller.World.{World}
use maintenance_controller.Api.{Api, Pod}
use maintenance_controller.Plugin.Check.{is_empty}
use maintenance_controller.Drain.{
  drainable, stays_on_node, mirror_annotation_key, for_pods, delete_pods, evict_pods, force_delete,
  remove_with, remove_active, drain_pods, drain_listed, remove_versioned, ensure_drain,
  EvictionVersion, overdue, no_version, v1, v1beta1, drain_answer, split_drain_candidates,
  set_unschedulable,
}
use maintenance_controller.Impl.Eviction.{Eviction, drained, drain_node, evict}

true≢false : true ≡ false → ⊥
true≢false e = cc

abbrev asks_retry : Option Error → Bool
asks_retry none = false
asks_retry (some err) = is_retry err

-- Whether the action is one of two that mark the node unschedulable.
abbrev pub marks : String → Bool
marks action = str_eq action "cordon" || str_eq action "drain"

abbrev is_drained : Error ⊎ Bool → Bool
is_drained (inl err) = false
is_drained (inr b) = b

-- The pod has the annotation of mirror pods, or a daemon set owns it.
abbrev pub IsLeft : Pod → Type 0
IsLeft pod =
    ((value : String) × (get pod.annotations "kubernetes.io/config.mirror" ≡ some value))
    ⊎ ((before after : List String) × (pod.owner_kinds ≡ append before ("DaemonSet" ∷ after)))

owned :
    (kinds : List String)
    → any (λ kind. str_eq kind "DaemonSet") kinds ≡ true
    → (before after : List String) × (kinds ≡ append before ("DaemonSet" ∷ after))
owned [] h = cc
owned (kind ∷ kinds) h = elim (Bool-cases (str_eq kind "DaemonSet")) [
  | inl y ↦ ([], kinds, ap (λ k. k ∷ kinds) ((eq_iff kind "DaemonSet").0 y))
  | inr n ↦
      (let (before, after, e) = owned kinds (rw n at h) in
        (kind ∷ before, after, ap (λ ks. kind ∷ ks) e))
]

left : (pod : Pod) → stays_on_node pod ≡ true → IsLeft pod
left pod h = elim (Option-cases (get pod.annotations mirror_annotation_key)) [
  | inr (value, e) ↦ inl (value, e)
  | inl e ↦ inr (owned pod.owner_kinds (rw e at h))
]

module _ {E : Type 0} (api : Api E) where
  for_pods-keeps :
      (text : Pod → String) (call : Pod → E → Option Error × E) (pods : List Pod) (w : World E)
      → (for_pods text call pods w).1.node ≡ w.node
  unfolding for_pods
  for_pods-keeps text call [] w = refl
  for_pods-keeps text call (pod ∷ pods) w =
      resume-keeps (λ v. v.node) (for_pods text call pods _) _ w.node
        (for_pods-keeps text call pods _) (λ rest v h. h)

  delete_pods-keeps :
      (pods : List Pod) (grace : Option ℤ) (w : World E)
      → (delete_pods api pods grace w).1.node ≡ w.node
  unfolding delete_pods
  delete_pods-keeps pods grace w =
      resume-keeps (λ v. v.node) (for_pods _ _ pods w) _ w.node (for_pods-keeps _ _ pods w)
        (λ errs v h. h)

  remove_with-keeps :
      (pods : List Pod) (grace : Option ℤ) (version : EvictionVersion) (w : World E)
      → (remove_with api pods grace version w).1.node ≡ w.node
  unfolding evict_pods
  remove_with-keeps pods grace no_version w = delete_pods-keeps pods grace w
  remove_with-keeps pods grace v1beta1 w =
      resume-keeps (λ v. v.node) (for_pods _ _ pods w) _ w.node (for_pods-keeps _ _ pods w)
        (λ errs v h. h)
  remove_with-keeps pods grace v1 w =
      resume-keeps (λ v. v.node) (for_pods _ _ pods w) _ w.node (for_pods-keeps _ _ pods w)
        (λ errs v h. h)

  force_delete-keeps :
      (force : Bool) (pods : List Pod) (w : World E)
      → (force_delete api force pods w).1.node ≡ w.node
  unfolding force_delete
  force_delete-keeps force pods w = elim (Bool-cases (not (is_empty pods) && force)) [
    | inr n ↦ rw n refl
    | inl y ↦
        (let late = overdue (api.now w.ext).0 pods in
          let v : World E = record w { ext = (api.now w.ext).1 } in
          rw y (
            resume-keeps {B = Unit {0}} (λ u. u.node) (delete_pods api late (some (pos 0)) v)
              (λ answer. pure {S = World E} tt) w.node (delete_pods-keeps late (some (pos 0)) v)
              (λ answer u h. h)))
  ]

  remove_versioned-keeps :
      (pods : List Pod) (grace : Option ℤ) (version : Error ⊎ EvictionVersion) (w : World E)
      → (remove_versioned api pods grace version w).1.node ≡ w.node
  remove_versioned-keeps pods grace (inl err) w = refl
  remove_versioned-keeps pods grace (inr v) w =
      resume-keeps (λ x. x.node) (remove_with api pods grace v w) _ w.node
        (remove_with-keeps pods grace v w) (λ answer x h. h)

  remove_active-keeps :
      (pods : List Pod) (grace : Option ℤ) (w : World E)
      → (remove_active api pods grace w).1.node ≡ w.node
  unfolding remove_active
  remove_active-keeps [] grace w = refl
  remove_active-keeps (pod ∷ pods) grace w = remove_versioned-keeps (pod ∷ pods) grace _ _

  drain_pods-keeps :
      (force : Bool) (grace : Option ℤ) (pods : List Pod) (w : World E)
      → (drain_pods api force grace pods w).1.node ≡ w.node
  unfolding drain_pods
  drain_pods-keeps force grace [] w = refl
  drain_pods-keeps force grace (pod ∷ pods) w =
      let (active, terminating) = split_drain_candidates (pod ∷ pods) in
      let finish : Option Error → Run (World E) (Error ⊎ Bool) =
        λ answer. pure (drain_answer answer) in
      resume-keeps {B = Error ⊎ Bool} (λ v. v.node) (force_delete api force terminating w)
        (λ x. remove_active api active grace >>= finish) w.node
        (force_delete-keeps force terminating w)
        (λ x v h.
          resume-keeps {B = Error ⊎ Bool} (λ u. u.node) (remove_active api active grace v) finish
            w.node (remove_active-keeps active grace v ∙ h) (λ answer u k. k))

  drain_listed-keeps :
      (force : Bool) (grace : Option ℤ) (listed : Error ⊎ List Pod) (w : World E)
      → (drain_listed api force grace listed w).1.node ≡ w.node
  unfolding drain_listed
  drain_listed-keeps force grace (inl err) w = refl
  drain_listed-keeps force grace (inr pods) w = drain_pods-keeps force grace (drainable pods) w

  ensure_drain-keeps :
      (force : Bool) (grace : Option ℤ) (w : World E)
      → (ensure_drain api force grace w).1.node ≡ w.node
  unfolding ensure_drain
  ensure_drain-keeps force grace w =
      let (listed, x) = api.list_pods w.node.name w.ext in
      drain_listed-keeps force grace listed (record w { ext = x })

  drain_node-marks :
      (conf : Eviction) (w : World E)
      → (drain_node api conf w).1.node ≡ record w.node { unschedulable = true }
  unfolding drain_node
  drain_node-marks conf w =
      let v = set_unschedulable true w in
      resume-keeps {B = Option Error} (λ u. u.node) (ensure_drain api conf.force_eviction none v)
        (λ answer. pure (drained answer)) v.node (ensure_drain-keeps conf.force_eviction none v)
        (λ answer u h. h)

  -- Whatever the eviction trigger returns, it leaves the node as it was but for its mark: with the
  -- actions cordon and drain the node is marked unschedulable, with uncordon it is marked
  -- schedulable, and with another action the mark is as before.
  pub evict-node :
      (conf : Eviction) (w : World E)
      → (evict api conf w).1.node ≡ record w.node {
        unschedulable =
            if marks conf.action
            then true
            else if str_eq conf.action "uncordon"
            then false
            else w.node.unschedulable;
      }
  unfolding evict
  evict-node conf w = elim (Bool-cases (str_eq conf.action "cordon")) [
    | inl c ↦ rw c refl
    | inr c ↦ elim (Bool-cases (str_eq conf.action "uncordon")) [
      | inl u ↦ rw (c, u, (eq_iff conf.action "uncordon").0 u) refl
      | inr u ↦ elim (Bool-cases (str_eq conf.action "drain")) [
        | inr d ↦ rw (c, u, d) refl
        | inl d ↦ rw (c, u, d) (drain_node-marks conf w)
      ]
    ]
  ]

  drain_pods-unfinished :
      (force : Bool) (grace : Option ℤ) (pod : Pod) (pods : List Pod) (w : World E)
      → Ends (λ a _. is_drained a ≡ false) (drain_pods api force grace (pod ∷ pods) w)
  unfolding drain_pods
  drain_pods-unfinished force grace pod pods w =
      let (active, terminating) = split_drain_candidates (pod ∷ pods) in
      Ends-resume _ (force_delete api force terminating w) _ (
        Ends-all _ (force_delete api force terminating w) (λ x v.
          Ends-resume _ (remove_active api active grace v) _ (
            Ends-all _ (remove_active api active grace v)
              (elim [ none ↦ λ u. refl | some err ↦ λ u. refl ]))))

  drain_pods_left :
      (force : Bool) (grace : Option ℤ) (pods : List Pod) (w w' : World E)
      → drain_pods api force grace pods w ≡ (done (inr true), w')
      → (pods ≡ []) × (w' ≡ w)
  unfolding drain_pods
  drain_pods_left force grace [] w w' e = (refl, cc e)
  drain_pods_left force grace (pod ∷ pods) w w' e = absurd (
      true≢false (
        Ends-at (λ a _. is_drained a ≡ false) _ (inr true) w'
          (drain_pods-unfinished force grace pod pods w) e))

  drainable_none : (pods : List Pod) → drainable pods ≡ [] → All IsLeft pods
  unfolding drainable
  drainable_none [] e = tt
  drainable_none (pod ∷ pods) e = elim (Bool-cases (stays_on_node pod)) [
    | inl y ↦ (left pod y, drainable_none pods (rw y at e))
    | inr n ↦ absurd (not_empty pod (drainable pods) (rw n at e))
  ]
    where
      not_empty : (pod : Pod) (rest : List Pod) → (pod ∷ rest) ≡ [] → ⊥
      not_empty pod rest e = cc

  -- If EnsureDrain reports that the node is drained, the API server listed no pod of the node but
  -- mirror pods and pods of daemon sets, and that listing was the only request that was made.
  pub ensure_drain_done :
      (force : Bool) (grace : Option ℤ) (w w' : World E)
      → ensure_drain api force grace w ≡ (done (inr true), w')
      → (pods : List Pod) × (api.list_pods w.node.name w.ext ≡ (inr pods, w'.ext)) × All IsLeft pods
  unfolding ensure_drain drain_listed
  ensure_drain_done force grace w w' e = go (api.list_pods w.node.name w.ext) refl
    where
      go :
          (r : (Error ⊎ List Pod) × E)
          → api.list_pods w.node.name w.ext ≡ r
          → (pods : List Pod) × (api.list_pods w.node.name w.ext ≡ (inr pods, w'.ext))
            × All IsLeft pods
      go (inl err, x) h = absurd (grind (arith, rw (h, ensure_drain, drain_listed) at e))
      go (inr pods, x) h =
          let (empty, same) =
            drain_pods_left force grace (drainable pods) (record w { ext = x }) w'
              (rw (h, ensure_drain, drain_listed) at e) in
          (pods, cc (h, same), drainable_none pods empty)

  drain_node_retries :
      (conf : Eviction) (w : World E)
      → Ends (λ a _. (is_some a && not (asks_retry a)) ≡ false) (drain_node api conf w)
  unfolding drain_node is_retry
  drain_node_retries conf w =
      let v = set_unschedulable true w in
      Ends-resume _ (ensure_drain api conf.force_eviction none v) _ (
        Ends-all _ (ensure_drain api conf.force_eviction none v)
          (elim [ inl err ↦ λ u. refl | inr true ↦ λ u. refl | inr false ↦ λ u. refl ]))

  -- Every error of the eviction trigger with the action drain asks for a retry: a drain that
  -- failed or is still in progress holds back its own profile alone.
  pub evict_retries :
      (conf : Eviction) (w w' : World E) (err : Error)
      → conf.action ≡ "drain"
      → evict api conf w ≡ (done (some err), w')
      → is_retry err ≡ true
  unfolding evict
  evict_retries conf w w' err a e =
      let retries = Ends-at _ _ (some err) w' (drain_node_retries conf w) (rw (a, evict) at e) in
      ground arith
