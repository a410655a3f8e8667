-- ===== src/Drain.antt =====
-- common/schedule.go: cordoning a node, and draining it by eviction or deletion of its pods.
use Prim.Native.String.{◌++◌}
use maintenance_controller.Base.{
  suc, ◌-◌, ◌*◌, String, Bool, true, false, not, ◌&&◌, ◌||◌, Option, none, some, List, [], ◌∷◌, ◌⊎◌,
  inl, inr, get, Run, done, pure, ◌>>=◌, ◌>>◌, is_some, any, str_eq, if◌then◌else◌,
}
use maintenance_controller.Base.Int.{ℤ, pos, negsuc, ◌+ℤ◌, ltb_ℤ}
use maintenance_controller.Errors.{Error, wrapped, is_not_found, join_errors}
use maintenance_controller.GoTime.{Time, second, wrap_int64}
use maintenance_controller.World.{World, on_ext}
use maintenance_controller.Api.{Api, Pod, IsAtLeast}
use maintenance_controller.Plugin.Check.{is_empty}

abbrev pub mirror_annotation_key : String
mirror_annotation_key = "kubernetes.io/config.mirror"

-- A pod that a drain leaves alone: a mirror pod, or a pod of a daemon set.
abbrev pub stays_on_node : Pod → Bool
stays_on_node pod =
    is_some (get pod.annotations mirror_annotation_key)
    || any (λ kind. str_eq kind "DaemonSet") pod.owner_kinds

-- The loop of GetPodsForDrain.
unfoldable pub drainable : List Pod → List Pod
drainable [] = []
drainable (pod ∷ pods) = let rest = drainable pods in if stays_on_node pod then rest else pod ∷ rest

-- splitDrainCandidates: the pods that are not yet terminating, and those that are.
unfoldable pub split_drain_candidates : List Pod → List Pod × List Pod
split_drain_candidates [] = ([], [])
split_drain_candidates (pod ∷ pods) =
    let rest = split_drain_candidates pods in
    if is_some pod.deletion_timestamp then (rest.0, pod ∷ rest.1) else (pod ∷ rest.0, rest.1)

abbrev pub times_second : ℤ → ℤ
times_second (pos n) = pos (n * second)
times_second (negsuc n) = negsuc (suc n * second - 1)

-- now.After(deadline), for a pod that has both a deletion timestamp and a grace period.
unfoldable pub is_overdue : Time → Pod → Bool
is_overdue now pod = elim pod.deletion_timestamp [
  | none ↦ false
  | some t ↦ elim pod.deletion_grace_period_seconds [
    | none ↦ false
    | some g ↦ ltb_ℤ (pos t +ℤ wrap_int64 (times_second g)) (pos now)
  ]
]

unfoldable pub overdue : Time → List Pod → List Pod
unfolding is_overdue
overdue now [] = []
overdue now (pod ∷ pods) =
    let rest = overdue now pods in if is_overdue now pod then pod ∷ rest else rest

pub data EvictionVersion : Type 0 where
  no_version : EvictionVersion
  v1beta1 : EvictionVersion
  v1 : EvictionVersion

unfoldable pub eviction_version : IsAtLeast → EvictionVersion
eviction_version at_least =
    if at_least 1 22 then v1 else if at_least 1 6 then v1beta1 else no_version

abbrev pub versioned : Error ⊎ IsAtLeast → Error ⊎ EvictionVersion
versioned (inl err) = inl err
versioned (inr v) = inr (eviction_version v)

-- errors.Join: no error at all for an empty list
abbrev pub join_all : List Error → Option Error
join_all [] = none
join_all (e ∷ es) = some (join_errors (e ∷ es))

-- An error counts unless it says that the pod is gone.
abbrev pub add_pod_error : String → Option Error → List Error → List Error
add_pod_error text none errs = errs
add_pod_error text (some err) errs = if is_not_found err then errs else wrapped text err ∷ errs

abbrev pub drain_answer : Option Error → Error ⊎ Bool
drain_answer none = inr false
drain_answer (some err) = inl err

abbrev pub removed : Option Error → Option Error
removed none = none
removed (some err) = some (wrapped "failed to delete/evict at least one pod" err)

module _ {E : Type 0} where
  -- The loops of deletePods and evictPods, over the call that they make for each pod.
  unfoldable pub for_pods :
      (Pod → String) → (Pod → E → Option Error × E) → List Pod → Run (World E) (List Error)
  for_pods text call [] = pure []
  for_pods text call (pod ∷ pods) = do
    answer ← on_ext (call pod)
    rest ← for_pods text call pods
    pure (add_pod_error (text pod) answer rest)

  unfoldable pub delete_pods : Api E → List Pod → Option ℤ → Run (World E) (Option Error)
  unfolding for_pods
  delete_pods api pods grace = do
    errs ←
        for_pods (λ pod. "failed to delete pod " ++ (pod.name ++ " from node"))
          (λ pod. api.delete_pod pod grace) pods
    pure (join_all errs)

  -- evictPod; no request is made without a version.
  unfoldable pub evict_pod : Api E → EvictionVersion → Option ℤ → Pod → E → Option Error × E
  evict_pod api no_version grace pod e = (none, e)
  evict_pod api v1beta1 grace pod e = api.evict_pod_v1beta1 pod grace e
  evict_pod api v1 grace pod e = api.evict_pod_v1 pod grace e

  unfoldable pub evict_pods :
      Api E → List Pod → EvictionVersion → Option ℤ → Run (World E) (Option Error)
  unfolding for_pods evict_pod
  evict_pods api pods version grace = do
    errs ← for_pods (λ pod. "failed to evict pod " ++ pod.name) (evict_pod api version grace) pods
    pure (join_all errs)

  -- Terminating pods that have exceeded their grace period; errors are logged and dropped.
  unfoldable pub force_delete : Api E → Bool → List Pod → Run (World E) (Unit {0})
  unfolding overdue delete_pods
  force_delete api force terminating =
      if not (is_empty terminating) && force
      then (do
        now ← on_ext api.now
        delete_pods api (overdue now terminating) (some (pos 0))
        pure tt)
      else pure tt

  abbrev pub remove_with :
      Api E → List Pod → Option ℤ → EvictionVersion → Run (World E) (Option Error)
  remove_with api active grace no_version = delete_pods api active grace
  remove_with api active grace v1beta1 = evict_pods api active v1beta1 grace
  remove_with api active grace v1 = evict_pods api active v1 grace

  abbrev pub remove_versioned :
      Api E → List Pod → Option ℤ → Error ⊎ EvictionVersion → Run (World E) (Option Error)
  remove_versioned api active grace (inl err) w = (done (some err), w)
  remove_versioned api active grace (inr v) w =
      (do answer ← remove_with api active grace v; pure (removed answer)) w

  unfoldable pub remove_active : Api E → List Pod → Option ℤ → Run (World E) (Option Error)
  unfolding evict_pods delete_pods
  remove_active api [] grace = pure none
  remove_active api (pod ∷ pods) grace = do
    version ← on_ext api.server_version
    remove_versioned api (pod ∷ pods) grace (versioned version)

  -- EnsureDrain, once the pods are known. A drain with pods left is never done yet.
  unfoldable pub drain_pods : Api E → Bool → Option ℤ → List Pod → Run (World E) (Error ⊎ Bool)
  unfolding split_drain_candidates force_delete remove_active
  drain_pods api force grace [] = pure (inr true)
  drain_pods api force grace (pod ∷ pods) = do
    force_delete api force (split_drain_candidates (pod ∷ pods)).1
    answer ← remove_active api (split_drain_candidates (pod ∷ pods)).0 grace
    pure (drain_answer answer)

  unfoldable pub drain_listed :
      Api E → Bool → Option ℤ → Error ⊎ List Pod → Run (World E) (Error ⊎ Bool)
  unfolding drain_pods drainable
  drain_listed api force grace (inl err) = pure (inl (wrapped "failed to fetch deletable pods" err))
  drain_listed api force grace (inr pods) = drain_pods api force grace (drainable pods)

  -- EnsureDrain: whether the node is drained, or an error
  unfoldable pub ensure_drain : Api E → Bool → Option ℤ → Run (World E) (Error ⊎ Bool)
  unfolding drain_listed
  ensure_drain api force grace w =
      (do listed ← on_ext (api.list_pods w.node.name); drain_listed api force grace listed) w

  -- EnsureSchedulable: the node in memory is changed before the patch, whose error it keeps.
  abbrev pub set_unschedulable : Bool → World E → World E
  set_unschedulable b w = record w { node = record w.node { unschedulable = b } }

  unfoldable pub ensure_schedulable : Api E → Bool → Run (World E) (Option Error)
  ensure_schedulable api schedulable w =
      if (if schedulable then not w.node.unschedulable else w.node.unschedulable)
      then (done none, w)
      else (do
        answer ← on_ext (api.patch_node (set_unschedulable (not schedulable) w).node)
        elim answer [
          | none ↦ pure none
          | some err ↦ pure (
              some (wrapped ("failed to set node " ++ (w.node.name ++ " as (un-)schedulable")) err))
        ])
          (set_unschedulable (not schedulable) w)
