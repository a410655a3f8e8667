-- ===== src/Metrics.antt =====
-- metrics/metrics.go: the counters of pods that a maintenance moves from one node to another.
pub mod Owners
use Prim.Native.String.{◌++◌}
use maintenance_controller.Base.{
  String, Bool, Option, none, some, List, [], ◌∷◌, ◌⊎◌, inl, inr, str_eq, or_else, if◌then◌else◌,
}
use maintenance_controller.Base.Int.{ℤ, pos}
use maintenance_controller.Errors.{Error, message}

pub record OwnerReference : Type 0 where
  pub kind : String
  pub name : String

-- A pod, and a workload, by what is read of them.
pub record OwnedPod : Type 0 where
  pub namespace : String
  pub owners : List OwnerReference

pub record DaemonSet : Type 0 where
  pub name : String
  pub number_ready : ℤ

-- A Deployment or a StatefulSet; the pointer Spec.Replicas may be nil.
pub record Workload : Type 0 where
  pub name : String
  pub replicas : Option ℤ

pub record ReplicaSet : Type 0 where
  pub name : String
  pub namespace : String
  pub replicas : Option ℤ
  pub owners : List OwnerReference

-- Reads of the cluster, by namespace and name; they change nothing.
pub record Workloads : Type 0 where
  pub list_pods : String → Error ⊎ List OwnedPod
  pub get_daemon_set : String → String → Error ⊎ DaemonSet
  pub get_replica_set : String → String → Error ⊎ ReplicaSet
  pub get_deployment : String → String → Error ⊎ Workload
  pub get_stateful_set : String → String → Error ⊎ Workload

-- The vectors of counters of package prometheus, by owner and profile, over whatever keeps them,
-- and float64.
pub record Counters (E F : Type 0) : Type 0 where
  -- 1 / float64(n)
  pub one_over : ℤ → F
  pub zero_float : F
  -- shuffleCount.With(labels).Inc() and .Add(0)
  pub increment_count : String → String → E → E
  pub touch_count : String → String → E → E
  -- shufflesPerReplica.With(labels).Add(x)
  pub add_per_replica : String → String → F → E → E
  -- transitionFailures.With(profile).Inc()
  pub increment_failures : String → E → E

-- shuffleRecord, with the number that 1 is divided by
pub record ShuffleRecord : Type 0 where
  pub owner : String
  pub per : ℤ

abbrev pub replicas_of : Option ℤ → ℤ
replicas_of r = or_else r (pos 1)

abbrev not_owned : String → Error
not_owned name = message ("owner of replicaSet " ++ (name ++ " is not a deployment"))

-- The first owner that is a Deployment.
unfoldable pub find_deployment : List OwnerReference → Option String
find_deployment [] = none
find_deployment (o ∷ os) =
    let rest = find_deployment os in if str_eq o.kind "Deployment" then some o.name else rest

abbrev pub collect {ℓ} : {A : Type ℓ} → Option (Error ⊎ A) → Error ⊎ List A → Error ⊎ List A
collect none rest = rest
collect (some (inl err)) rest = inl err
collect (some (inr r)) (inl err) = inl err
collect (some (inr r)) (inr rs) = inr (r ∷ rs)

abbrev owned_in :
    String → List OwnerReference → List (String × OwnerReference) → List (String × OwnerReference)
owned_in namespace [] rest = rest
owned_in namespace (o ∷ os) rest = (namespace, o) ∷ owned_in namespace os rest

-- The owners of the pods, each with its namespace, in the order of the two loops.
unfoldable pub owners_of : List OwnedPod → List (String × OwnerReference)
owners_of [] = []
owners_of (p ∷ ps) = owned_in p.namespace p.owners (owners_of ps)

module _ (cluster : Workloads) where
  abbrev pub record_daemon_set : Error ⊎ DaemonSet → Error ⊎ ShuffleRecord
  record_daemon_set (inl err) = inl err
  record_daemon_set (inr d) = inr (record { owner = "daemon_set_" ++ d.name; per = d.number_ready })

  unfoldable pub fetch_shuffle_daemon_set : String → String → Error ⊎ ShuffleRecord
  fetch_shuffle_daemon_set namespace name =
      record_daemon_set (cluster.get_daemon_set namespace name)

  abbrev pub record_workload : String → Error ⊎ Workload → Error ⊎ ShuffleRecord
  record_workload kind (inl err) = inl err
  record_workload kind (inr w) =
      inr (record { owner = kind ++ w.name; per = replicas_of w.replicas })

  unfoldable pub fetch_shuffle_stateful_set : String → String → Error ⊎ ShuffleRecord
  fetch_shuffle_stateful_set namespace name =
      record_workload "stateful_set_" (cluster.get_stateful_set namespace name)

  abbrev pub record_deployment : ReplicaSet → Option String → Error ⊎ ShuffleRecord
  record_deployment r none = inl (not_owned r.name)
  record_deployment r (some name) =
      record_workload "deployment_" (cluster.get_deployment r.namespace name)

  abbrev pub record_owners : ReplicaSet → List OwnerReference → Error ⊎ ShuffleRecord
  record_owners r [] =
      inr (record { owner = "replica_set_" ++ r.name; per = replicas_of r.replicas })
  record_owners r (o ∷ os) = record_deployment r (find_deployment (o ∷ os))

  abbrev pub record_replica_set : Error ⊎ ReplicaSet → Error ⊎ ShuffleRecord
  record_replica_set (inl err) = inl err
  record_replica_set (inr r) = record_owners r r.owners

  unfoldable pub fetch_shuffle_deployment : String → String → Error ⊎ ShuffleRecord
  unfolding find_deployment
  fetch_shuffle_deployment namespace name =
      record_replica_set (cluster.get_replica_set namespace name)

  -- The switch of RecordShuffles; none is the default case.
  unfoldable pub record_owner : String → OwnerReference → Option (Error ⊎ ShuffleRecord)
  unfolding fetch_shuffle_daemon_set fetch_shuffle_deployment fetch_shuffle_stateful_set
  record_owner namespace o =
      if str_eq o.kind "DaemonSet"
      then some (fetch_shuffle_daemon_set namespace o.name)
      else if str_eq o.kind "ReplicaSet"
      then some (fetch_shuffle_deployment namespace o.name)
      else if str_eq o.kind "StatefulSet"
      then some (fetch_shuffle_stateful_set namespace o.name)
      else none

  -- The loops that collect the records, up to the first error.
  unfoldable pub records_of : List (String × OwnerReference) → Error ⊎ List ShuffleRecord
  unfolding record_owner
  records_of [] = inr []
  records_of ((namespace, o) ∷ os) = collect (record_owner namespace o) (records_of os)

  abbrev pub touch_owners : String → ReplicaSet → List OwnerReference → Error ⊎ String
  touch_owners name r [] = inr ("replica_set_" ++ name)
  touch_owners name r (o ∷ os) = elim (find_deployment (o ∷ os)) [
    | none ↦ inl (not_owned r.name)
    | some d ↦ inr ("deployment_" ++ d)
  ]

  abbrev pub touch_replica_set : String → Error ⊎ ReplicaSet → Error ⊎ String
  touch_replica_set name (inl err) = inl err
  touch_replica_set name (inr r) = touch_owners name r r.owners

  unfoldable pub fetch_touch_replica_set : String → String → Error ⊎ String
  unfolding find_deployment
  fetch_touch_replica_set namespace name =
      touch_replica_set name (cluster.get_replica_set namespace name)

  -- The switch of TouchShuffles: the owner that labels the counters.
  unfoldable pub touch_owner : String → OwnerReference → Option (Error ⊎ String)
  unfolding fetch_touch_replica_set
  touch_owner namespace o =
      if str_eq o.kind "DaemonSet"
      then some (inr ("daemon_set_" ++ o.name))
      else if str_eq o.kind "StatefulSet"
      then some (inr ("stateful_set_" ++ o.name))
      else if str_eq o.kind "ReplicaSet"
      then some (fetch_touch_replica_set namespace o.name)
      else none

module _ {E F : Type 0} (counters : Counters E F) (cluster : Workloads) where
  -- The loop that records.
  unfoldable pub count_records : String → List ShuffleRecord → E → E
  count_records profile [] e = e
  count_records profile (r ∷ rs) e = count_records profile rs (
      counters.add_per_replica r.owner profile (counters.one_over r.per)
        (counters.increment_count r.owner profile e))

  abbrev pub counted : String → Error ⊎ List ShuffleRecord → E → Option Error × E
  counted profile (inl err) e = (some err, e)
  counted profile (inr rs) e = (none, count_records profile rs e)

  abbrev pub record_listed : String → Error ⊎ List OwnedPod → E → Option Error × E
  record_listed profile (inl err) e = (some err, e)
  record_listed profile (inr pods) e = counted profile (records_of cluster (owners_of pods)) e

  -- RecordShuffles, with a client that is not nil
  unfoldable pub record_shuffles : String → String → E → Option Error × E
  unfolding records_of owners_of count_records
  record_shuffles node profile = record_listed profile (cluster.list_pods node)

  abbrev pub touched :
      String → Option (Error ⊎ String) → (E → Option Error × E) → E → Option Error × E
  touched profile none rest e = rest e
  touched profile (some (inl err)) rest e = (some err, e)
  touched profile (some (inr owner)) rest e = rest (
      counters.add_per_replica owner profile counters.zero_float
        (counters.touch_count owner profile e))

  -- The loops of TouchShuffles: what stands before an error is touched.
  unfoldable pub touch_all : String → List (String × OwnerReference) → E → Option Error × E
  unfolding touch_owner
  touch_all profile [] e = (none, e)
  touch_all profile ((namespace, o) ∷ os) e =
      touched profile (touch_owner cluster namespace o) (touch_all profile os) e

  abbrev pub touch_listed : String → Error ⊎ List OwnedPod → E → Option Error × E
  touch_listed profile (inl err) e = (some err, e)
  touch_listed profile (inr pods) e = touch_all profile (owners_of pods) e

  -- TouchShuffles
  unfoldable pub touch_shuffles : String → String → E → Option Error × E
  unfolding touch_all owners_of
  touch_shuffles node profile = touch_listed profile (cluster.list_pods node)

  -- RecordTransitionFailure
  unfoldable pub record_transition_failure : String → E → E
  record_transition_failure profile e = counters.increment_failures profile e
