-- ===== src/Metrics/Owners.antt =====
-- RecordShuffles and TouchShuffles name the same counters.
use maintenance_controller.Base.{
  String, true, false, Option, none, some, List, [], ◌∷◌, map, ◌≡◌, refl, sym, ap, ◌∙◌, ◌⊎◌, inl,
  inr, Bool-cases, Option-cases, str_eq, eq_iff,
}
use Prim.Native.String.{◌++◌}
use maintenance_controller.Errors.{Error}
use maintenance_controller.Metrics.{
  OwnerReference, OwnedPod, DaemonSet, Workload, ReplicaSet, Workloads, Counters, ShuffleRecord,
  find_deployment, fetch_shuffle_daemon_set, fetch_shuffle_deployment, fetch_shuffle_stateful_set,
  record_owner, collect, owners_of, records_of, fetch_touch_replica_set, touch_owner, touched,
  count_records, record_shuffles, touch_all, touch_shuffles, record_daemon_set, record_workload,
  record_replica_set, record_deployment, touch_replica_set, touch_owners, record_owners,
  replicas_of, counted, record_listed, touch_listed,
}

-- The object that a read returns has the name that was asked for.
abbrev Named : {A : Type 0} → (A → String) → (String → String → Error ⊎ A) → Type 0
Named {A = A} name_of get =
    (namespace name : String) (a : A) → get namespace name ≡ inr a → name_of a ≡ name

abbrev pub AreNamed : Workloads → Type 0
AreNamed cluster =
    Named (λ d. d.name) cluster.get_daemon_set
    × Named (λ r. r.name) cluster.get_replica_set
    × Named (λ w. w.name) cluster.get_deployment
    × Named (λ w. w.name) cluster.get_stateful_set

abbrev Owned : ShuffleRecord → Error ⊎ String → Type 0
Owned r found = found ≡ inr r.owner

abbrev recorded : ShuffleRecord → Error ⊎ ShuffleRecord
recorded r = inr r

inr_inj : (r r' : ShuffleRecord) → recorded r ≡ recorded r' → r ≡ r'
inr_inj r r' e = cc

inl≢inr : (err : Error) (r : ShuffleRecord) → ◌≡◌ {A = Error ⊎ ShuffleRecord} (inl err) (inr r) → ⊥
inl≢inr err r e = cc

abbrev SameOwner : Option (Error ⊎ ShuffleRecord) → Option (Error ⊎ String) → Type 0
SameOwner none t = t ≡ none
SameOwner (some (inl err)) t = Unit
SameOwner (some (inr r)) t = t ≡ some (inr r.owner)

abbrev all_recorded : List ShuffleRecord → Error ⊎ List ShuffleRecord
all_recorded rs = inr rs

all_recorded_inj : (rs rs' : List ShuffleRecord) → all_recorded rs ≡ all_recorded rs' → rs ≡ rs'
all_recorded_inj rs rs' e = cc

failed≢recorded :
    (err : Error) (rs : List ShuffleRecord)
    → ◌≡◌ {A = Error ⊎ List ShuffleRecord} (inl err) (inr rs)
    → ⊥
failed≢recorded err rs e = cc

collect-recorded :
    (r : ShuffleRecord) (rest : Error ⊎ List ShuffleRecord) (rs : List ShuffleRecord)
    → collect (some (inr r)) rest ≡ inr rs
    → (rs' : List ShuffleRecord) × (rest ≡ inr rs') × (rs ≡ r ∷ rs')
collect-recorded r (inl err) rs e = absurd (failed≢recorded err rs e)
collect-recorded r (inr rs') rs e = (rs', refl, sym (all_recorded_inj (r ∷ rs') rs e))

module _ (cluster : Workloads) (named : AreNamed cluster) where
  daemon_set_owner :
      (namespace name : String) (r : ShuffleRecord)
      → fetch_shuffle_daemon_set cluster namespace name ≡ inr r
      → "daemon_set_" ++ name ≡ r.owner
  unfolding fetch_shuffle_daemon_set
  daemon_set_owner namespace name r e = go (cluster.get_daemon_set namespace name) refl e
    where
      go :
          (d : Error ⊎ DaemonSet)
          → cluster.get_daemon_set namespace name ≡ d
          → record_daemon_set cluster d ≡ inr r
          → "daemon_set_" ++ name ≡ r.owner
      go (inl err) g h = absurd (inl≢inr err r h)
      go (inr d) g h =
          ap (λ n. "daemon_set_" ++ n) (sym (named.0 namespace name d g))
          ∙ ap (λ x. x.owner)
              (inr_inj (record { owner = "daemon_set_" ++ d.name; per = d.number_ready }) r h)

  workload_owner :
      (kind : String) (get : String → String → Error ⊎ Workload)
      → Named (λ w. w.name) get
      → (namespace name : String) (r : ShuffleRecord)
      → record_workload cluster kind (get namespace name) ≡ inr r
      → kind ++ name ≡ r.owner
  workload_owner kind get h namespace name r e = go (get namespace name) refl e
    where
      go :
          (w : Error ⊎ Workload)
          → get namespace name ≡ w
          → record_workload cluster kind w ≡ inr r
          → kind ++ name ≡ r.owner
      go (inl err) g k = absurd (inl≢inr err r k)
      go (inr w) g k =
          ap (λ n. kind ++ n) (sym (h namespace name w g))
          ∙ ap (λ x. x.owner)
              (inr_inj (record { owner = kind ++ w.name; per = replicas_of w.replicas }) r k)

  deployment_owner :
      (s : ReplicaSet) (o : OwnerReference) (os : List OwnerReference) (name : String)
      (r : ShuffleRecord)
      → record_deployment cluster s (find_deployment (o ∷ os)) ≡ inr r
      → touch_owners cluster name s (o ∷ os) ≡ inr r.owner
  deployment_owner s o os name r e = elim (Option-cases (find_deployment (o ∷ os))) [
    | inl n ↦ absurd (inl≢inr _ r (rw n at e))
    | inr (d, y) ↦
        rw (y, touch_owners)
          (ap (λ t. inr t)
            (workload_owner "deployment_" cluster.get_deployment named.2 s.namespace d r
              (rw y at e)))
  ]

  replica_set_owner :
      (namespace name : String) (r : ShuffleRecord)
      → fetch_shuffle_deployment cluster namespace name ≡ inr r
      → fetch_touch_replica_set cluster namespace name ≡ inr r.owner
  unfolding fetch_shuffle_deployment fetch_touch_replica_set
  replica_set_owner namespace name r e = go (cluster.get_replica_set namespace name) refl e
    where
      by_owners :
          (s : ReplicaSet) (os : List OwnerReference)
          → s.name ≡ name
          → record_owners cluster s os ≡ inr r
          → touch_owners cluster name s os ≡ inr r.owner
      by_owners s [] n k =
          ap (λ t. inr t)
            (ap (λ t. "replica_set_" ++ t) (sym n)
              ∙ ap (λ x. x.owner)
                  (inr_inj
                    (record { owner = "replica_set_" ++ s.name; per = replicas_of s.replicas }) r
                    k))
      by_owners s (o ∷ os) n k = deployment_owner s o os name r k

      go :
          (s : Error ⊎ ReplicaSet)
          → cluster.get_replica_set namespace name ≡ s
          → record_replica_set cluster s ≡ inr r
          → touch_replica_set cluster name s ≡ inr r.owner
      go (inl err) g k = absurd (inl≢inr err r k)
      go (inr s) g k = by_owners s s.owners (named.1 namespace name s g) k

  stateful_owner :
      (namespace name : String) (r : ShuffleRecord)
      → fetch_shuffle_stateful_set cluster namespace name ≡ inr r
      → "stateful_set_" ++ name ≡ r.owner
  unfolding fetch_shuffle_stateful_set
  stateful_owner namespace name r e =
      workload_owner "stateful_set_" cluster.get_stateful_set named.3 namespace name r e

  -- The two switches agree on the kinds, and on the owner of a record.
  touch_owner-SameOwner :
      (namespace : String) (o : OwnerReference)
      → SameOwner (record_owner cluster namespace o) (touch_owner cluster namespace o)
  unfolding record_owner touch_owner
  touch_owner-SameOwner namespace o = elim (Bool-cases (str_eq o.kind "DaemonSet")) [
    | inl a ↦ rw a (daemon (fetch_shuffle_daemon_set cluster namespace o.name) refl)
    | inr a ↦ elim (Bool-cases (str_eq o.kind "ReplicaSet")) [
      | inl b ↦
          rw (a, b, replica_kind o.kind b)
            (replica (fetch_shuffle_deployment cluster namespace o.name) refl)
      | inr b ↦ elim (Bool-cases (str_eq o.kind "StatefulSet")) [
        | inl c ↦ rw (a, b, c) (stateful (fetch_shuffle_stateful_set cluster namespace o.name) refl)
        | inr c ↦ rw (a, b, c) refl
      ]
    ]
  ]
    where
      replica_kind : (k : String) → str_eq k "ReplicaSet" ≡ true → str_eq k "StatefulSet" ≡ false
      replica_kind k h = rw ((eq_iff k "ReplicaSet").0 h) refl

      daemon :
          (f : Error ⊎ ShuffleRecord)
          → fetch_shuffle_daemon_set cluster namespace o.name ≡ f
          → SameOwner (some f) (some (inr ("daemon_set_" ++ o.name)))
      daemon (inl err) g = tt
      daemon (inr r) g = ap (λ t. some (inr t)) (daemon_set_owner namespace o.name r g)

      stateful :
          (f : Error ⊎ ShuffleRecord)
          → fetch_shuffle_stateful_set cluster namespace o.name ≡ f
          → SameOwner (some f) (some (inr ("stateful_set_" ++ o.name)))
      stateful (inl err) g = tt
      stateful (inr r) g = ap (λ t. some (inr t)) (stateful_owner namespace o.name r g)

      replica :
          (f : Error ⊎ ShuffleRecord)
          → fetch_shuffle_deployment cluster namespace o.name ≡ f
          → SameOwner (some f) (some (fetch_touch_replica_set cluster namespace o.name))
      replica (inl err) g = tt
      replica (inr r) g = ap (λ t. some t) (replica_set_owner namespace o.name r g)

no_error : (err : Error) → some err ≡ none → ⊥
no_error err e = cc

module _ {E F : Type 0} (counters : Counters E F) (cluster : Workloads) (profile : String) where
  -- A zero is added to the counters of each of the owners.
  abbrev pub touch_each : List String → E → E
  touch_each [] e = e
  touch_each (owner ∷ owners) e = touch_each owners (
      counters.add_per_replica owner profile counters.zero_float
        (counters.touch_count owner profile e))

  touch_all-records :
      AreNamed cluster
      → (os : List (String × OwnerReference)) (rs : List ShuffleRecord) (e : E)
      → records_of cluster os ≡ inr rs
      → touch_all counters cluster profile os e ≡ (none, touch_each (map (λ r. r.owner) rs) e)
  unfolding touch_all records_of
  touch_all-records named [] rs e h =
      ap (λ x. (none, touch_each (map (λ r. r.owner) x) e)) (all_recorded_inj [] rs h)
  touch_all-records named ((namespace, o) ∷ os) rs e h =
      go (record_owner cluster namespace o) (touch_owner cluster namespace o)
        (touch_owner-SameOwner cluster named namespace o) h (touch_all-records named os)
    where
      go :
          (r : Option (Error ⊎ ShuffleRecord)) (t : Option (Error ⊎ String))
          → SameOwner r t
          → collect r (records_of cluster os) ≡ inr rs
          → ((rs : List ShuffleRecord) (e : E)
              → records_of cluster os ≡ inr rs
              → touch_all counters cluster profile os e
                ≡ (none, touch_each (map (λ r. r.owner) rs) e))
          → touched counters cluster profile t (touch_all counters cluster profile os) e
            ≡ (none, touch_each (map (λ r. r.owner) rs) e)
      go none t same k rec = rw (same, touched) (rec rs e k)
      go (some (inl err)) t same k rec = absurd (failed≢recorded err rs k)
      go (some (inr r)) t same k rec =
          let (rs', found, shape) = collect-recorded r (records_of cluster os) rs k in
          rw (same, touched, shape) (rec rs' _ found)

  -- If each read returns the object of the name that was asked for, and RecordShuffles returns no error
  -- on some node, then it has counted some records, and TouchShuffles on that node returns no error and
  -- touches just the counters of the owners of these records, in the same order.
  pub touch_shuffles-record_shuffles :
      (node : String) (e e' e₂ : E)
      → AreNamed cluster
      → record_shuffles counters cluster node profile e ≡ (none, e')
      → (rs : List ShuffleRecord) × (e' ≡ count_records counters cluster profile rs e)
        × (touch_shuffles counters cluster node profile e₂
            ≡ (none, touch_each (map (λ r. r.owner) rs) e₂))
  unfolding record_shuffles touch_shuffles
  touch_shuffles-record_shuffles node e e' e₂ named h = by_pods (cluster.list_pods node) h
    where
      by_records :
          (os : List (String × OwnerReference)) (found : Error ⊎ List ShuffleRecord)
          → records_of cluster os ≡ found
          → counted counters cluster profile found e ≡ (none, e')
          → (rs : List ShuffleRecord) × (e' ≡ count_records counters cluster profile rs e)
            × (touch_all counters cluster profile os e₂
                ≡ (none, touch_each (map (λ r. r.owner) rs) e₂))
      by_records os (inl err) g k = absurd (no_error err (ap (λ x. x.0) k))
      by_records os (inr rs) g k = (rs, sym (ap (λ x. x.1) k), touch_all-records named os rs e₂ g)

      by_pods :
          (listed : Error ⊎ List OwnedPod)
          → record_listed counters cluster profile listed e ≡ (none, e')
          → (rs : List ShuffleRecord) × (e' ≡ count_records counters cluster profile rs e)
            × (touch_listed counters cluster profile listed e₂
                ≡ (none, touch_each (map (λ r. r.owner) rs) e₂))
      by_pods (inl err) k = absurd (no_error err (ap (λ x. x.0) k))
      by_pods (inr pods) k =
          by_records (owners_of pods) (records_of cluster (owners_of pods)) refl k
