-- ===== src/Examples/Drains.antt =====
-- The eviction trigger on a cluster whose API server lists the pods of a node in one given way.
use maintenance_controller.Base.{
  ℕ, suc, String, Bool, true, false, Option, none, some, List, [], ◌∷◌, ◌≡◌, refl, ◌⊎◌, inl, inr,
  made, done, All, str_eq, if◌then◌else◌,
}
use maintenance_controller.Errors.{Error, message, retry_error, is_retry}
use maintenance_controller.Api.{Api, Pod}
use maintenance_controller.Drain.{drainable, drain_listed, drain_pods, ensure_drain}
use maintenance_controller.Impl.Eviction.{Eviction, evict}
use maintenance_controller.Impl.Evicted.{
  IsLeft, marks, evict-node, ensure_drain_done, evict_retries,
}
use maintenance_controller.Examples.Cluster.{node_one, world_one}

abbrev pub listing : Error ⊎ List Pod → Api ℕ
listing pods = record {
  now = λ e. (e, suc e);
  list_nodes = λ selector e. (inr (node_one ∷ []), e);
  list_pods = λ name e. (pods, e);
  get_lease = λ key e. (inl (message "no leases"), e);
  create_lease = λ lease e. (none, e);
  patch_lease = λ lease e. (none, e);
  server_version = λ e. (inr (λ major minor. true), e);
  delete_pod = λ pod grace e. (none, e);
  evict_pod_v1beta1 = λ pod grace e. (none, e);
  evict_pod_v1 = λ pod grace e. (none, suc e);
  patch_node = λ node e. (none, e);
}

abbrev pub daemon : Pod
daemon = record {
  name = "agent";
  namespace = "default";
  annotations = made [];
  owner_kinds = "DaemonSet" ∷ [];
  deletion_timestamp = none;
  deletion_grace_period_seconds = none;
  preferred = none;
}

abbrev draining : Eviction
draining = record { action = "drain"; force_eviction = false }

evict-node_example :
    (evict (listing (inr (daemon ∷ []))) draining world_one).1.node ≡ record node_one {
      unschedulable =
          if marks "drain" then true else if str_eq "drain" "uncordon" then false else false;
    }
evict-node_example = evict-node (listing (inr (daemon ∷ []))) draining world_one

ensure_drain_done_example :
    (pods : List Pod) × (◌≡◌ {A = (Error ⊎ List Pod) × ℕ} (inr (daemon ∷ []), 100) (inr pods, 100))
    × All IsLeft pods
unfolding ensure_drain maintenance_controller.Base.lookup
ensure_drain_done_example =
    ensure_drain_done (listing (inr (daemon ∷ []))) false none world_one world_one refl

evict_retries_example : is_retry (retry_error "drain still in progress") ≡ true
unfolding evict maintenance_controller.Base.lookup maintenance_controller.Drain.eviction_version
evict_retries_example =
    evict_retries (listing (inr (record daemon { owner_kinds = [] } ∷ []))) draining world_one
      (evict (listing (inr (record daemon { owner_kinds = [] } ∷ []))) draining world_one).1
      (retry_error "drain still in progress") refl refl
