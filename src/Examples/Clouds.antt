-- ===== src/Examples/Clouds.antt =====
-- A node whose deletion is requested, and the counters of the pods on it.
use maintenance_controller.Base.{
  ℕ, suc, String, Bool, true, false, Option, none, some, List, [], ◌∷◌, map, ◌≡◌, refl, ◌⊎◌, inl,
  inr, nil_map, made, Assoc,
}
use maintenance_controller.Base.Int.{ℤ, pos}
use maintenance_controller.World.{World}
use maintenance_controller.Api.{Api}
use maintenance_controller.Kubernikus.{
  Cloud, OpenStackConfig, KubernikusConfig, delete_if_requested,
}
use maintenance_controller.Kubernikus.Deletion.{delete_if_requested_spares}
use maintenance_controller.Metrics.{
  Workloads, Counters, ShuffleRecord, count_records, record_shuffles, touch_shuffles,
}
use maintenance_controller.Metrics.Owners.{AreNamed, touch_each, touch_shuffles-record_shuffles}
use maintenance_controller.Examples.Cluster.{node_one}
use maintenance_controller.Examples.Drains.{listing, daemon}

abbrev os_config : OpenStackConfig
os_config = record {
  region = "qa-de-1";
  auth_url = "https://identity";
  username = "u";
  password = "p";
  domainname = "d";
  project_id = "project";
}

-- The number counts the calls that change something.
abbrev cloud_with : List String → Cloud ℕ String String String
cloud_with ids = record {
  parse_version = λ text. inr text;
  is_different = λ a b. false;
  new_clientset = λ e. (none, e);
  git_version = λ e. (inr "v1.31.0", e);
  kubelet_version = λ node. "v1.31.0";
  get_node = λ name e. (inr node_one, e);
  map_ini = λ text. inr os_config;
  read_config_file = λ e. (inr "", e);
  get_secret = λ key e. (inr [], e);
  new_provider = λ endpoint e. (inr "provider", e);
  authenticate = λ p conf e. (none, e);
  new_compute = λ p region e. (inr "compute", e);
  list_servers = λ k project name e. (inr "pages", e);
  extract_servers = λ pages. inr ids;
  delete_server = λ k id e. (none, suc e);
  show_key = λ key. "";
}

abbrev kubernikus_config : KubernikusConfig
kubernikus_config = record {
  requeue = 60;
  force = false;
  cloud_provider_secret = record { name = ""; namespace = "" };
}

-- The API server lists a pod that a drain has to evict.
abbrev occupied : Api ℕ
occupied = listing (inr (record daemon { owner_kinds = [] } ∷ []))

abbrev world_deleted : World ℕ
world_deleted = record {
  node = record node_one { labels = made (("cloud.sap/delete-node", "true") ∷ []) };
  ext = 0;
}

delete_if_requested_spares_example :
    delete_if_requested (cloud_with ("vm" ∷ [])) occupied kubernikus_config world_deleted
    ≡ delete_if_requested (cloud_with []) occupied kubernikus_config world_deleted
unfolding maintenance_controller.Base.lookup maintenance_controller.Drain.ensure_schedulable
    maintenance_controller.Drain.ensure_drain maintenance_controller.Drain.eviction_version
delete_if_requested_spares_example =
    delete_if_requested_spares (cloud_with ("vm" ∷ [])) (cloud_with []) occupied kubernikus_config
      world_deleted refl

abbrev cluster_one : Workloads
cluster_one = record {
  list_pods = λ node. inr (
      record {
        namespace = "default";
        owners =
            record { kind = "ReplicaSet"; name = "web-1" }
            ∷ record { kind = "Job"; name = "once" }
            ∷ [];
      }
      ∷ record {
        namespace = "default";
        owners = record { kind = "DaemonSet"; name = "agent" } ∷ [];
      }
      ∷ []);
  get_daemon_set = λ namespace name. inr (record { name = name; number_ready = pos 3 });
  get_replica_set = λ namespace name. inr (record {
    name = name;
    namespace = namespace;
    replicas = none;
    owners = record { kind = "Deployment"; name = "web" } ∷ [];
  });
  get_deployment = λ namespace name. inr (record { name = name; replicas = some (pos 2) });
  get_stateful_set = λ namespace name. inr (record { name = name; replicas = none });
}

-- The counters' changes, the last one first; a number stands for one divided by it.
abbrev Log : Type 0
Log = List (String × ℤ)

abbrev log_counters : Counters Log ℤ
log_counters = record {
  one_over = λ n. n;
  zero_float = pos 0;
  increment_count = λ owner profile e. e;
  touch_count = λ owner profile e. e;
  add_per_replica = λ owner profile x e. (owner, x) ∷ e;
  increment_failures = λ profile e. e;
}

abbrev log_end : Log
log_end = (record_shuffles log_counters cluster_one "one" "kernel" []).1

named_one : AreNamed cluster_one
named_one = ((λ ns n a e. cc), (λ ns n a e. cc), (λ ns n a e. cc), (λ ns n a e. cc))

touch_shuffles-record_shuffles_example :
    (rs : List ShuffleRecord) × (log_end ≡ count_records log_counters cluster_one "kernel" rs [])
    × (touch_shuffles log_counters cluster_one "one" "kernel" []
        ≡ (none, touch_each log_counters cluster_one "kernel" (map (λ r. r.owner) rs) []))
unfolding record_shuffles
touch_shuffles-record_shuffles_example =
    touch_shuffles-record_shuffles log_counters cluster_one "kernel" "one" [] log_end [] named_one
      refl
