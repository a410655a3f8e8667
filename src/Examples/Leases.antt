-- ===== src/Examples/Leases.antt =====
-- The plugins stagger and clusterSemver, at leases and versions that are numbers and texts.
use maintenance_controller.Base.{
  ℕ, suc, String, Bool, true, false, ◌||◌, Option, none, some, List, [], ◌∷◌, ◌≡◌, refl, ◌⊎◌, inl,
  inr, made, Outcome, any, ltb, arith, ◌&&◌, str_eq, eq_iff, eq_self, Bool-cases, ap, sym, ◌∙◌,
  if◌then◌else◌,
}
use Prim.Native.String.{count}
use maintenance_controller.Base.Int.{pos}
use maintenance_controller.Errors.{message, not_found}
use maintenance_controller.GoTime.{Time}
use maintenance_controller.World.{Node, World}
use maintenance_controller.Api.{Api, Lease, LeaseKey}
use maintenance_controller.Impl.Stagger.{Stagger, Grabs, grabbed}
use maintenance_controller.Impl.Staggered.{as_stored}
use maintenance_controller.Impl.Semver.{ClusterSemver, Versions, compare_listed}
use maintenance_controller.Impl.Outdated.{IsOrder, is_newer, considered, compare_listed_passed}
use maintenance_controller.Examples.Cluster.{node_one}

-- The clock, the index to grab, and the one lease that the API server stores.
pub record Shelf : Type 0 where
  pub time : Time
  pub grab : Option ℕ
  pub lease : Lease

abbrev key_zero : LeaseKey
key_zero = record { lease_namespace = "kube-system"; lease_name = "drain-0" }

abbrev lease_free : Lease
lease_free = record {
  key = key_zero;
  holder = some "two";
  acquire_time = some 0;
  renew_time = some 0;
  duration_seconds = some (pos 60);
  transitions = some (pos 4);
}

abbrev same_key : LeaseKey → LeaseKey → Bool
same_key a b = str_eq a.lease_namespace b.lease_namespace && str_eq a.lease_name b.lease_name

abbrev shelf_api : Api Shelf
shelf_api = record {
  now = λ e. (e.time, record e { time = suc e.time });
  list_nodes = λ selector e. (inr [], e);
  list_pods = λ name e. (inr [], e);
  get_lease =
      λ key e. (if same_key e.lease.key key then inr e.lease else inl (not_found "no lease"), e);
  create_lease = λ lease e. (none, record e { lease = lease });
  patch_lease = λ lease e. (none, record e { lease = lease });
  server_version = λ e. (inl (message "no version"), e);
  delete_pod = λ pod grace e. (none, e);
  evict_pod_v1beta1 = λ pod grace e. (none, e);
  evict_pod_v1 = λ pod grace e. (none, e);
  patch_node = λ node e. (none, e);
}

abbrev grabs : Grabs Shelf
grabs = record { index = λ e. e.grab; set_index = λ i e. record e { grab = i } }

abbrev stagger_one : Stagger
stagger_one = record {
  duration = pos 60_000_000_000;
  lease_name = "drain";
  lease_namespace = "kube-system";
  parallel = pos 1;
}

abbrev world_grabbing : World Shelf
world_grabbing = record {
  node = node_one;
  ext = record { time = 1000; grab = some 0; lease = lease_free };
}

-- Half a minute later, over the cache that has caught up.
abbrev world_later : World Shelf
world_later = record {
  node = record node_one { name = "two" };
  ext = record {
    time = 30_000_001_000;
    grab = none;
    lease = as_stored (grabbed stagger_one "one" 1000 lease_free);
  };
}

-- Versions are ordered by the length of their text.
abbrev versions : Versions ℕ
versions = record {
  parse = λ text. if str_eq text "broken" then inl (message "no version") else inr (count text);
  lt = ltb;
  gt = λ a b. ltb b a;
  show = λ v. "";
  lowest = 1;
}

abbrev semver_one : ClusterSemver
semver_one = record { key = "version"; profile_scoped = false }

order : IsOrder versions semver_one
order = ((λ a b. refl), (λ a b c h k. ground arith), (λ a b c h k. ground arith))

abbrev at_version : String → Node
at_version v = record node_one { labels = made (("version", v) ∷ []) }

abbrev versioned : List Node
versioned = at_version "22" ∷ at_version "broken" ∷ at_version "4444" ∷ []

compare_listed_passed_example :
    ((compare_listed versions semver_one 3 "kernel" (inr versioned)).1 ≡ none)
    × ((compare_listed versions semver_one 3 "kernel" (inr versioned)).0.passed ≡ (
        ltb 3 1
        || any
            (is_newer versions semver_one 3)
            (considered versions semver_one "kernel" versioned)))
unfolding maintenance_controller.Base.lookup
compare_listed_passed_example =
    compare_listed_passed versions semver_one 3 "kernel" versioned order (refl, (refl, (refl, tt)))
