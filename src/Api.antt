-- ===== src/Api.antt =====
-- The calls of the Kubernetes API and of the clock that the plugins and package common make, over
-- whatever keeps the cluster's state.
use maintenance_controller.Base.{ℕ, String, Bool, Option, List, ◌⊎◌, GoMap}
use maintenance_controller.Base.Int.{ℤ}
use maintenance_controller.Errors.{Error}
use maintenance_controller.GoTime.{Time}
use maintenance_controller.World.{Node}

-- One expression of a node selector term.
pub record Expression : Type 0 where
  pub key : String
  pub operator : String
  pub values : List String

pub record Pod : Type 0 where
  pub name : String
  pub namespace : String
  pub annotations : GoMap String
  pub owner_kinds : List String
  pub deletion_timestamp : Option Time
  pub deletion_grace_period_seconds : Option ℤ
  -- Spec.Affinity.NodeAffinity.PreferredDuringSchedulingIgnoredDuringExecution, by terms; none if
  -- one of the pointers is nil
  pub preferred : Option (List (List Expression))

pub record LeaseKey : Type 0 where
  pub lease_namespace : String
  pub lease_name : String

-- coordinationv1.Lease; the pointers of its Spec may be nil.
pub record Lease : Type 0 where
  pub key : LeaseKey
  pub holder : Option String
  pub acquire_time : Option Time
  pub renew_time : Option Time
  pub duration_seconds : Option ℤ
  pub transitions : Option ℤ

-- What a List call asks for.
pub data NodeSelector : Type 0 where
  all_nodes : NodeSelector
  matching_label : String → String → NodeSelector
  -- client.HasLabels of one key
  having_label : String → NodeSelector

-- version.GE(major.minor.0) of package semver, for a version of the API server
abbrev pub IsAtLeast : Type 0
IsAtLeast = ℕ → ℕ → Bool

pub record Api (E : Type 0) : Type 0 where
  pub now : E → Time × E
  pub list_nodes : NodeSelector → E → (Error ⊎ List Node) × E
  -- List of pods with the field spec.nodeName
  pub list_pods : String → E → (Error ⊎ List Pod) × E
  pub get_lease : LeaseKey → E → (Error ⊎ Lease) × E
  pub create_lease : Lease → E → Option Error × E
  pub patch_lease : Lease → E → Option Error × E
  -- the version of the API server
  pub server_version : E → (Error ⊎ IsAtLeast) × E
  pub delete_pod : Pod → Option ℤ → E → Option Error × E
  pub evict_pod_v1beta1 : Pod → Option ℤ → E → Option Error × E
  pub evict_pod_v1 : Pod → Option ℤ → E → Option Error × E
  pub patch_node : Node → E → Option Error × E
