-- ===== src/Examples/Neighbours.antt =====
-- The check affinity on a cluster with one other node that is to be maintained.
use maintenance_controller.Base.{
  ℕ, suc, String, some, str_eq, if◌then◌else◌, not, List, [], ◌∷◌, ◌≡◌, refl, none, inr, Assoc,
  done, any,
}
use maintenance_controller.World.{Node}
use maintenance_controller.Api.{Api, Pod}
use maintenance_controller.Plugin.Check.{failed_with_reason}
use maintenance_controller.State.Labels.{operational, required}
use maintenance_controller.State.Data.{ProfileData}
use maintenance_controller.Impl.Affinity.{check_nodes, has_affinity_pod}
use maintenance_controller.Impl.Neighbours.{Answers, holds_back, check_nodes_passed}
use maintenance_controller.Examples.Cluster.{node_one, world_one}
use maintenance_controller.Examples.Drains.{listing, daemon}

abbrev node_two : Node
node_two = record node_one { name = "two" }

abbrev two_required : Assoc ProfileData
two_required = ("two", record { transition = 9; current = required; previous = operational }) ∷ []

-- The pod prefers operational nodes.
abbrev preferring : Pod
preferring = record daemon {
  preferred = some (
      (record { key = "cloud.sap/maintenance-state"; operator = "In"; values = "operational" ∷ [] }
        ∷ [])
      ∷ []);
}

abbrev node_three : Node
node_three = record node_one { name = "three" }

abbrev three_required : Assoc ProfileData
three_required =
    ("three", record { transition = 9; current = required; previous = operational }) ∷ two_required

abbrev pods_of : Answers
pods_of name = if str_eq name "two" then inr (daemon ∷ []) else inr (preferring ∷ [])

-- It counts the listings.
abbrev counting_api : Api ℕ
counting_api = record (listing (inr [])) { list_pods = λ name e. (pods_of name, suc e) }

check_nodes_passed_example :
    (failed_with_reason "pods without affinity on: two").passed
    ≡ not (any (holds_back pods_of three_required "one") (node_one ∷ node_three ∷ node_two ∷ []))
unfolding check_nodes maintenance_controller.Base.lookup has_affinity_pod
    maintenance_controller.Impl.Affinity.has_operational_affinity
check_nodes_passed_example =
    check_nodes_passed counting_api pods_of (λ e. Unit {0}) (λ name e h. (refl, h)) three_required
      (node_one ∷ node_three ∷ node_two ∷ []) world_one (record world_one { ext = 102 })
      (failed_with_reason "pods without affinity on: two") tt refl
