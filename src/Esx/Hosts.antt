-- ===== src/Esx/Hosts.antt =====
-- esx/runnable.go: which ESX host a node runs on.
use Prim.Native.String.{◌++◌}
use maintenance_controller.Base.{
  String, Bool, ◌&&◌, Option, none, some, List, [], ◌∷◌, ◌++◌ as append, ◌⊎◌, inl, inr, get,
  Outcome, done, panicked, str_eq, if◌then◌else◌,
}
use maintenance_controller.Base.Text.{last_char}
use maintenance_controller.Errors.{Error, message}
use maintenance_controller.World.{Node}

abbrev pub host_label_key : String
host_label_key = "kubernetes.cloud.sap/host"

abbrev pub failure_domain_label_key : String
failure_domain_label_key = "failure-domain.beta.kubernetes.io/zone"

pub record HostInfo : Type 0 where
  pub name : String
  pub availability_zone : String

pub record Host : Type 0 where
  pub info : HostInfo
  pub nodes : List Node

abbrev pub same_host : HostInfo → HostInfo → Bool
same_host a b = str_eq a.name b.name && str_eq a.availability_zone b.availability_zone

abbrev pub missing_label : Node → String → Error
missing_label node key = message ("node " ++ (node.name ++ (" is missing label " ++ key)))

-- A failure domain that is the empty text has no last character to slice.
abbrev pub zone_of : String → Option String → Outcome (Error ⊎ HostInfo)
zone_of name none = panicked
zone_of name (some zone) = done (inr (record { name = name; availability_zone = zone }))

unfoldable pub parse_host_info : Node → Outcome (Error ⊎ HostInfo)
parse_host_info node = elim (get node.labels host_label_key) [
  | none ↦ done (inl (missing_label node host_label_key))
  | some name ↦ elim (get node.labels failure_domain_label_key) [
    | none ↦ done (inl (missing_label node failure_domain_label_key))
    | some domain ↦ zone_of name (last_char domain)
  ]
]

-- nodesOnHost[info] = append(nodesOnHost[info], node), in a map without an order
unfoldable pub add_to_host : HostInfo → Node → List Host → List Host
add_to_host info node [] = record { info = info; nodes = node ∷ [] } ∷ []
add_to_host info node (h ∷ hs) =
    let rest = add_to_host info node hs in
    if same_host h.info info then record h { nodes = append h.nodes (node ∷ []) } ∷ hs else h ∷ rest

abbrev pub with_info :
    Outcome (Error ⊎ HostInfo)
    → (HostInfo → Outcome (Error ⊎ List Host))
    → Outcome (Error ⊎ List Host)
with_info panicked rest = panicked
with_info (done (inl err)) rest = done (inl err)
with_info (done (inr info)) rest = rest info

-- The loop of ParseHostList.
unfoldable pub group_nodes : List Node → List Host → Outcome (Error ⊎ List Host)
unfolding parse_host_info add_to_host
group_nodes [] hosts = done (inr hosts)
group_nodes (node ∷ nodes) hosts =
    with_info (parse_host_info node) (λ info. group_nodes nodes (add_to_host info node hosts))

unfoldable pub parse_host_list : List Node → Outcome (Error ⊎ List Host)
unfolding group_nodes
parse_host_list nodes = group_nodes nodes []
