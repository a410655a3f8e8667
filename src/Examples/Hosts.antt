-- ===== src/Examples/Hosts.antt =====
-- An ESX host with two nodes, on a vCenter that answers at once.
use maintenance_controller.Base.{
  ℕ, suc, String, Bool, true, false, Option, none, some, List, [], ◌∷◌, ◌≡◌, refl, ◌⊎◌, inl, inr,
  nil_map, made, done, lookup,
}
use maintenance_controller.Base.Int.{pos}
use maintenance_controller.Errors.{Error, message}
use maintenance_controller.World.{Node}
use maintenance_controller.Api.{Api}
use maintenance_controller.Esx.Vcenter.{Sdk, VCenters, Center, powered_on, success}
use maintenance_controller.Esx.Hosts.{HostInfo, Host, parse_host_list}
use maintenance_controller.Esx.Power.{Waiting, ensure_vm_off}
use maintenance_controller.Esx.Nodes.{Visit, Shutdown, shutdown_node}
use maintenance_controller.Esx.Rounds.{
  EsxConfig, HostVisit, check_maintenance, start_nodes, shutdown_nodes,
}
use maintenance_controller.Esx.Grouping.{nodes_of, on_host, DistinctHosts, parse_host_list_groups}
use maintenance_controller.Esx.Labelling.{check_maintenance_exclusive}
use maintenance_controller.Esx.Poweroff.{IsOff, PollsUntil, ensure_vm_off-IsOff}
use maintenance_controller.Esx.Spared.{shutdown_node_spares}
use maintenance_controller.Examples.Drains.{listing, daemon}

abbrev node_on : String → String → Node
node_on name host = record {
  name = name;
  labels = made (
      ("kubernetes.cloud.sap/host", host)
      ∷ ("failure-domain.beta.kubernetes.io/zone", "qa-de-1a")
      ∷ ("cloud.sap/esx-in-maintenance", "true")
      ∷ ("cloud.sap/esx-reboot-ok", "true")
      ∷ []);
  annotations = nil_map;
  unschedulable = false;
  conditions = [];
  finalizers = [];
}

abbrev nodes_two : List Node
nodes_two = node_on "n1" "esx1" ∷ node_on "n2" "esx2" ∷ node_on "n3" "esx1" ∷ []

abbrev esx_one : HostInfo
esx_one = record { name = "esx1"; availability_zone = "a" }

abbrev hosts_two : List Host
hosts_two =
    record { info = esx_one; nodes = node_on "n1" "esx1" ∷ node_on "n3" "esx1" ∷ [] }
    ∷ record {
      info = record { name = "esx2"; availability_zone = "a" };
      nodes = node_on "n2" "esx2" ∷ [];
    }
    ∷ []

parse_host_list_groups_example :
    ((info : HostInfo) → nodes_of info hosts_two ≡ on_host info nodes_two) × DistinctHosts hosts_two
unfolding parse_host_list lookup maintenance_controller.Base.Text.last_char
parse_host_list_groups_example = parse_host_list_groups nodes_two hosts_two refl

-- The number counts the calls. The poll loop asks once.
abbrev polled : (Error ⊎ Bool) × ℕ → Option Error × ℕ
polled (inl err, e) = (some err, e)
polled (inr false, e) = (some (message "timed out waiting for the condition"), e)
polled (inr true, e) = (none, e)

abbrev sdk_with : Bool → Sdk ℕ String String
sdk_with tools = record {
  parse_url = λ text. inr text;
  new_client = λ u c insecure e. (inr u, suc e);
  logout = λ c e. (none, e);
  create_view = λ c kinds e. (inr "view", e);
  retrieve_hosts = λ c v filter name e. (
    inr (
        record {
          in_maintenance_mode = true;
          recent_task = [];
          version = some "8.0";
          triggered_alarms = [];
        }
        ∷ []),
    e,
  );
  retrieve_machines =
      λ c v name e. (inr (record { self = "vm-1"; power_state = powered_on } ∷ []), e);
  destroy_view = λ c v e. (none, e);
  retrieve_tasks = λ c refs e. (inr [], e);
  retrieve_alarms = λ c refs e. (inr [], e);
  shutdown_guest = λ c vm e. (none, suc e);
  power_off = λ c vm e. (inr "task", suc e);
  power_on = λ c vm e. (inr "task", suc e);
  wait_for_result = λ c task e. (inr success, e);
  poll = λ period timeout condition e. polled (condition e);
  is_interrupted = λ err. tools;
  is_soap_fault = λ err. false;
  has_tools_unavailable = λ err. false;
}

abbrev vcenters : VCenters
vcenters = record {
  template = "https://vc-$AZ";
  insecure = false;
  credentials = ("a", record { username = "u"; password = "p" }) ∷ [];
}

abbrev settings : Shutdown
settings = record {
  vcenters = vcenters;
  force = false;
  waiting = record { period = pos 1; timeout = pos 2 };
}

abbrev center_one : Center ℕ String
center_one = record { cache = nil_map; ext = 0 }

abbrev center_end : Center ℕ String
center_end = (ensure_vm_off (sdk_with true) vcenters esx_one "n1" settings.waiting center_one).1

polls_until : PollsUntil (sdk_with true)
polls_until period timeout condition e e' h = go (condition e) refl h
  where
    go :
        (r : (Error ⊎ Bool) × ℕ)
        → condition e ≡ r
        → polled r ≡ (none, e')
        → (e₀ : ℕ) × (condition e₀ ≡ (inr true, e'))
    go (inl err, x) g k = cc
    go (inr false, x) g k = cc
    go (inr true, x) g k = (e, cc)

ensure_vm_off-IsOff_example : IsOff (sdk_with true) "a" "n1" center_end
unfolding ensure_vm_off lookup
ensure_vm_off-IsOff_example =
    ensure_vm_off-IsOff (sdk_with true) vcenters esx_one "n1" settings.waiting center_one center_end
      polls_until refl

abbrev visit_one : Visit ℕ String
visit_one = record { node = node_on "n1" "esx1"; center = center_one }

-- The API server lists a pod that a drain has to evict.
abbrev occupied : Api ℕ
occupied = listing (inr (record daemon { owner_kinds = [] } ∷ []))

shutdown_node_spares_example :
    shutdown_node (sdk_with true) occupied settings esx_one visit_one
    ≡ shutdown_node (sdk_with false) occupied settings esx_one visit_one
unfolding maintenance_controller.Esx.Power.should_shutdown_node lookup
    maintenance_controller.Esx.Nodes.ensure_annotation
    maintenance_controller.Drain.ensure_schedulable maintenance_controller.Drain.ensure_drain
    maintenance_controller.Drain.eviction_version
shutdown_node_spares_example =
    shutdown_node_spares (sdk_with true) (sdk_with false) occupied settings esx_one visit_one refl

abbrev esx_config : EsxConfig
esx_config = record { shutdown = settings; alarms = [] }

abbrev host_one : HostVisit ℕ String
host_one = record { nodes = node_on "n1" "esx1" ∷ []; center = center_one }

abbrev host_checked : HostVisit ℕ String
host_checked = (check_maintenance (sdk_with true) (listing (inr [])) esx_config esx_one host_one).1

check_maintenance_exclusive_example :
    (start_nodes (sdk_with true) (listing (inr [])) vcenters esx_one host_checked
      ≡ (done tt, host_checked))
    ⊎ (shutdown_nodes (sdk_with true) (listing (inr [])) settings esx_one host_checked
        ≡ (done tt, host_checked))
unfolding check_maintenance lookup maintenance_controller.Base.insert
check_maintenance_exclusive_example =
    check_maintenance_exclusive (sdk_with true) (listing (inr [])) esx_config esx_one host_one
      host_checked refl
