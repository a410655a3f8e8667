-- ===== src/Esx/Rounds.antt =====
-- esx/runnable.go: one round over all ESX hosts.
use maintenance_controller.Base.{
  String, Bool, List, [], ◌∷◌, ◌⊎◌, inl, inr, Outcome, done, panicked, Run, resume, pure, any,
  contains, ◌>>=◌, ◌>>◌, if◌then◌else◌, nil_map,
}
use maintenance_controller.Errors.{Error, try, as_result}
use maintenance_controller.World.{Node}
use maintenance_controller.Api.{Api}
use maintenance_controller.Esx.Vcenter.{Sdk, VCenters, Center, clear_cache, unchanged}
use maintenance_controller.Esx.Hosts.{HostInfo, Host, parse_host_list}
use maintenance_controller.Esx.Inspection.{
  alarm_maintenance, check_for_maintenance, fetch_version, check_alarms,
}
use maintenance_controller.Esx.Power.{maintenance_label_key}
use maintenance_controller.Esx.Nodes.{Visit, Shutdown, ensure_label, shutdown_node, start_node}

abbrev pub version_label_key : String
version_label_key = "cloud.sap/esx-version"

pub record EsxConfig : Type 0 where
  pub shutdown : Shutdown
  pub alarms : List String

-- The nodes of one host, the cache of clients, and what the calls change.
pub record HostVisit (E C : Type 0) : Type 0 where
  pub nodes : List Node
  pub center : Center E C

module _ {E C : Type 0} where
  abbrev pub on_center : {A : Type 0} → Run (Center E C) A → Run (HostVisit E C) A
  on_center run v = let (answer, s) = run v.center in (answer, record v { center = s })

  abbrev pub label_nodes :
      Api E → HostInfo → String → String → Run (HostVisit E C) (Error ⊎ Unit {0})
  label_nodes api host key value v =
      let ((answer, ns), e) = ensure_label api host key value v.nodes v.center.ext in
      (done (as_result answer), record { nodes = ns; center = record v.center { ext = e } })

  abbrev keep_node : Node → Outcome (Unit {0}) × HostVisit E C → Outcome (Unit {0}) × HostVisit E C
  keep_node n (answer, v) = (answer, record v { nodes = n ∷ v.nodes })

  abbrev pub next_node :
      List Node
      → (Center E C → Outcome (Unit {0}) × HostVisit E C)
      → Outcome (Unit {0}) × Visit E C
      → Outcome (Unit {0}) × HostVisit E C
  next_node ns rest (panicked, v) = (panicked, record { nodes = v.node ∷ ns; center = v.center })
  next_node ns rest (done u, v) = keep_node v.node (rest v.center)

  -- A loop over the nodes of a host, which share the center.
  unfoldable pub for_nodes :
      Run (Visit E C) (Unit {0}) → List Node → Center E C → Outcome (Unit {0}) × HostVisit E C
  for_nodes body [] s = (done tt, record { nodes = []; center = s })
  for_nodes body (n ∷ ns) s =
      next_node ns (for_nodes body ns) (body (record { node = n; center = s }))

-- Some alarm of the host is one that the configuration names.
abbrev pub is_alarmed : List String → List String → Bool
is_alarmed configured alarms = any (contains configured) alarms

module _ {E C Url : Type 0} (sdk : Sdk E C Url) (api : Api E) where
  -- CheckMaintenance
  unfoldable pub check_maintenance : EsxConfig → HostInfo → Run (HostVisit E C) (Error ⊎ Unit {0})
  unfolding check_alarms check_for_maintenance ensure_label
  check_maintenance conf host =
      let vc = conf.shutdown.vcenters in
      try (on_center (check_alarms sdk vc host)) unchanged (λ alarms.
        if is_alarmed conf.alarms alarms
        then label_nodes api host maintenance_label_key alarm_maintenance
        else try (on_center (check_for_maintenance sdk vc host)) unchanged
            (λ status. label_nodes api host maintenance_label_key status))

  -- Runnable.FetchVersion
  unfoldable pub label_version : VCenters → HostInfo → Run (HostVisit E C) (Error ⊎ Unit {0})
  unfolding fetch_version ensure_label
  label_version vc host =
      try (on_center (fetch_version sdk vc host)) unchanged
        (λ version. label_nodes api host version_label_key version)

  unfoldable pub start_nodes : VCenters → HostInfo → Run (HostVisit E C) (Unit {0})
  unfolding for_nodes start_node
  start_nodes vc host v = for_nodes (start_node sdk api vc host) v.nodes v.center

  unfoldable pub shutdown_nodes : Shutdown → HostInfo → Run (HostVisit E C) (Unit {0})
  unfolding for_nodes shutdown_node
  shutdown_nodes conf host v = for_nodes (shutdown_node sdk api conf host) v.nodes v.center

  -- The body of the loop of Reconcile. Errors are logged.
  abbrev after_labels : EsxConfig → HostInfo → Error ⊎ Unit {0} → Run (HostVisit E C) (Unit {0})
  after_labels conf host (inl err) = pure tt
  after_labels conf host (inr u) = do
    start_nodes conf.shutdown.vcenters host
    shutdown_nodes conf.shutdown host

  unfoldable pub visit_host : EsxConfig → HostInfo → Run (HostVisit E C) (Unit {0})
  unfolding label_version check_maintenance start_nodes shutdown_nodes
  visit_host conf host = do
    label_version conf.shutdown.vcenters host
    checked ← check_maintenance conf host
    after_labels conf host checked

  abbrev host_visit : Host → Center E C → HostVisit E C
  host_visit esx s = record { nodes = esx.nodes; center = s }

  unfoldable pub visit_hosts : EsxConfig → List Host → Run (Center E C) (Unit {0})
  unfolding visit_host
  visit_hosts conf [] s = (done tt, s)
  visit_hosts conf (esx ∷ hosts) s =
      let (answer, v) = visit_host conf esx.info (host_visit esx s) in
      resume (answer, v.center) (λ u. visit_hosts conf hosts)

  -- After ParseHostList, whose error is logged and leaves no hosts. `order` is the order in which
  -- Go iterates over the map of hosts.
  abbrev visit_parsed :
      EsxConfig
      → (List Host → List Host)
      → Outcome (Error ⊎ List Host)
      → Run (Center E C) (Unit {0})
  visit_parsed conf order panicked s = (panicked, s)
  visit_parsed conf order (done (inl err)) s = clear_cache sdk conf.shutdown.vcenters s
  visit_parsed conf order (done (inr hosts)) s =
      resume (visit_hosts conf (order hosts) s) (λ u. clear_cache sdk conf.shutdown.vcenters)

  abbrev visit_listed :
      EsxConfig → (List Host → List Host) → (Error ⊎ List Node) × E → Outcome (Unit {0}) × E
  visit_listed conf order (inl err, e) = (done tt, e)
  visit_listed conf order (inr nodes, e) =
      let (answer, s) =
        visit_parsed conf order (parse_host_list nodes) (record { cache = nil_map; ext = e }) in
      (answer, s.ext)

  -- Runnable.Reconcile; `load` is the outcome of loadConfig, `list` the List of the nodes with both
  -- labels. The configuration, and the cache in it, are made anew in each round.
  unfoldable pub reconcile_hosts :
      Error ⊎ EsxConfig
      → (List Host → List Host)
      → (E → (Error ⊎ List Node) × E)
      → E
      → Outcome (Unit {0}) × E
  unfolding visit_hosts clear_cache parse_host_list
  reconcile_hosts (inl err) order list e = (done tt, e)
  reconcile_hosts (inr conf) order list e = visit_listed conf order (list e)
