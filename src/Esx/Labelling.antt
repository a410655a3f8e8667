-- ===== src/Esx/Labelling.antt =====
-- CheckMaintenance, and what the two loops over the nodes of a host do right after it.
use maintenance_controller.Base.{
  String, true, false, Option, none, some, List, [], ◌∷◌, ◌≡◌, refl, ap, ◌∙◌, ◌⊎◌, inl, inr, lookup,
  lookup-insert, get, entries, entries-make_if_nil, done, Run, All, All-map, Bool-cases, arith,
  str_eq, eq_iff, eq_self, Ends, Ends-at,
}
use maintenance_controller.Errors.{Error, as_result, try-Ends}
use maintenance_controller.World.{Node}
use maintenance_controller.Api.{Api}
use maintenance_controller.Esx.Vcenter.{Sdk, VCenters, Center, unchanged}
use maintenance_controller.Esx.Hosts.{HostInfo}
use maintenance_controller.Esx.Inspection.{
  no_maintenance, alarm_maintenance, check_for_maintenance, check_alarms,
}
use maintenance_controller.Esx.Power.{maintenance_label_key, should_shutdown_node, should_start}
use maintenance_controller.Esx.Nodes.{
  Visit, Shutdown, differs, relabelled, ensure_node_label, ensure_label, shutdown_node, start_node,
}
use maintenance_controller.Esx.Rounds.{
  EsxConfig, HostVisit, label_nodes, on_center, for_nodes, is_alarmed, check_maintenance,
  start_nodes, shutdown_nodes,
}

abbrev pub HasLabel : String → String → Node → Type 0
HasLabel key value node = get node.labels key ≡ some value

same : {value : String} (found : Option String) → differs found value ≡ false → found ≡ some value
same none h = cc
same {value = value} (some v) h = ground (arith, eq_iff value v)

relabelled-All :
    {E : Type 0} (P : Node → Type 0) (r : (Option Error × Node) × E) (rest : List Node)
    (f : E → (Option Error × List Node) × E)
    → (r.0.0 ≡ none → P r.0.1)
    → ((e : E) → (f e).0.0 ≡ none → All P (f e).0.1)
    → (relabelled r rest f).0.0 ≡ none
    → All P (relabelled r rest f).0.1
relabelled-All P ((some err, n), e) rest f p q h = absurd (none≢some h)
  where
    none≢some : some err ≡ none → ⊥
    none≢some e = cc
relabelled-All P ((none, n), e) rest f p q h = (p refl, q e h)

module _ {E : Type 0} (api : Api E) (host : HostInfo) (key value : String) where
  ensure_node_label-HasLabel :
      (node : Node) (e : E)
      → (ensure_node_label api host key value node e).0.0 ≡ none
      → HasLabel key value (ensure_node_label api host key value node e).0.1
  unfolding ensure_node_label
  ensure_node_label-HasLabel node e h = elim (Bool-cases (differs (get node.labels key) value)) [
    | inl y ↦ rw y (lookup-insert key key value (entries node.labels) ∙ rw (eq_self key) refl)
    | inr n ↦
        rw n (ap (lookup key) (entries-make_if_nil node.labels) ∙ same (get node.labels key) n)
  ]

  -- If ensureLabel returns no error, every node has the label with the value.
  ensure_label-HasLabel :
      (nodes : List Node) (e : E)
      → (ensure_label api host key value nodes e).0.0 ≡ none
      → All (HasLabel key value) (ensure_label api host key value nodes e).0.1
  unfolding ensure_label
  ensure_label-HasLabel [] e h = tt
  ensure_label-HasLabel (n ∷ ns) e h =
      relabelled-All (HasLabel key value) (ensure_node_label api host key value n e) ns _
        (ensure_node_label-HasLabel n e) (ensure_label-HasLabel ns) h

abbrev Settled : {E C : Type 0} → Error ⊎ Unit {0} → HostVisit E C → Type 0
Settled (inl err) v = Unit
Settled (inr u) v = (value : String) × All (HasLabel maintenance_label_key value) v.nodes

for_nodes-nothing :
    {E C : Type 0} (body : Run (Visit E C) (Unit {0})) (P : Node → Type 0)
    → ((n : Node) (s : Center E C)
        → P n
        → body (record { node = n; center = s }) ≡ (done tt, record { node = n; center = s }))
    → (ns : List Node) (s : Center E C) → All P ns
    → for_nodes body ns s ≡ (done tt, record { nodes = ns; center = s })
unfolding for_nodes
for_nodes-nothing body P idle [] s h = refl
for_nodes-nothing body P idle (n ∷ ns) s h =
    rw (idle n s h.0) (rw (for_nodes-nothing body P idle ns s h.1) refl)

stays_up :
    (value : String) (n : Node)
    → str_eq value no_maintenance ≡ true
    → HasLabel maintenance_label_key value n
    → should_shutdown_node n ≡ false
unfolding should_shutdown_node
stays_up value n y h = rw (h, (eq_iff value no_maintenance).0 y) refl

stays_down :
    (value : String) (n : Node)
    → str_eq value no_maintenance ≡ false
    → HasLabel maintenance_label_key value n
    → should_start n ≡ false
unfolding should_start
stays_down value n y h = rw h (ground (arith, y))

module _ {E C Url : Type 0} (sdk : Sdk E C Url) (api : Api E) where
  label_nodes-Settled :
      (host : HostInfo) (value : String) (v : HostVisit E C)
      → Ends Settled (label_nodes api host maintenance_label_key value v)
  label_nodes-Settled host value v =
      go (ensure_label api host maintenance_label_key value v.nodes v.center.ext)
        (ensure_label-HasLabel api host maintenance_label_key value v.nodes v.center.ext)
    where
      go :
          (r : (Option Error × List Node) × E)
          → (r.0.0 ≡ none → All (HasLabel maintenance_label_key value) r.0.1)
          → Settled
              (as_result r.0.0)
              (record { nodes = r.0.1; center = record v.center { ext = r.1 } })
      go ((none, ns), e) h = (value, h refl)
      go ((some err, ns), e) h = tt

  check_maintenance-Settled :
      (conf : EsxConfig) (host : HostInfo) (v : HostVisit E C)
      → Ends Settled (check_maintenance sdk api conf host v)
  unfolding check_maintenance
  check_maintenance-Settled conf host v =
      let vc = conf.shutdown.vcenters in
      try-Ends Settled (on_center (check_alarms sdk vc host)) unchanged _ v (λ err t. tt)
        (λ alarms t. elim (Bool-cases (is_alarmed conf.alarms alarms)) [
          | inl y ↦ rw y (label_nodes-Settled host alarm_maintenance t)
          | inr n ↦ rw n (
              try-Ends Settled (on_center (check_for_maintenance sdk vc host)) unchanged _ t
                (λ err u. tt) (λ status u. label_nodes-Settled host status u))
        ])

  start_nodes-nothing :
      (vc : VCenters) (host : HostInfo) (ns : List Node) (s : Center E C)
      → All (λ n. should_start n ≡ false) ns
      → start_nodes sdk api vc host (record { nodes = ns; center = s })
        ≡ (done tt, record { nodes = ns; center = s })
  unfolding start_nodes start_node
  start_nodes-nothing vc host ns s h =
      for_nodes-nothing (start_node sdk api vc host) (λ n. should_start n ≡ false) idle ns s h
    where
      idle :
          (n : Node) (s : Center E C)
          → should_start n ≡ false
          → start_node sdk api vc host (record { node = n; center = s })
            ≡ (done tt, record { node = n; center = s })
      idle n s h = rw h refl

  shutdown_nodes-nothing :
      (conf : Shutdown) (host : HostInfo) (ns : List Node) (s : Center E C)
      → All (λ n. should_shutdown_node n ≡ false) ns
      → shutdown_nodes sdk api conf host (record { nodes = ns; center = s })
        ≡ (done tt, record { nodes = ns; center = s })
  unfolding shutdown_nodes shutdown_node
  shutdown_nodes-nothing conf host ns s h =
      for_nodes-nothing (shutdown_node sdk api conf host) (λ n. should_shutdown_node n ≡ false) idle
        ns s h
    where
      idle :
          (n : Node) (s : Center E C)
          → should_shutdown_node n ≡ false
          → shutdown_node sdk api conf host (record { node = n; center = s })
            ≡ (done tt, record { node = n; center = s })
      idle n s h = rw h refl

  -- After a check that could label the nodes of a host, either starting its nodes or shutting them down
  -- does nothing at all: no node is changed, and no call is made.
  pub check_maintenance_exclusive :
      (conf : EsxConfig) (host : HostInfo) (v v' : HostVisit E C)
      → check_maintenance sdk api conf host v ≡ (done (inr tt), v')
      → (start_nodes sdk api conf.shutdown.vcenters host v' ≡ (done tt, v'))
        ⊎ (shutdown_nodes sdk api conf.shutdown host v' ≡ (done tt, v'))
  check_maintenance_exclusive conf host v v' e =
      let (value, labels) =
        Ends-at Settled _ (inr tt) v' (check_maintenance-Settled conf host v) e in
      elim (Bool-cases (str_eq value no_maintenance)) [
        | inl y ↦ inr (
            shutdown_nodes-nothing conf.shutdown host v'.nodes v'.center
              (All-map v'.nodes (λ n h. stays_up value n y h) labels))
        | inr n ↦ inl (
            start_nodes-nothing conf.shutdown.vcenters host v'.nodes v'.center
              (All-map v'.nodes (λ m h. stays_down value m n h) labels))
      ]
