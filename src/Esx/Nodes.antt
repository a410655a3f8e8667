-- ===== src/Esx/Nodes.antt =====
-- esx/runnable.go: what is done to one node of an ESX host.
use Prim.Native.String.{◌++◌}
use maintenance_controller.Base.{
  String, Bool, true, false, not, Option, none, some, List, [], ◌∷◌, ◌⊎◌, inr, made, entries,
  insert, get, delete, is_some, make_if_nil, Run, done, resume, pure, zoom, ◌>>=◌, ◌>>◌, str_eq,
  if◌then◌else◌,
}
use maintenance_controller.Base.Int.{ℤ, pos}
use maintenance_controller.Errors.{Error, wrapped, try, as_result}
use maintenance_controller.World.{Node, World, on_ext}
use maintenance_controller.Api.{Api}
use maintenance_controller.Drain.{ensure_schedulable, ensure_drain}
use maintenance_controller.Esx.Vcenter.{Sdk, VCenters, Center, unchanged}
use maintenance_controller.Esx.Hosts.{HostInfo}
use maintenance_controller.Esx.Inspection.{alarm_maintenance}
use maintenance_controller.Esx.Power.{
  Waiting, maintenance_label_key, reboot_initiated_key, should_shutdown_node, should_start,
  ensure_vm_off, ensure_vm_on,
}

-- A node of a host, the cache of clients, and what the calls change.
pub record Visit (E C : Type 0) : Type 0 where
  pub node : Node
  pub center : Center E C

-- Config, without the intervals of the check and the alarms
pub record Shutdown : Type 0 where
  pub vcenters : VCenters
  pub force : Bool
  pub waiting : Waiting

-- The entry differs, or is missing.
abbrev pub differs : Option String → String → Bool
differs none value = true
differs (some current) value = not (str_eq value current)

abbrev pub labelled : String → String → Node → Node
labelled key value node = record node { labels = made (insert key value (entries node.labels)) }

abbrev with_annotation : String → String → Node → Node
with_annotation key value node = record node {
  annotations = made (insert key value (entries node.annotations));
}

abbrev with_maps : Node → Node
with_maps node = record node { labels = make_if_nil node.labels }

abbrev with_annotations : Node → Node
with_annotations node = record node { annotations = make_if_nil node.annotations }

-- nodeGracePeriod
unfoldable pub node_grace_period : Node → Option ℤ
node_grace_period node = elim (get node.labels maintenance_label_key) [
  | none ↦ none
  | some maintenance ↦ if not (str_eq maintenance alarm_maintenance) then none else some (pos 0)
]

abbrev label_error : HostInfo → Node → Option Error → Option Error
label_error host node none = none
label_error host node (some err) = some (
    wrapped ("failed to patch Label for node " ++ (node.name ++ (" status on host " ++ host.name)))
      err)

module _ {E : Type 0} where
  -- The body of the loop of ensureLabel.
  unfoldable pub ensure_node_label :
      Api E → HostInfo → String → String → Node → E → (Option Error × Node) × E
  ensure_node_label api host key value node e =
      if differs (get node.labels key) value
      then (let (answer, e') = api.patch_node (labelled key value node) e in
          ((label_error host node answer, labelled key value node), e'))
      else ((none, with_maps node), e)

  abbrev pub relabelled :
      (Option Error × Node) × E
      → List Node
      → (E → (Option Error × List Node) × E)
      → (Option Error × List Node) × E
  relabelled ((some err, n), e) rest f = ((some err, n ∷ rest), e)
  relabelled ((none, n), e) rest f = let ((answer, ns), e') = f e in ((answer, n ∷ ns), e')

  -- ensureLabel: the first error ends the loop.
  unfoldable pub ensure_label :
      Api E → HostInfo → String → String → List Node → E → (Option Error × List Node) × E
  unfolding ensure_node_label
  ensure_label api host key value [] e = ((none, []), e)
  ensure_label api host key value (node ∷ nodes) e =
      relabelled (ensure_node_label api host key value node e) nodes
        (ensure_label api host key value nodes)

  -- ensureAnnotation
  unfoldable pub ensure_annotation : Api E → String → String → Run (World E) (Option Error)
  ensure_annotation api key value w =
      if differs (get w.node.annotations key) value
      then (do
        answer ← on_ext (api.patch_node (with_annotation key value w.node))
        pure (elim answer [
          | none ↦ none
          | some err ↦ some (wrapped ("failed to patch Annotation for node " ++ w.node.name) err)
        ]))
          (record w { node = with_annotation key value w.node })
      else (done none, record w { node = with_annotations w.node })

  -- deleteAnnotation
  unfoldable pub delete_annotation : Api E → String → Run (World E) (Option Error)
  delete_annotation api key w =
      if is_some (get w.node.annotations key)
      then (let n = record w.node { annotations = delete key w.node.annotations } in
          on_ext (api.patch_node n) (record w { node = n }))
      else (done none, w)

module _ {E C : Type 0} where
  abbrev pub in_center : {A : Type 0} → Run (Center E C) A → Run (Visit E C) A
  in_center = zoom (λ v. v.center) (λ s v. record v { center = s })

  abbrev world_of : Visit E C → World E
  world_of v = record { node = v.node; ext = v.center.ext }

  abbrev pub on_node : {A : Type 0} → Run (World E) A → Run (Visit E C) A
  on_node =
      zoom world_of (λ w v. record v { node = w.node; center = record v.center { ext = w.ext } })

-- A call on the node, as a step that ends at its error.
abbrev pub step : {S : Type 0} → Run S (Option Error) → Run S (Error ⊎ Unit {0})
step run s = resume (run s) (λ answer. pure (as_result answer))

module _ {E C Url : Type 0} (sdk : Sdk E C Url) (api : Api E) where
  -- The body of the loop of ShutdownNodes, for a node that should be shut down. An error is logged
  -- and ends the body, and so does a node that is not empty yet.
  unfoldable pub shut_node :
      Shutdown → HostInfo → String → Option ℤ → Run (Visit E C) (Error ⊎ Unit {0})
  unfolding ensure_annotation ensure_schedulable ensure_drain ensure_vm_off
  shut_node conf host name grace =
      try (step (on_node (ensure_annotation api reboot_initiated_key "true"))) unchanged (λ u.
        try (step (on_node (ensure_schedulable api false))) unchanged (λ u.
          try (on_node (ensure_drain api conf.force grace)) unchanged (λ drained.
            if not drained
            then pure (inr tt)
            else in_center (ensure_vm_off sdk conf.vcenters host name conf.waiting))))

  -- The body of the loop of ShutdownNodes.
  unfoldable pub shutdown_node : Shutdown → HostInfo → Run (Visit E C) (Unit {0})
  unfolding should_shutdown_node node_grace_period shut_node
  shutdown_node conf host v =
      if not (should_shutdown_node v.node)
      then (done tt, v)
      else (do shut_node conf host v.node.name (node_grace_period v.node); pure tt) v

  unfoldable pub bring_up : VCenters → HostInfo → String → Run (Visit E C) (Error ⊎ Unit {0})
  unfolding ensure_vm_on ensure_schedulable delete_annotation
  bring_up vc host name = try (in_center (ensure_vm_on sdk vc host name)) unchanged (λ u.
      try (step (on_node (ensure_schedulable api true))) unchanged
        (λ u. step (on_node (delete_annotation api reboot_initiated_key))))

  -- The body of the loop of StartNodes.
  unfoldable pub start_node : VCenters → HostInfo → Run (Visit E C) (Unit {0})
  unfolding should_start bring_up
  start_node vc host v =
      if not (should_start v.node)
      then (done tt, v)
      else (do bring_up vc host v.node.name; pure tt) v
