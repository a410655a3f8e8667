-- ===== src/Esx/Spared.antt =====
-- ShutdownNodes: which nodes' virtual machines are left alone.
use maintenance_controller.Base.{
  String, Bool, false, not, ◌&&◌, Option, ◌≡◌, refl, sym, ap, ◌∙◌, ◌⊎◌, inl, inr, Run, resume, pure,
  Bool-cases, if◌then◌else◌,
}
use maintenance_controller.Base.Int.{ℤ}
use maintenance_controller.Errors.{Error, try, answered, try-last, try-unanswered}
use maintenance_controller.Api.{Api}
use maintenance_controller.Drain.{ensure_schedulable, ensure_drain}
use maintenance_controller.Esx.Vcenter.{Sdk, unchanged}
use maintenance_controller.Esx.Hosts.{HostInfo}
use maintenance_controller.Esx.Power.{reboot_initiated_key, should_shutdown_node, ensure_vm_off}
use maintenance_controller.Esx.Nodes.{
  Visit, Shutdown, node_grace_period, ensure_annotation, step, on_node, in_center, shut_node,
  shutdown_node,
}

module _ {E : Type 0} {C : Type 0} (api : Api E) (conf : Shutdown) where
  -- The node is annotated, cordoned and drained, in this order; the answer is whether it is empty.
  abbrev pub emptied : Option ℤ → Run (Visit E C) (Error ⊎ Bool)
  emptied grace =
      try (step (on_node (ensure_annotation api reboot_initiated_key "true"))) unchanged (λ u.
        try (step (on_node (ensure_schedulable api false))) unchanged
          (λ u. on_node (ensure_drain api conf.force grace)))

  -- The node may be shut down, and no pod that a drain removes is left on it.
  abbrev pub is_cleared : Visit E C → Bool
  is_cleared v = should_shutdown_node v.node && answered (emptied (node_grace_period v.node) v)

module _ {E C Url : Type 0} (sdk sdk' : Sdk E C Url) (api : Api E) (conf : Shutdown)
    (host : HostInfo) where
  -- What is done once it is known whether the node is empty.
  abbrev finish : Sdk E C Url → String → Bool → Run (Visit E C) (Error ⊎ Unit {0})
  finish sdk name drained =
      if not drained
      then pure (inr tt)
      else in_center (ensure_vm_off sdk conf.vcenters host name conf.waiting)

  shut_node-emptied :
      (sdk : Sdk E C Url) (name : String) (grace : Option ℤ) (v : Visit E C)
      → shut_node sdk api conf host name grace v
        ≡ try (emptied api conf grace) unchanged (finish sdk name) v
  unfolding shut_node
  shut_node-emptied sdk name grace v =
      let drain = on_node {C = C} (ensure_drain api conf.force grace) in
      let cordon = step (on_node {C = C} (ensure_schedulable api false)) in
      let annotate = step (on_node {C = C} (ensure_annotation api reboot_initiated_key "true")) in
      ap (λ f. try annotate unchanged f v)
        (λ i u s. try-last cordon unchanged (λ u. drain) (finish sdk name) s i)
      ∙ try-last annotate unchanged (λ u. try cordon unchanged (λ u. drain)) (finish sdk name) v

  -- Unless a node may be shut down, and is drained after it has been annotated and cordoned, the loop of
  -- ShutdownNodes leaves its virtual machine alone: what it does to the node does not depend on the vCenter.
  pub shutdown_node_spares :
      (v : Visit E C)
      → is_cleared api conf v ≡ false
      → shutdown_node sdk api conf host v ≡ shutdown_node sdk' api conf host v
  unfolding shutdown_node
  shutdown_node_spares v h = elim (Bool-cases (should_shutdown_node v.node)) [
    | inl y ↦ rw y (ap (λ r. resume r (λ a. pure tt)) (same (rw y at h)))
    | inr n ↦ rw n refl
  ]
    where
      grace : Option ℤ
      grace = node_grace_period v.node

      same :
          answered (emptied api conf (node_grace_period v.node) v) ≡ false
          → shut_node sdk api conf host v.node.name (node_grace_period v.node) v
            ≡ shut_node sdk' api conf host v.node.name (node_grace_period v.node) v
      same k =
          shut_node-emptied sdk v.node.name grace v
          ∙ (try-unanswered (emptied api conf grace) unchanged (finish sdk v.node.name)
                (finish sdk' v.node.name) v refl k
              ∙ sym (shut_node-emptied sdk' v.node.name grace v))
