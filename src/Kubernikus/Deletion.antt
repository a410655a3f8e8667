-- ===== src/Kubernikus/Deletion.antt =====
-- The deletion of a node's virtual machine: which nodes are spared.
use maintenance_controller.Base.{
  String, Bool, false, ◌&&◌, none, ◌≡◌, refl, sym, ap, ◌∙◌, ◌⊎◌, inl, inr, Run, pure, ◌>>=◌,
  Bool-cases,
}
use Prim.Native.String.{◌++◌}
use maintenance_controller.Errors.{
  try-renamed, Error, wrapped, try, as_result, answered, try-last, try-unanswered,
}
use maintenance_controller.World.{World}
use maintenance_controller.Api.{Api}
use maintenance_controller.Drain.{ensure_schedulable, ensure_drain}
use maintenance_controller.Kubernikus.{
  Cloud, KubernikusConfig, wanted, finish_deletion, delete_node, delete_if_requested,
}

module _ {E : Type 0} (api : Api E) where
  abbrev cordon : Run (World E) (Error ⊎ Unit {0})
  cordon = do answer ← ensure_schedulable api false; pure (as_result answer)

module _ {E : Type 0} (api : Api E) (force : Bool) where
  -- The node is cordoned and drained; the answer is whether it is empty.
  abbrev pub emptied : String → Run (World E) (Error ⊎ Bool)
  emptied name = try (cordon api) (wrapped ("failed to cordon node " ++ name)) (λ u.
      try (ensure_drain api force none) (wrapped ("failed to drain node " ++ name))
        (λ b. pure (inr b)))

  -- The deletion is requested, and no pod that a drain removes is left on the node.
  abbrev pub is_cleared : World E → Bool
  is_cleared w = wanted w.node && answered (emptied w.node.name w)

module _ {E V P K : Type 0} (cloud cloud' : Cloud E V P K) (api : Api E)
    (conf : KubernikusConfig) where
  delete_node-emptied :
      (cloud : Cloud E V P K) (name : String) (w : World E)
      → delete_node cloud api conf.force name conf.cloud_provider_secret w
        ≡ try
            (emptied api conf.force name)
            (λ err. err)
            (finish_deletion cloud name conf.cloud_provider_secret)
            w
  unfolding delete_node
  delete_node-emptied cloud name w =
      let finish = finish_deletion cloud name conf.cloud_provider_secret in
      let drained = wrapped ("failed to drain node " ++ name) in
      ap (λ f. try (cordon api) (wrapped ("failed to cordon node " ++ name)) f w)
        (λ i u s. try-renamed (ensure_drain api conf.force none) drained finish s i)
      ∙ try-last (cordon api) (wrapped ("failed to cordon node " ++ name))
          (λ u. try (ensure_drain api conf.force none) drained (λ b. pure (inr b))) finish w

  -- Unless the label of a node requests its deletion, and the node is drained after it has been cordoned,
  -- its virtual machine is left alone: what is done to the node does not depend on the cloud.
  pub delete_if_requested_spares :
      (w : World E)
      → is_cleared api conf.force w ≡ false
      → delete_if_requested cloud api conf w ≡ delete_if_requested cloud' api conf w
  unfolding delete_if_requested
  delete_if_requested_spares w h = elim (Bool-cases (wanted w.node)) [
    | inl y ↦ rw y (
        delete_node-emptied cloud w.node.name w
        ∙ (try-unanswered (emptied api conf.force w.node.name) (λ err. err)
              (finish_deletion cloud w.node.name conf.cloud_provider_secret)
              (finish_deletion cloud' w.node.name conf.cloud_provider_secret) w refl (rw y at h)
            ∙ sym (delete_node-emptied cloud' w.node.name w)))
    | inr n ↦ rw n refl
  ]
