-- ===== src/Impl/Eviction.antt =====
-- plugin/impl/eviction.go: the trigger plugin that cordons, uncordons or drains the node.
use Prim.Native.String.{◌++◌}
use maintenance_controller.Base.{
  String, Bool, true, false, Option, none, some, ◌⊎◌, inl, inr, Run, done, pure, ◌>>=◌, ◌>>◌,
  modify, str_eq, if◌then◌else◌,
}
use maintenance_controller.Errors.{Error, message, retry_error, error_text}
use maintenance_controller.World.{World}
use maintenance_controller.Api.{Api}
use maintenance_controller.Plugin.Trigger.{Trigger}
use maintenance_controller.Drain.{ensure_drain, set_unschedulable}

-- The configuration, without the timeouts, which no code reads.
pub record Eviction : Type 0 where
  pub action : String
  pub force_eviction : Bool

-- Every outcome of a drain but success asks for a retry.
abbrev pub drained : Error ⊎ Bool → Option Error
drained (inl err) = some (retry_error (error_text err))
drained (inr false) = some (retry_error "drain still in progress")
drained (inr true) = none

module _ {E : Type 0} where
  -- The case Drain: the node is marked unschedulable before the pods are looked at.
  unfoldable pub drain_node : Api E → Eviction → Run (World E) (Option Error)
  unfolding ensure_drain
  drain_node api conf = do
    modify (set_unschedulable true)
    answer ← ensure_drain api conf.force_eviction none
    pure (drained answer)

  -- Eviction.Trigger
  unfoldable pub evict : Api E → Eviction → Run (World E) (Option Error)
  unfolding drain_node
  evict api conf w =
      if str_eq conf.action "cordon"
      then (done none, set_unschedulable true w)
      else if str_eq conf.action "uncordon"
      then (done none, set_unschedulable false w)
      else if str_eq conf.action "drain"
      then drain_node api conf w
      else (done (some (message ("invalid eviction action: " ++ conf.action))), w)

  unfoldable pub eviction : Api E → Eviction → Trigger E
  unfolding evict
  eviction api conf = record { id = "eviction"; trigger = λ p. evict api conf }
