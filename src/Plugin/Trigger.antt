-- ===== src/Plugin/Trigger.antt =====
-- plugin/trigger.go: trigger plugins and their chain.
use Prim.Native.String.{◌++◌}
use maintenance_controller.Base.{String, Option, none, some, List, [], ◌∷◌, Run, pure, ◌>>=◌}
use maintenance_controller.Errors.{Error, chain_error}
use maintenance_controller.World.{World, Parameters}

-- The interface Trigger, without New, which the registry calls.
pub record Trigger (E : Type 0) : Type 0 where
  pub id : String
  pub trigger : Parameters → Run (World E) (Option Error)

pub record TriggerInstance (E : Type 0) : Type 0 where
  pub plugin : Trigger E
  pub name : String

pub record TriggerChain (E : Type 0) : Type 0 where
  pub plugins : List (TriggerInstance E)

abbrev pub trigger_failed : String → Error → Error
trigger_failed name err = chain_error ("Trigger instance " ++ (name ++ " failed")) err

module _ {E : Type 0} where
  unfoldable pub run_triggers : List (TriggerInstance E) → Parameters → Run (World E) (Option Error)
  run_triggers [] p = pure none
  run_triggers (t ∷ ts) p = do
    answer ← t.plugin.trigger p
    elim answer [ none ↦ run_triggers ts p | some err ↦ pure (some (trigger_failed t.name err)) ]

  -- TriggerChain.Execute
  unfoldable pub execute_triggers : TriggerChain E → Parameters → Run (World E) (Option Error)
  unfolding run_triggers
  execute_triggers chain p = run_triggers chain.plugins p
