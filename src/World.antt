-- ===== src/World.antt =====
-- What the code of the controllers works on: the node object that a reconciliation holds in
-- memory (corev1.Node, shared by pointer with every plugin), and all that lies outside of it.
use maintenance_controller.Base.{String, Bool, List, GoMap, Run, done}
use maintenance_controller.GoTime.{Time}

pub record NodeCondition : Type 0 where
  pub type : String
  pub status : String

-- The fields of corev1.Node that the program reads or writes.
pub record Node : Type 0 where
  pub name : String
  pub labels : GoMap String
  pub annotations : GoMap String
  pub unschedulable : Bool
  pub conditions : List NodeCondition
  pub finalizers : List String

-- `ext` is everything else that an operation can change: the API server, the clock, the metrics
-- registry, a mail server.
pub record World (E : Type 0) : Type 0 where
  pub node : Node
  pub ext : E

-- plugin.Parameters, without the handles that reach `World`.
pub record Parameters : Type 0 where
  pub state : String
  pub profile : String
  pub in_maintenance : Bool
  pub log_details : Bool
  pub last_transition : Time

-- time.Now().UTC(), the counters of package metrics and the recorder of events, over whatever keeps them.
pub record Platform (E : Type 0) : Type 0 where
  pub now : E → Time × E
  -- metrics.RecordTransitionFailure(profile)
  pub record_failure : String → E → E
  -- recorder.Eventf on the node with the action ChangeMaintenanceState, by its reason and note
  pub record_event : Node → String → String → E → E
  -- metrics.RecordShuffles and TouchShuffles, whose errors are logged and dropped
  pub record_shuffles : Node → String → E → E
  pub touch_shuffles : Node → String → E → E

abbrev pub on_ext : {E A : Type 0} → (E → A × E) → Run (World E) A
on_ext f w = let (a, e) = f w.ext in (done a, record w { ext = e })
