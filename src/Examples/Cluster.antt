-- ===== src/Examples/Cluster.antt =====
-- A node with two profiles, one operational and one in maintenance.
use maintenance_controller.Base.{
  ℕ, suc, String, true, false, Option, some, List, [], ◌∷◌, inr, Assoc, lookup, or_else, nil_map,
  made, Outcome, done, panicked,
}
use maintenance_controller.World.{Node, World, Parameters, Platform}
use maintenance_controller.Plugin.Check.{CheckInstance, CheckChain}
use maintenance_controller.Plugin.Trigger.{TriggerInstance}
use maintenance_controller.State.Labels.{operational, required, in_maintenance}
use maintenance_controller.State.Data.{ProfileData, Data, Session}
use maintenance_controller.State.Profiles.{Transition, PluginChains, Profile, ProfileState, fresh}
use maintenance_controller.State.Apply.{NodeState, is_operational}
use maintenance_controller.Impl.Labels.{has_label, alter_label}

-- The world outside is a clock that advances with each reading.
abbrev pub clock : Platform ℕ
clock = record {
  now = λ e. (e, suc e);
  record_failure = λ profile e. e;
  record_event = λ node reason note e. e;
  record_shuffles = λ node profile e. e;
  touch_shuffles = λ node profile e. e;
}

abbrev pub node_one : Node
node_one = record {
  name = "one";
  labels = made (("cloud.sap/maintenance-profile", "kernel--reboot") ∷ ("ready", "yes") ∷ []);
  annotations = nil_map;
  unschedulable = false;
  conditions = [];
  finalizers = [];
}

abbrev pub world_one : World ℕ
world_one = record { node = node_one; ext = 100 }

abbrev pub ready_check : CheckInstance ℕ
ready_check = record { plugin = has_label (record { key = "ready"; value = "" }); name = "ready" }

abbrev pub ready_chain : CheckChain ℕ
ready_chain = record {
  plugins = ready_check ∷ [];
  evaluable = some (λ m. inr (or_else (lookup "ready" m) false));
  expression = "ready";
}

abbrev pub mark : TriggerInstance ℕ
mark = record {
  plugin = alter_label (record { key = "marked"; value = "yes"; remove = false });
  name = "mark";
}

abbrev pub to_state : String → Transition ℕ
to_state next = record {
  check = ready_chain;
  trigger = record { plugins = mark ∷ [] };
  next = next;
}

abbrev pub chains_to : String → PluginChains ℕ
chains_to next = record {
  enter = record { plugins = [] };
  notification = record { plugins = [] };
  transitions = to_state next ∷ [];
}

abbrev pub kernel : Profile ℕ
kernel = record { name = "kernel"; chains = (operational, chains_to required) ∷ [] }

abbrev pub reboot : Profile ℕ
reboot = record { name = "reboot"; chains = (in_maintenance, chains_to operational) ∷ [] }

abbrev pub available : Assoc (Profile ℕ)
available = ("kernel", kernel) ∷ ("reboot", reboot) ∷ []

abbrev pub reboot_data : ProfileData
reboot_data = record { transition = 7; current = in_maintenance; previous = in_maintenance }

abbrev pub entries_one : Assoc (Option ProfileData)
entries_one = ("kernel", some (fresh 5)) ∷ ("reboot", some reboot_data) ∷ []

abbrev pub data_one : Data
data_one = record { profiles = made entries_one; notifications = made [] }

abbrev pub session_one : Session ℕ
session_one = record { data_of = data_one; world = world_one }

abbrev pub states_one : List (ProfileState ℕ)
states_one =
    record { profile = kernel; state = operational }
    ∷ record { profile = reboot; state = in_maintenance }
    ∷ []

abbrev pub parameters_one : Parameters
parameters_one = record {
  state = operational;
  profile = "kernel";
  in_maintenance = true;
  log_details = false;
  last_transition = 5;
}

-- An operational profile whose one transition goes to `next`.
abbrev pub state_to : String → NodeState ℕ
state_to next = is_operational (chains_to next)

-- What a run that does not panic returns.
abbrev pub returned : {A S : Type 0} → A → Outcome A × S → A
returned default (done a, s) = a
returned default (panicked, s) = default
