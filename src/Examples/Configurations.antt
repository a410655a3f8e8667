-- ===== src/Examples/Configurations.antt =====
-- A configuration that loads, and the evaluation of a node under it.
use maintenance_controller.Base.{
  ℕ, String, true, false, Option, none, some, List, [], ◌∷◌, ◌≡◌, refl, ◌⊎◌, inl, inr, lookup,
  or_else, made, Bool-cases, str_eq,
}
use maintenance_controller.Errors.{Error, message}
use maintenance_controller.Plugin.Registry.{Toolkit}
use maintenance_controller.State.Known.{HasKnownStates, HasKnownProfiles}
use maintenance_controller.Controllers.Handler.{Config, Frame}
use maintenance_controller.Controllers.Evaluate.{handle_node}
use maintenance_controller.Controllers.Configuration.{
  StateDescriptor, ProfileDescriptor, ConfigDescriptor, Plugins, load_config,
}
use maintenance_controller.Controllers.KnownConfig.{load_config-HasKnownProfiles}
use maintenance_controller.Controllers.KnownNode.{handle_node-HasKnownStates}
use maintenance_controller.Impl.Labels.{has_label, alter_label}
use maintenance_controller.Examples.Cluster.{clock, session_one}

abbrev kit : Toolkit String String
kit = record {
  wrap = λ raw. raw;
  unpack_interval = λ conf. inl (message "no interval");
  unpack_scheduled = λ conf. inl (message "no schedule");
  unpack_delay = λ conf. inl (message "no delay");
  compile = λ text. inr (λ m. inr (or_else (lookup text m) false));
}

abbrev plugins : Plugins ℕ String
plugins = record {
  checkers =
      ("hasLabel", λ conf. inr (has_label (record { key = or_else conf ""; value = "" }))) ∷ [];
  notifiers = [];
  triggers =
      (
        "alterLabel",
        λ conf. inr (alter_label (record { key = or_else conf ""; value = "yes"; remove = false })),
      )
      ∷ [];
}

abbrev idle : StateDescriptor
idle = record { enter = ""; notify = ""; transitions = [] }

abbrev kernel_descriptor : ProfileDescriptor
kernel_descriptor = record {
  name = "kernel";
  operational = record {
    enter = "";
    notify = "";
    transitions = record { check = "ready"; next = "maintenance-required"; trigger = "mark" } ∷ [];
  };
  maintenance_required = idle;
  in_maintenance = idle;
}

abbrev descriptor : ConfigDescriptor String
descriptor = record {
  requeue = 60;
  instances = record {
    check = record { name = "ready"; type = "hasLabel"; config = some "ready" } ∷ [];
    notify = [];
    trigger = record { name = "mark"; type = "alterLabel"; config = some "marked" } ∷ [];
  };
  profiles = kernel_descriptor ∷ [];
  label_filter = [];
}

abbrev no_config : Config ℕ
no_config = record { requeue_interval = 0; profiles = []; dashboard_label_filter = [] }

abbrev config_of : Error ⊎ Config ℕ → Config ℕ
config_of (inl err) = no_config
config_of (inr c) = c

abbrev config_loaded : Config ℕ
config_loaded = config_of (load_config kit plugins descriptor)

load_config-HasKnownProfiles_example : HasKnownProfiles config_loaded.profiles
unfolding load_config lookup maintenance_controller.Base.insert
    maintenance_controller.Base.Text.split maintenance_controller.Base.Text.remove_all
    maintenance_controller.Base.Text.trim_spaces
load_config-HasKnownProfiles_example =
    load_config-HasKnownProfiles kit plugins descriptor config_loaded refl

known_profiles : HasKnownProfiles config_loaded.profiles
unfolding load_config lookup maintenance_controller.Base.insert
    maintenance_controller.Base.Text.split maintenance_controller.Base.Text.remove_all
    maintenance_controller.Base.Text.trim_spaces
known_profiles = load_config-HasKnownProfiles kit plugins descriptor config_loaded refl

known_entries : HasKnownStates session_one.data_of
unfolding lookup
known_entries k = elim (Bool-cases (str_eq "kernel" k)) [
  | inl y ↦ rw y refl
  | inr n ↦ elim (Bool-cases (str_eq "reboot" k)) [
    | inl y ↦ rw (n, y) refl
    | inr m ↦ rw (n, m) refl
  ]
]

abbrev frame_loaded : Frame ℕ
frame_loaded = record { session = session_one; cache = [] }

handle_node-HasKnownStates_example :
    HasKnownStates (handle_node clock config_loaded frame_loaded).1.session.data_of
handle_node-HasKnownStates_example =
    handle_node-HasKnownStates clock config_loaded frame_loaded known_profiles known_entries
