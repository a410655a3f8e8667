-- ===== src/Plugin/Registry.antt =====
-- plugin/plugin.go and the constructors of plugin/notification.go: the registry of plugins, and the
-- chains that it builds from the operator's configuration.
use Prim.Native.String.{◌++◌}
use maintenance_controller.Base.{
  ℕ, String, Option, none, some, List, [], ◌∷◌, ◌⊎◌, inl, inr, Assoc, lookup, insert, if◌then◌else◌,
}
use maintenance_controller.Base.Letters.{lowers_to, parse_clock}
use maintenance_controller.Errors.{Error, message}
use maintenance_controller.GoTime.{Time, Duration}
use maintenance_controller.Weekday.{weekdays_from_strings}
use maintenance_controller.Plugin.Check.{Checker, CheckInstance, Evaluable}
use maintenance_controller.Plugin.Trigger.{Trigger, TriggerInstance}
use maintenance_controller.Plugin.Notification.{
  Notifier, NotificationInstance, Scheduler, notify_periodic, notify_scheduled, notify_oneshot,
}

-- What the program calls of ucfgwrap and gval. `Raw` is a part of a configuration, `Conf` one that
-- was wrapped with the options of the whole.
pub record Toolkit (Raw Conf : Type 0) : Type 0 where
  -- config.Wrap
  pub wrap : Raw → Conf
  -- config.Unpack into the structs of the three schedulers, whose defaults it keeps
  pub unpack_interval : Conf → Error ⊎ Duration
  pub unpack_scheduled : Conf → Error ⊎ (String × List String)
  pub unpack_delay : Conf → Error ⊎ Duration
  -- gval.Full().NewEvaluable
  pub compile : String → Error ⊎ Evaluable

-- The New method of a plugin.
abbrev pub Maker : Type 0 → Type 0 → Type 0
Maker Conf P = Option Conf → Error ⊎ P

pub record Registry (E Conf : Type 0) : Type 0 where
  pub notification_instances : Assoc (NotificationInstance E)
  pub notification_plugins : Assoc (Maker Conf (Notifier E))
  pub check_instances : Assoc (CheckInstance E)
  pub check_plugins : Assoc (Maker Conf (Checker E))
  pub trigger_instances : Assoc (TriggerInstance E)
  pub trigger_plugins : Assoc (Maker Conf (Trigger E))

abbrev pub new_registry : {E Conf : Type 0} → Registry E Conf
new_registry = record {
  notification_instances = [];
  notification_plugins = [];
  check_instances = [];
  check_plugins = [];
  trigger_instances = [];
  trigger_plugins = [];
}

pub record InstanceDescriptor (Raw : Type 0) : Type 0 where
  pub name : String
  pub type : String
  pub config : Option Raw

pub record ScheduleDescriptor (Raw : Type 0) : Type 0 where
  pub type : String
  pub config : Option Raw

pub record NotificationDescriptor (Raw : Type 0) : Type 0 where
  pub name : String
  pub type : String
  pub schedule : ScheduleDescriptor Raw
  pub config : Option Raw

pub record InstancesDescriptor (Raw : Type 0) : Type 0 where
  pub check : List (InstanceDescriptor Raw)
  pub notify : List (NotificationDescriptor Raw)
  pub trigger : List (InstanceDescriptor Raw)

abbrev pub unknown : String → String → Error
unknown kind name =
    message ("the requested " ++ (kind ++ (" \"" ++ (name ++ "\" is not known to the registry"))))

abbrev periodic : Error ⊎ Duration → Error ⊎ Scheduler
periodic (inl err) = inl err
periodic (inr interval) = inr (notify_periodic interval)

abbrev oneshot : Error ⊎ Duration → Error ⊎ Scheduler
oneshot (inl err) = inl err
oneshot (inr delay) = inr (notify_oneshot delay)

abbrev on_weekdays : Time → Error ⊎ List ℕ → Error ⊎ Scheduler
on_weekdays instant (inl err) = inl err
on_weekdays instant (inr days) = inr (notify_scheduled instant days)

-- newNotifyScheduled, after Unpack. The texts of the errors of time.Parse are not kept.
unfoldable pub new_notify_scheduled : String → List String → Error ⊎ Scheduler
unfolding weekdays_from_strings
new_notify_scheduled instant [] =
    inl (message "a notification schedule needs to have weekdays specified")
new_notify_scheduled instant (day ∷ days) = elim (parse_clock instant) [
  | none ↦ inl (message ("cannot parse " ++ instant))
  | some t ↦ on_weekdays t (weekdays_from_strings (day ∷ days))
]

abbrev scheduled : Error ⊎ (String × List String) → Error ⊎ Scheduler
scheduled (inl err) = inl err
scheduled (inr (instant, days)) = new_notify_scheduled instant days

module _ {Raw Conf : Type 0} (kit : Toolkit Raw Conf) where
  -- wrapConfig
  unfoldable pub wrap_config : Option Raw → Option Conf
  wrap_config none = none
  wrap_config (some raw) = some (kit.wrap raw)

  -- The switch over the lower-case type of the schedule.
  unfoldable pub new_schedule : String → Conf → Error ⊎ Scheduler
  unfolding new_notify_scheduled
  new_schedule type conf =
      if lowers_to type "periodic"
      then periodic (kit.unpack_interval conf)
      else if lowers_to type "scheduled"
      then scheduled (kit.unpack_scheduled conf)
      else if lowers_to type "oneshot"
      then oneshot (kit.unpack_delay conf)
      else inl (message ("notification scheduler with name " ++ (type ++ " is unknown")))

module _ {E Raw Conf : Type 0} (kit : Toolkit Raw Conf) where
  abbrev put_check_instance : String → Registry E Conf → Error ⊎ Checker E → Error ⊎ Registry E Conf
  put_check_instance name r (inl err) = inl err
  put_check_instance name r (inr p) = inr (record r {
    check_instances = insert name (record { plugin = p; name = name }) r.check_instances;
  })

  unfoldable pub load_check_instance :
      InstanceDescriptor Raw → Registry E Conf → Error ⊎ Registry E Conf
  unfolding wrap_config
  load_check_instance d r = elim (lookup d.type r.check_plugins) [
    | none ↦ inl (unknown "check plugin type" d.type)
    | some make ↦ put_check_instance d.name r (make (wrap_config kit d.config))
  ]

  abbrev put_trigger_instance :
      String → Registry E Conf → Error ⊎ Trigger E → Error ⊎ Registry E Conf
  put_trigger_instance name r (inl err) = inl err
  put_trigger_instance name r (inr p) = inr (record r {
    trigger_instances = insert name (record { plugin = p; name = name }) r.trigger_instances;
  })

  unfoldable pub load_trigger_instance :
      InstanceDescriptor Raw → Registry E Conf → Error ⊎ Registry E Conf
  unfolding wrap_config
  load_trigger_instance d r = elim (lookup d.type r.trigger_plugins) [
    | none ↦ inl (unknown "trigger plugin type" d.type)
    | some make ↦ put_trigger_instance d.name r (make (wrap_config kit d.config))
  ]

  abbrev put_notification_instance :
      String → Notifier E → Registry E Conf → Error ⊎ Scheduler → Error ⊎ Registry E Conf
  put_notification_instance name p r (inl err) = inl err
  put_notification_instance name p r (inr schedule) = inr (record r {
    notification_instances =
        insert name (record { plugin = p; schedule = some schedule; name = name })
          r.notification_instances;
  })

  abbrev scheduled_instance :
      NotificationDescriptor Raw → Registry E Conf → Error ⊎ Notifier E → Error ⊎ Registry E Conf
  scheduled_instance d r (inl err) = inl err
  scheduled_instance d r (inr p) = elim d.schedule.config [
    | none ↦ inl (message "a notification instance does not have a schedule assigned")
    | some raw ↦
        put_notification_instance d.name p r (new_schedule kit d.schedule.type (kit.wrap raw))
  ]

  unfoldable pub load_notification_instance :
      NotificationDescriptor Raw → Registry E Conf → Error ⊎ Registry E Conf
  unfolding wrap_config new_schedule
  load_notification_instance d r = elim (lookup d.type r.notification_plugins) [
    | none ↦ inl (unknown "notification plugin type" d.type)
    | some make ↦ scheduled_instance d r (make (wrap_config kit d.config))
  ]

abbrev pub and_then {ℓ κ} : {A : Type ℓ} {B : Type κ} → Error ⊎ A → (A → Error ⊎ B) → Error ⊎ B
and_then (inl err) f = inl err
and_then (inr a) f = f a

-- A loop over descriptors, which ends at the first error.
unfoldable pub load_each {ℓ} : {D R : Type ℓ} → (D → R → Error ⊎ R) → List D → R → Error ⊎ R
load_each load [] r = inr r
load_each load (d ∷ ds) r = and_then (load d r) (load_each load ds)

module _ {E Raw Conf : Type 0} (kit : Toolkit Raw Conf) where
  -- Registry.LoadInstances
  unfoldable pub load_instances :
      InstancesDescriptor Raw → Registry E Conf → Error ⊎ Registry E Conf
  unfolding load_each load_check_instance load_notification_instance load_trigger_instance
  load_instances d r = and_then (load_each (load_check_instance kit) d.check r) (λ s.
      and_then (load_each (load_notification_instance kit) d.notify s)
        (load_each (load_trigger_instance kit) d.trigger))
