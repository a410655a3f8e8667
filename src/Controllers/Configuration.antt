-- ===== src/Controllers/Configuration.antt =====
-- controllers/config.go: the controller's configuration, from the descriptors that ucfg unpacks.
use maintenance_controller.Base.{ℕ, String, List, [], ◌∷◌, ◌⊎◌, inr, Assoc, insert}
use maintenance_controller.Errors.{Error}
use maintenance_controller.Plugin.Check.{Checker}
use maintenance_controller.Plugin.Trigger.{Trigger}
use maintenance_controller.Plugin.Notification.{Notifier}
use maintenance_controller.Plugin.Registry.{
  Toolkit, Maker, Registry, InstancesDescriptor, new_registry, and_then, load_instances,
}
use maintenance_controller.Plugin.Assembly.{
  new_check_chain, new_notification_chain, new_trigger_chain,
}
use maintenance_controller.State.Labels.{
  operational, required, in_maintenance, default_profile_name, validate_label,
}
use maintenance_controller.State.Profiles.{Transition, PluginChains, no_chains, Profile}
use maintenance_controller.Controllers.Handler.{Config}

pub record TransitionDescriptor : Type 0 where
  pub check : String
  pub next : String
  pub trigger : String

pub record StateDescriptor : Type 0 where
  pub enter : String
  pub notify : String
  pub transitions : List TransitionDescriptor

pub record ProfileDescriptor : Type 0 where
  pub name : String
  pub operational : StateDescriptor
  pub maintenance_required : StateDescriptor
  pub in_maintenance : StateDescriptor

pub record ConfigDescriptor (Raw : Type 0) : Type 0 where
  pub requeue : ℕ
  pub instances : InstancesDescriptor Raw
  pub profiles : List ProfileDescriptor
  -- a nil slice is the empty one
  pub label_filter : List String

-- The plugins with their ids.
pub record Plugins (E Conf : Type 0) : Type 0 where
  pub checkers : List (String × Maker Conf (Checker E))
  pub notifiers : List (String × Maker Conf (Notifier E))
  pub triggers : List (String × Maker Conf (Trigger E))

-- The loops of addPluginsToRegistry.
unfoldable pub add_plugins {ℓ} : {P : Type ℓ} → List (String × P) → Assoc P → Assoc P
add_plugins [] m = m
add_plugins ((id, p) ∷ ps) m = add_plugins ps (insert id p m)

unfoldable pub add_plugins_to_registry :
    {E Conf : Type 0} → Plugins E Conf → Registry E Conf → Registry E Conf
unfolding add_plugins
add_plugins_to_registry plugins r = record r {
  check_plugins = add_plugins plugins.checkers r.check_plugins;
  notification_plugins = add_plugins plugins.notifiers r.notification_plugins;
  trigger_plugins = add_plugins plugins.triggers r.trigger_plugins;
}

abbrev pub profile_of :
    {E : Type 0} → String → PluginChains E → PluginChains E → PluginChains E → Profile E
profile_of name o q m = record {
  name = name;
  chains = insert in_maintenance m (insert required q (insert operational o []));
}

module _ {E Raw Conf : Type 0} (kit : Toolkit Raw Conf) (r : Registry E Conf) where
  abbrev pub load_transition : TransitionDescriptor → Error ⊎ Transition E
  load_transition d = and_then (new_check_chain kit r d.check) (λ check.
      and_then (new_trigger_chain r d.trigger) (λ trigger.
        and_then (validate_label d.next)
          (λ next. inr (record { check = check; trigger = trigger; next = next }))))

  -- The loop of loadPluginChains.
  unfoldable pub load_transitions : List TransitionDescriptor → Error ⊎ List (Transition E)
  unfolding new_check_chain new_trigger_chain validate_label
  load_transitions [] = inr []
  load_transitions (d ∷ ds) =
      let rest = load_transitions ds in
      and_then (load_transition d) (λ t. and_then rest (λ ts. inr (t ∷ ts)))

  unfoldable pub load_plugin_chains : StateDescriptor → Error ⊎ PluginChains E
  unfolding load_transitions new_notification_chain new_trigger_chain
  load_plugin_chains d = and_then (new_notification_chain r d.notify) (λ notification.
      and_then (new_trigger_chain r d.enter) (λ enter.
        and_then (load_transitions d.transitions)
          (λ ts. inr (record { enter = enter; notification = notification; transitions = ts }))))

  unfoldable pub load_profile : ProfileDescriptor → Error ⊎ Profile E
  unfolding load_plugin_chains
  load_profile d = and_then (load_plugin_chains d.operational) (λ o.
      and_then (load_plugin_chains d.maintenance_required)
        (λ q. and_then (load_plugin_chains d.in_maintenance) (λ m. inr (profile_of d.name o q m))))

  unfoldable pub load_each_profile :
      List ProfileDescriptor → Assoc (Profile E) → Error ⊎ Assoc (Profile E)
  unfolding load_profile
  load_each_profile [] m = inr m
  load_each_profile (d ∷ ds) m =
      and_then (load_profile d) (λ p. load_each_profile ds (insert d.name p m))

  -- loadProfiles: an empty default profile comes first.
  unfoldable pub load_profiles : List ProfileDescriptor → Error ⊎ Assoc (Profile E)
  unfolding load_each_profile
  load_profiles ds = load_each_profile ds (
      insert default_profile_name (profile_of default_profile_name no_chains no_chains no_chains)
        [])

module _ {E Raw Conf : Type 0} (kit : Toolkit Raw Conf) (plugins : Plugins E Conf) where
  -- LoadConfig, after Unpack
  unfoldable pub load_config : ConfigDescriptor Raw → Error ⊎ Config E
  unfolding add_plugins_to_registry load_instances load_profiles
  load_config d =
      and_then (load_instances kit d.instances (add_plugins_to_registry plugins new_registry)) (λ r.
        and_then (load_profiles kit r d.profiles) (λ profiles. inr (record {
          requeue_interval = d.requeue;
          profiles = profiles;
          dashboard_label_filter = d.label_filter;
        })))
