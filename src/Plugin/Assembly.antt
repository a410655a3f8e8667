-- ===== src/Plugin/Assembly.antt =====
-- plugin/plugin.go: the chains that the registry builds from the operator's configuration.
use maintenance_controller.Base.{
  String, none, some, List, [], ◌∷◌, ◌⊎◌, inl, inr, Assoc, lookup, str_eq, if◌then◌else◌,
}
use maintenance_controller.Base.Text.{split, remove_all, trim_spaces}
use maintenance_controller.Errors.{Error}
use maintenance_controller.Plugin.Check.{CheckInstance, CheckChain, Evaluable}
use maintenance_controller.Plugin.Trigger.{TriggerInstance, TriggerChain}
use maintenance_controller.Plugin.Notification.{NotificationInstance, NotificationChain}
use maintenance_controller.Plugin.Registry.{Toolkit, Registry, unknown}

abbrev pub and_separator : String
and_separator = "&&"

abbrev pub or_separator : String
or_separator = "||"

unfoldable pub strip_symbols : String → List String → String
strip_symbols base [] = base
strip_symbols base (symbol ∷ symbols) = strip_symbols (remove_all base symbol) symbols

abbrev pub cons_found {ℓ} : {P : Type ℓ} → P → Error ⊎ List P → Error ⊎ List P
cons_found p (inl err) = inl err
cons_found p (inr ps) = inr (p ∷ ps)

-- The instances of the names, each trimmed, up to the first name that is unknown.
unfoldable pub find_instances {ℓ} : {P : Type ℓ} → String → Assoc P → List String → Error ⊎ List P
find_instances kind instances [] = inr []
find_instances kind instances (name ∷ names) =
    let rest = find_instances kind instances names in
    elim (lookup (trim_spaces name) instances) [
      | none ↦ inl (unknown kind name)
      | some p ↦ cons_found p rest
    ]

unfoldable pub not_empty_names : List String → List String
not_empty_names [] = []
not_empty_names (name ∷ names) =
    let rest = not_empty_names names in if str_eq name "" then rest else name ∷ rest

-- The names of the check instances in an expression.
unfoldable pub check_names : String → List String
unfolding strip_symbols not_empty_names
check_names config =
    not_empty_names
      (split (strip_symbols config (and_separator ∷ or_separator ∷ "(" ∷ ")" ∷ "!" ∷ [])) " ")

module _ {E Raw Conf : Type 0} (kit : Toolkit Raw Conf) where
  abbrev pub compiled : String → List (CheckInstance E) → Error ⊎ Evaluable → Error ⊎ CheckChain E
  compiled config plugins (inl err) = inl err
  compiled config plugins (inr eval) =
      inr (record { plugins = plugins; evaluable = some eval; expression = config })

  abbrev pub with_plugins : String → Error ⊎ List (CheckInstance E) → Error ⊎ CheckChain E
  with_plugins config (inl err) = inl err
  with_plugins config (inr plugins) = compiled config plugins (kit.compile config)

  -- Registry.NewCheckChain. The chain that an error comes with is never used.
  unfoldable pub new_check_chain : Registry E Conf → String → Error ⊎ CheckChain E
  unfolding find_instances check_names
  new_check_chain r config =
      if str_eq config ""
      then inr (record { plugins = []; evaluable = none; expression = "" })
      else with_plugins config
          (find_instances "check instance" r.check_instances (check_names config))

module _ {E : Type 0} where
  abbrev notification_chain : Error ⊎ List (NotificationInstance E) → Error ⊎ NotificationChain E
  notification_chain (inl err) = inl err
  notification_chain (inr plugins) = inr (record { plugins = plugins })

  abbrev trigger_chain : Error ⊎ List (TriggerInstance E) → Error ⊎ TriggerChain E
  trigger_chain (inl err) = inl err
  trigger_chain (inr plugins) = inr (record { plugins = plugins })

module _ {E Conf : Type 0} where
  -- Registry.NewNotificationChain
  unfoldable pub new_notification_chain : Registry E Conf → String → Error ⊎ NotificationChain E
  unfolding find_instances
  new_notification_chain r config =
      if str_eq config ""
      then inr (record { plugins = [] })
      else notification_chain (
          find_instances "notification instance" r.notification_instances
            (split config and_separator))

  -- Registry.NewTriggerChain
  unfoldable pub new_trigger_chain : Registry E Conf → String → Error ⊎ TriggerChain E
  unfolding find_instances
  new_trigger_chain r config =
      if str_eq config ""
      then inr (record { plugins = [] })
      else trigger_chain
          (find_instances "trigger instance" r.trigger_instances (split config and_separator))
