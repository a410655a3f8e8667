-- ===== src/State/Notify.antt =====
-- state/state.go: notifyDefault, which runs the notifications of a state as their schedules ask.
use Prim.Native.String.{◌++◌}
use maintenance_controller.Base.{
  String, true, false, Option, none, some, List, [], ◌∷◌, get, put, or_else, Run, pure, ◌>>=◌, ◌>>◌,
  gets,
}
use maintenance_controller.Errors.{Error, message}
use maintenance_controller.GoTime.{Time, zero_time}
use maintenance_controller.World.{Parameters, Platform, on_ext}
use maintenance_controller.Plugin.Notification.{
  Scheduler, ShouldNotifyParams, should_notify, NotificationInstance, NotificationChain,
}
use maintenance_controller.State.Data.{ProfileData, Session, profile_entry, in_world, stored}

module _ {E : Type 0} where
  -- data.Notifications[name] = t
  unfoldable pub set_notified : String → Time → Run (Session E) (Unit {0})
  set_notified name t s =
      stored (λ m. record s.data_of { notifications = m }) (put name t s.data_of.notifications) s

  -- A first sight of the instance stores the zero time.
  unfoldable pub init_notified : String → Run (Session E) (Unit {0})
  unfolding set_notified
  init_notified name s = elim (get s.data_of.notifications name) [
    | some t ↦ pure tt s
    | none ↦ set_notified name zero_time s
  ]

  abbrev pub notify_params : Session E → String → ProfileData → Time → ShouldNotifyParams
  notify_params s name d now = record {
    current = record { state = d.current; time = now };
    last = record {
      state = d.previous;
      time = or_else (get s.data_of.notifications name) zero_time;
    };
    state_change = d.transition;
  }

  -- The answer of the plugin; the time is stored only after a success.
  unfoldable pub after_notify : String → Time → Option Error → Run (Session E) (Option Error)
  after_notify name now (some err) = pure (some err)
  after_notify name now none = do set_notified name now; pure none

  unfoldable pub notify_scheduled_instance :
      Platform E
      → Parameters
      → NotificationInstance E
      → Scheduler
      → ProfileData
      → Time
      → Run (Session E) (Option Error)
  unfolding after_notify
  notify_scheduled_instance io p n schedule d now = do
    due ← λ s. in_world (should_notify io schedule (notify_params s n.name d now)) s
    elim due [
      | false ↦ pure none
      | true ↦ (do answer ← in_world (n.plugin.notify p); after_notify n.name now answer)
    ]

  unfoldable pub notify_profile :
      Platform E
      → Parameters
      → NotificationInstance E
      → Scheduler
      → Option (Option ProfileData)
      → Time
      → Run (Session E) (Option Error)
  unfolding notify_scheduled_instance
  notify_profile io p n schedule none now = pure (
      some (
        message (
          "cannot determine state of profile "
          ++ (p.profile
              ++ " because state data does not contain information regarding that profile"))))
  notify_profile io p n schedule (some none) now = pure (
      some (
        message (
          "cannot determine state of profile "
          ++ (p.profile ++ " because state data for it is nil"))))
  notify_profile io p n schedule (some (some d)) now =
      notify_scheduled_instance io p n schedule d now

  -- The body of the loop.
  unfoldable pub notify_instance :
      Platform E
      → Parameters
      → NotificationInstance E
      → Option Scheduler
      → Run (Session E) (Option Error)
  unfolding init_notified notify_profile
  notify_instance io p n none =
      pure (
        some (message ("notification plugin instance " ++ (n.name ++ " has no schedule assigned"))))
  notify_instance io p n (some schedule) = do
    init_notified n.name
    now ← in_world (on_ext io.now)
    entry ← gets (λ s. profile_entry s.data_of p.profile)
    notify_profile io p n schedule entry now

  unfoldable pub notify_instances :
      Platform E → Parameters → List (NotificationInstance E) → Run (Session E) (Option Error)
  notify_instances io p [] = pure none
  notify_instances io p (n ∷ ns) = do
    answer ← notify_instance io p n n.schedule
    elim answer [ none ↦ notify_instances io p ns | some err ↦ pure (some err) ]

  -- notifyDefault
  unfoldable pub notify_default :
      Platform E → Parameters → NotificationChain E → Run (Session E) (Option Error)
  notify_default io p chain = notify_instances io p chain.plugins
