-- ===== src/Plugin/Notification.antt =====
-- plugin/notification.go: notification plugins, their chain and the three schedulers.
use Prim.Native.String.{◌++◌}
use maintenance_controller.Base.{
  ℕ, String, Bool, true, false, not, ◌&&◌, ◌||◌, Option, none, some, List, [], ◌∷◌, Run, pure,
  ◌>>=◌, str_eq, any, ◌==◌, if◌then◌else◌,
}
use maintenance_controller.Base.Int.{leb_ℤ}
use maintenance_controller.Errors.{Error, chain_error}
use maintenance_controller.GoTime.{
  Time, Duration, is_zero, after, before, sub_time, weekday, on_day_of, date,
}
use maintenance_controller.World.{World, Parameters, Platform, on_ext}

pub record NotificationData : Type 0 where
  pub state : String
  pub time : Time

pub record ShouldNotifyParams : Type 0 where
  pub current : NotificationData
  pub last : NotificationData
  pub state_change : Time

-- NotifyPeriodic, NotifyScheduled (the instant and the weekdays) and NotifyOneshot.
pub data Scheduler : Type 0 where
  notify_periodic : Duration → Scheduler
  notify_scheduled : Time → List ℕ → Scheduler
  notify_oneshot : Duration → Scheduler

-- NotifyPeriodic.ShouldNotify
unfoldable pub periodic_notifies : Duration → ShouldNotifyParams → Bool
periodic_notifies interval p =
    if not (str_eq p.current.state p.last.state)
    then true
    else leb_ℤ interval (sub_time p.current.time p.last.time)
      && not (str_eq p.last.state "operational")

abbrev pub has_weekday : List ℕ → ℕ → Bool
has_weekday days d = any (λ w. w == d) days

-- NotifyScheduled.ShouldNotify
unfoldable pub scheduled_notifies : Time → List ℕ → ShouldNotifyParams → Bool
scheduled_notifies instant weekdays p =
    if not (has_weekday weekdays (weekday p.current.time))
    then false
    else if before (on_day_of instant p.current.time) instant
    then false
    else if (date p.last.time).day_of_month == (date p.current.time).day_of_month
    then false
    else true

-- NotifyOneshot.ShouldNotify, with the time that time.Since reads
unfoldable pub oneshot_notifies : Duration → ShouldNotifyParams → Time → Bool
oneshot_notifies delay p now =
    if is_zero p.state_change
    then false
    else if after p.last.time p.state_change
    then false
    else leb_ℤ delay (sub_time now p.state_change)

module _ {E : Type 0} where
  -- Only the oneshot scheduler reads the clock itself, and not if an earlier test refuses.
  unfoldable pub should_notify : Platform E → Scheduler → ShouldNotifyParams → Run (World E) Bool
  unfolding periodic_notifies scheduled_notifies oneshot_notifies
  should_notify io (notify_periodic interval) p = pure (periodic_notifies interval p)
  should_notify io (notify_scheduled instant days) p = pure (scheduled_notifies instant days p)
  should_notify io (notify_oneshot delay) p =
      if is_zero p.state_change || after p.last.time p.state_change
      then pure false
      else do now ← on_ext io.now; pure (oneshot_notifies delay p now)

-- The interface Notifier, without New, which the registry calls.
pub record Notifier (E : Type 0) : Type 0 where
  pub id : String
  pub notify : Parameters → Run (World E) (Option Error)

pub record NotificationInstance (E : Type 0) : Type 0 where
  pub plugin : Notifier E
  -- none is the nil interface
  pub schedule : Option Scheduler
  pub name : String

pub record NotificationChain (E : Type 0) : Type 0 where
  pub plugins : List (NotificationInstance E)

abbrev pub notification_failed : String → Error → Error
notification_failed name err = chain_error ("Notification instance " ++ (name ++ " failed")) err

module _ {E : Type 0} where
  run_notifications : List (NotificationInstance E) → Parameters → Run (World E) (Option Error)
  run_notifications [] p = pure none
  run_notifications (n ∷ ns) p = do
    answer ← n.plugin.notify p
    elim answer [
      | none ↦ run_notifications ns p
      | some err ↦ pure (some (notification_failed n.name err))
    ]

  -- NotificationChain.Execute, which ignores the schedules
  unfoldable pub execute_notifications :
      NotificationChain E → Parameters → Run (World E) (Option Error)
  unfolding run_notifications
  execute_notifications chain p = run_notifications chain.plugins p
