-- ===== src/Plugin/Schedules.antt =====
-- The schedulers of plugin/notification.go: when each of them lets a notification through.
use maintenance_controller.Base.{
  ℕ, Bool, false, not, ◌&&◌, ◌||◌, List, ◌≡◌, refl, ◌==◌, ◌≤◌, ◌<◌, ◌∙◌, ap, inl, inr, Bool-cases,
  ◌+◌, ltb, leb, str_eq, arith,
}
use maintenance_controller.Base.Int.{pos}
use maintenance_controller.GoTime.{
  Time, date, weekday, time_of_day, on_day_of, before, zero_time, zero_date, int64_half, sub_time,
}
use maintenance_controller.Plugin.Notification.{
  ShouldNotifyParams, scheduled_notifies, periodic_notifies, has_weekday,
}

-- The notification is due: the day of the week is among the days, the instant of that day has
-- come, and the day of the month is not that of the last notification.
abbrev pub is_due : Time → List ℕ → Time → Time → Bool
is_due instant weekdays last current =
    has_weekday weekdays (weekday current)
    && (leb (time_of_day instant) (time_of_day current)
        && not ((date last).day_of_month == (date current).day_of_month))

pub before-on_day_of :
    (instant current : Time)
    → before (on_day_of instant current) instant ≡ ltb (time_of_day current) (time_of_day instant)
before-on_day_of instant current = grind arith

-- A scheduled notification goes out exactly if the day of the week is among the days, the time of
-- the day is not before that of the instant, and the day of the month is not that of the last
-- notification. The date of the instant does not matter, nor do the months of the two times.
pub scheduled_notifies_lem :
    (instant : Time) (weekdays : List ℕ) (p : ShouldNotifyParams)
    → scheduled_notifies instant weekdays p ≡ is_due instant weekdays p.last.time p.current.time
unfolding scheduled_notifies
scheduled_notifies_lem instant weekdays p =
    rw (before-on_day_of instant p.current.time)
      (elim (Bool-cases (has_weekday weekdays (weekday p.current.time))) [
        | inl y ↦ rw y (ground arith)
        | inr n ↦ rw n refl
      ])

-- An instance that has never notified, whose last time is Go's zero time, does not notify on the
-- first day of any month, whatever its instant and its days of the week.
pub scheduled_notifies-first_of_month :
    (instant : Time) (weekdays : List ℕ) (p : ShouldNotifyParams)
    → p.last.time ≡ zero_time
    → (date p.current.time).day_of_month ≡ 1
    → scheduled_notifies instant weekdays p ≡ false
scheduled_notifies-first_of_month instant weekdays p never first =
    let same : (date p.last.time).day_of_month ≡ 1 =
      ap (λ t. (date t).day_of_month) never ∙ ap (λ d. d.day_of_month) zero_date in
    scheduled_notifies_lem instant weekdays p ∙ ground (arith, same, first)

-- A periodic notification goes out exactly if the state has changed since the last one, or the
-- interval has passed and the state is not operational. The saturation of the difference of two
-- times plays no part for an interval below its limit.
pub periodic_notifies_lem :
    (interval : ℕ) (p : ShouldNotifyParams)
    → interval < int64_half
    → p.last.time ≤ p.current.time
    → periodic_notifies (pos interval) p ≡ (
        not (str_eq p.current.state p.last.state)
        || (leb (p.last.time + interval) p.current.time && not (str_eq p.last.state "operational")))
unfolding periodic_notifies sub_time
periodic_notifies_lem interval p small ordered = ground arith
