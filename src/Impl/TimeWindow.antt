-- ===== src/Impl/TimeWindow.antt =====
-- plugin/impl/timewindow.go: the check plugin that passes within a window of time.
use maintenance_controller.Base.{
  ℕ, Bool, not, ◌&&◌, none, List, pure, ◌>>=◌, any, ◌==◌, if◌then◌else◌,
}
use maintenance_controller.GoTime.{Time, after, before, weekday, date, on_day_of}
use maintenance_controller.World.{on_ext}
use maintenance_controller.Api.{Api}
use maintenance_controller.Plugin.Check.{Checker, CheckResult, failed_with_reason}
use maintenance_controller.Plugin.Notification.{has_weekday}
use maintenance_controller.Impl.Labels.{plain, on_transition_nothing}

pub record TimeWindow : Type 0 where
  pub start : Time
  pub end : Time
  pub weekdays : List ℕ
  pub exclude : List Time

abbrev pub is_excluded : List Time → Time → Bool
is_excluded excluded current =
    any
      (λ e.
        (date e).day_of_month == (date current).day_of_month
        && (date e).month == (date current).month)
      excluded

-- TimeWindow.checkInternal
unfoldable pub check_window : TimeWindow → Time → CheckResult
check_window tw current =
    if not (has_weekday tw.weekdays (weekday current))
    then failed_with_reason "current day of week forbidden"
    else if is_excluded tw.exclude current
    then failed_with_reason "day/month forbidden"
    else plain
        (after (on_day_of tw.start current) tw.start && before (on_day_of tw.start current) tw.end)

unfoldable pub time_window : {E : Type 0} → Api E → TimeWindow → Checker E
unfolding check_window
time_window api tw = record {
  id = "timeWindow";
  check = λ p. (do now ← on_ext api.now; pure (check_window tw now, none));
  on_transition = on_transition_nothing;
}
