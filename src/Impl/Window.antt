-- ===== src/Impl/Window.antt =====
-- timeWindow: when the check passes.
use maintenance_controller.Base.{not, ◌&&◌, ◌≡◌, refl, ltb, arith, Bool-cases, inl, inr}
use maintenance_controller.GoTime.{Time, weekday, time_of_day, day_number}
use maintenance_controller.Plugin.Notification.{has_weekday}
use maintenance_controller.Impl.TimeWindow.{TimeWindow, is_excluded, check_window}

-- Within a window whose two instants are of one day, the check passes exactly if the day of the
-- week is allowed, the day of the year is not excluded, and the time of the day is strictly
-- between the two instants: the first and the last moment of the window are outside of it.
pub check_window_passed :
    (tw : TimeWindow) (current : Time)
    → day_number tw.start ≡ day_number tw.end
    → (check_window tw current).passed ≡ (
        has_weekday tw.weekdays (weekday current)
        && (not (is_excluded tw.exclude current)
            && (ltb (time_of_day tw.start) (time_of_day current)
                && ltb (time_of_day current) (time_of_day tw.end))))
unfolding check_window
check_window_passed tw current same =
    elim (Bool-cases (has_weekday tw.weekdays (weekday current))) [
      | inr n ↦ rw n refl
      | inl y ↦ elim (Bool-cases (is_excluded tw.exclude current)) [
        | inl x ↦ rw (y, x) refl
        | inr n ↦ rw (y, n) (grind arith)
      ]
    ]
