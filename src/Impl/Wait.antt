-- ===== src/Impl/Wait.antt =====
-- plugin/impl/wait.go: the check plugins that wait, with and without excluded days of the week.
use maintenance_controller.Base.{
  ℕ, zero, suc, ◌+◌, ◌-◌, ◌/◌, Bool, not, ◌&&◌, Option, none, some, List, [], ◌∷◌, pure, ◌>>=◌,
  made, nil_map, if◌then◌else◌,
}
use maintenance_controller.Base.Int.{pos, ◌-ℤ◌, ltb_ℤ}
use maintenance_controller.GoTime.{
  Time, Duration, day, after, sub_time, wrap_int64, weekday, date, same_date, clock_of_day,
}
use maintenance_controller.World.{on_ext}
use maintenance_controller.Api.{Api}
use maintenance_controller.Plugin.Check.{
  Checker, CheckResult, nanoseconds_info, passed_with, failed_with,
}
use maintenance_controller.Plugin.Notification.{has_weekday}
use maintenance_controller.Impl.Labels.{on_transition_nothing}

-- The end of both checks. Seconds are shown by the nanoseconds that they are made of.
abbrev pub wait_result : Duration → Duration → Duration → CheckResult
wait_result duration since remaining =
    if ltb_ℤ duration since
    then passed_with nil_map
    else failed_with (made (("remaining_seconds", nanoseconds_info (remaining ∷ [])) ∷ []))

-- Wait.Check, at the times that its calls of time.Since read; the second is read on failure only.
unfoldable pub check_wait : Duration → Time → Time → Time → CheckResult
check_wait duration last_transition now again =
    wait_result duration (sub_time now last_transition)
      (wrap_int64 (duration -ℤ sub_time again last_transition))

unfoldable pub wait : {E : Type 0} → Api E → Duration → Checker E
unfolding check_wait
wait api duration = record {
  id = "wait";
  check = λ p. (do
    now ← on_ext api.now
    again ← (if ltb_ℤ duration (sub_time now p.last_transition) then pure now else on_ext api.now)
    pure (check_wait duration p.last_transition now again, none));
  on_transition = on_transition_nothing;
}

abbrev pub is_same_day : Time → Time → Bool
is_same_day t u = same_date (date t) (date u)

-- The length of an excluded day that counts: on the day of the transition, what was left of it.
unfoldable pub excluded_part : Time → Time → Duration
excluded_part last_transition timestamp =
    if is_same_day timestamp last_transition
    then pos (day - clock_of_day last_transition)
    else pos day

-- The loop of checkInternal, on fuel: it ends once `timestamp` is after `now`.
unfoldable pub subtract_days : ℕ → List ℕ → Time → Time → Time → Duration → Option Duration
subtract_days zero exclude last_transition now timestamp since = none
subtract_days (suc fuel) exclude last_transition now timestamp since =
    let rest = subtract_days fuel exclude last_transition now (timestamp + day) (
      if has_weekday exclude (weekday timestamp)
      then wrap_int64 (since -ℤ excluded_part last_transition timestamp)
      else since) in
    if after timestamp now then some since else rest

-- Enough rounds: one for each day from the transition to now, and the one that ends the loop.
abbrev pub rounds : Time → Time → ℕ
rounds last_transition now = suc (suc ((now - last_transition) / day))

-- The excluded part of today, unless the loop has counted it.
unfoldable pub subtract_today : List ℕ → Time → Time → Duration → Duration
subtract_today exclude last_transition now since =
    if not (is_same_day last_transition now) && has_weekday exclude (weekday now)
    then wrap_int64 (since -ℤ pos (clock_of_day now))
    else since

-- WaitExclude.checkInternal
unfoldable pub check_wait_exclude : Duration → List ℕ → Time → Time → Option CheckResult
check_wait_exclude duration exclude last_transition now =
    elim (subtract_days (rounds last_transition now) exclude last_transition now last_transition
      (sub_time now last_transition)) [
        | none ↦ none
        | some counted ↦
            (let since = subtract_today exclude last_transition now counted in
              some (wait_result duration since (wrap_int64 (duration -ℤ since))))
      ]
