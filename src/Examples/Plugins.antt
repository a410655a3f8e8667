-- ===== src/Examples/Plugins.antt =====
-- The chains, the schedulers and the plugins at concrete values.
use maintenance_controller.Base.{
  ℕ, suc, ◌+◌, ◌*◌, String, Bool, true, false, not, ◌&&◌, ◌||◌, Option, none, some, List, [], ◌∷◌,
  ◌++◌, ◌≡◌, refl, ◌≤◌, ◌<◌, arith, Outcome, done, GoMap, nil_map, made, get, resume, ltb, leb,
  is_some, str_eq, inl, panicked,
}
use maintenance_controller.Base.Int.{pos}
use maintenance_controller.Errors.{Error, message}
use maintenance_controller.GoTime.{day, zero_time, weekday, time_of_day, date}
use maintenance_controller.Plugin.Check.{CheckResult, passed_with, execute_checks}
use maintenance_controller.Plugin.Chains.{visit_all, execute_checks-visits}
use maintenance_controller.Plugin.Notification.{
  ShouldNotifyParams, scheduled_notifies, periodic_notifies, has_weekday,
}
use maintenance_controller.Plugin.Schedules.{
  is_due, scheduled_notifies_lem, scheduled_notifies-first_of_month, periodic_notifies_lem,
}
use maintenance_controller.State.Data.{Codec, make_notifications, no_data}
use maintenance_controller.World.{Node}
use maintenance_controller.Impl.MissingData.{check_max_panics}
use maintenance_controller.Impl.Labels.{alter, check_key, Alteration}
use maintenance_controller.Impl.Changes.{altered, alter_lem, alter-check_key}
use maintenance_controller.Impl.MaxMaintenance.{MaxMaintenance, check_max}
use maintenance_controller.Impl.TimeWindow.{TimeWindow, is_excluded, check_window}
use maintenance_controller.Impl.Window.{check_window_passed}
use maintenance_controller.Impl.Wait.{check_wait, check_wait_exclude}
use maintenance_controller.Impl.Elapsed.{
  check_wait_passed, check_wait_exclude_returns, check_wait_exclude-check_wait,
}
use maintenance_controller.Examples.Cluster.{
  node_one, world_one, ready_chain, parameters_one, returned,
}

execute_checks-visits_example :
    (execute_checks ready_chain parameters_one world_one).1
    ≡ (visit_all ready_chain.plugins parameters_one world_one).1
execute_checks-visits_example = execute_checks-visits ready_chain parameters_one world_one

-- Thursday, 1 January 1970, at 10:00, after the zero time.
abbrev first_of_january : ShouldNotifyParams
first_of_january = record {
  current = record { state = "operational"; time = 719_528 * day + 36_000_000_000_000 };
  last = record { state = "operational"; time = zero_time };
  state_change = zero_time;
}

scheduled_notifies_lem_example :
    scheduled_notifies 32_400_000_000_000 (4 ∷ []) first_of_january
    ≡ is_due 32_400_000_000_000 (4 ∷ []) first_of_january.last.time first_of_january.current.time
scheduled_notifies_lem_example = scheduled_notifies_lem 32_400_000_000_000 (4 ∷ []) first_of_january

scheduled_notifies-first_of_month_example :
    scheduled_notifies 32_400_000_000_000 (4 ∷ []) first_of_january ≡ false
unfolding date
scheduled_notifies-first_of_month_example =
    scheduled_notifies-first_of_month 32_400_000_000_000 (4 ∷ []) first_of_january refl refl

-- The last notification was an hour ago, for the same state.
abbrev hour_later : ShouldNotifyParams
hour_later = record {
  current = record {
    state = "in-maintenance";
    time = 63_800_000_000_000_000_000 + 3_600_000_000_000;
  };
  last = record { state = "in-maintenance"; time = 63_800_000_000_000_000_000 };
  state_change = 63_800_000_000_000_000_000;
}

periodic_notifies_lem_example : periodic_notifies (pos 1_800_000_000_000) hour_later ≡ (
    not (str_eq hour_later.current.state hour_later.last.state)
    || (leb (hour_later.last.time + 1_800_000_000_000) hour_later.current.time
        && not (str_eq hour_later.last.state "operational")))
periodic_notifies_lem_example =
    periodic_notifies_lem 1_800_000_000_000 hour_later (omega arith) (omega arith)

-- From 08:00 to 17:00 on Thursdays, except on 1 May.
abbrev working_hours : TimeWindow
working_hours = record {
  start = 28_800_000_000_000;
  end = 61_200_000_000_000;
  weekdays = 4 ∷ [];
  exclude = 121 * day ∷ [];
}

check_window_passed_example : (check_window working_hours first_of_january.current.time).passed ≡ (
    has_weekday (4 ∷ []) (weekday first_of_january.current.time)
    && (not (is_excluded working_hours.exclude first_of_january.current.time)
        && (ltb 28_800_000_000_000 (time_of_day first_of_january.current.time)
            && ltb (time_of_day first_of_january.current.time) 61_200_000_000_000)))
check_window_passed_example = check_window_passed working_hours first_of_january.current.time refl

check_wait_passed_example : (check_wait (pos 60) 1000 1061 1062).passed ≡ ltb (1000 + 60) 1061
check_wait_passed_example = check_wait_passed 60 1000 1061 1062 (omega arith) (omega arith)

check_wait_exclude_returns_example :
    is_some (check_wait_exclude (pos 60) (0 ∷ 6 ∷ []) 1000 (30 * day)) ≡ true
check_wait_exclude_returns_example =
    check_wait_exclude_returns (pos 60) (0 ∷ 6 ∷ []) 1000 (30 * day)

check_wait_exclude-check_wait_example :
    check_wait_exclude (pos 60) [] 1000 (30 * day)
    ≡ some (check_wait (pos 60) 1000 (30 * day) (30 * day))
check_wait_exclude-check_wait_example = check_wait_exclude-check_wait (pos 60) 1000 (30 * day)

abbrev marking : Alteration
marking = record { key = "marked"; value = "yes"; remove = false }

abbrev marked : GoMap String
marked = made (("ready", "yes") ∷ ("marked", "yes") ∷ [])

alter_lem_example : get marked "ready" ≡ altered marking (made (("ready", "yes") ∷ [])) "ready"
unfolding alter maintenance_controller.Base.insert
alter_lem_example = alter_lem marking (made (("ready", "yes") ∷ [])) marked "ready" refl

alter-check_key_example :
    (check_key "label" (record { key = "marked"; value = "yes" }) marked).passed ≡ not false
unfolding alter maintenance_controller.Base.insert
alter-check_key_example = alter-check_key "label" marking (made (("ready", "yes") ∷ [])) marked refl

abbrev no_json : Codec
no_json = record { decode = λ text. inl (message "syntax"); encode = λ d. inl (message "syntax") }

-- At most one node of the group of the label "ready".
abbrev one_at_a_time : MaxMaintenance
one_at_a_time = record {
  max_nodes = pos 1;
  profile = "";
  group_by = "ready" ∷ [];
  skip_after = pos 0;
}

abbrev max_answer : CheckResult × Option Error
max_answer =
    returned {S = ℕ} (passed_with nil_map, none)
      (check_max no_json one_at_a_time node_one.labels 100 (node_one ∷ []), 0)

-- At most one node of the profile kernel; nodes that moved long ago do not count.
abbrev recent_only : MaxMaintenance
recent_only = record {
  max_nodes = pos 1;
  profile = "kernel";
  group_by = [];
  skip_after = pos 3_600;
}

-- A node without the profile, which does not count.
abbrev unprofiled : Node
unprofiled = record node_one { labels = nil_map }

-- The node after it has the label of the profile, and no data yet.
check_max_panics_example :
    check_max no_json recent_only node_one.labels 100 (unprofiled ∷ node_one ∷ []) ≡ panicked
unfolding maintenance_controller.Base.lookup maintenance_controller.State.Labels.contains_profile
    maintenance_controller.Base.Text.split maintenance_controller.State.Data.parse_data
check_max_panics_example =
    check_max_panics no_json recent_only node_one.labels 100 (unprofiled ∷ []) node_one []
      (make_notifications no_data) refl (λ e. cc) (refl, tt) refl refl refl
