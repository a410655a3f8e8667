-- ===== src/Esx/Inspection.antt =====
-- esx/check.go: what a vCenter says of an ESX host.
use Prim.Native.String.{◌++◌}
use maintenance_controller.Base.{
  String, Bool, ◌&&◌, Option, none, some, List, [], ◌∷◌, ◌⊎◌, inl, inr, Run, done, length, pure,
  str_eq, if◌then◌else◌,
}
use maintenance_controller.Base.Text.{decimal}
use maintenance_controller.Errors.{Error, message, wrapped, try}
use maintenance_controller.Esx.Vcenter.{
  Sdk, VCenters, Center, HostSystem, TaskInfo, TaskState, running, queued, success, error, client,
  call, unchanged,
}
use maintenance_controller.Esx.Hosts.{HostInfo}

-- The values of Maintenance.
abbrev pub no_maintenance : String
no_maintenance = "false"

abbrev pub esx_in_maintenance : String
esx_in_maintenance = "true"

abbrev pub alarm_maintenance : String
alarm_maintenance = "alarm"

abbrev pub is_running : TaskState → Bool
is_running queued = Bool.false
is_running running = Bool.true
is_running success = Bool.false
is_running error = Bool.false

abbrev pub enters_maintenance : TaskInfo → Bool
enters_maintenance task = str_eq task.name "EnterMaintenanceMode_Task" && is_running task.state

-- The loop over the recent tasks.
unfoldable pub maintenance_of_tasks : List TaskInfo → String
maintenance_of_tasks [] = no_maintenance
maintenance_of_tasks (task ∷ tasks) =
    let rest = maintenance_of_tasks tasks in
    if enters_maintenance task then esx_in_maintenance else rest

module _ {E C Url : Type 0} (sdk : Sdk E C Url) where
  abbrev one_host : List HostSystem → Error ⊎ HostSystem
  one_host [] =
      inl (message ("expected to retrieve 1 esx host from vCenter, but got " ++ decimal 0))
  one_host (h ∷ []) = inr h
  one_host (h ∷ (i ∷ hs)) = inl (
      message (
        "expected to retrieve 1 esx host from vCenter, but got "
        ++ decimal (length (h ∷ (i ∷ hs)))))

  unfoldable pub fetch_host : C → String → List String → Run (Center E C) (Error ⊎ HostSystem)
  fetch_host c hostname filter =
      try (call (sdk.create_view c ("HostSystem" ∷ []))) (wrapped "failed to create container view")
        (λ v.
          try (call (sdk.retrieve_hosts c v filter hostname))
            (wrapped ("failed to fetch runtime information for esx host " ++ hostname))
            (λ hosts s. (done (one_host hosts), s)))

  unfoldable pub check_tasks : C → String → List String → Run (Center E C) (Error ⊎ String)
  unfolding maintenance_of_tasks
  check_tasks c hostname [] = pure (inr no_maintenance)
  check_tasks c hostname (t ∷ ts) =
      try (call (sdk.retrieve_tasks c (t ∷ ts)))
        (wrapped ("failed to fetch recent task information for esx host " ++ hostname))
        (λ tasks. pure (inr (maintenance_of_tasks tasks)))

  -- CheckForMaintenance; UnknownMaintenance is returned with every error.
  unfoldable pub check_for_maintenance : VCenters → HostInfo → Run (Center E C) (Error ⊎ String)
  unfolding client fetch_host check_tasks
  check_for_maintenance vc host =
      try (client sdk vc host.availability_zone)
        (wrapped "failed to check for esx host maintenance state")
        (λ c. try (fetch_host c host.name ("runtime" ∷ ("recentTask" ∷ []))) unchanged (λ h.
          if h.in_maintenance_mode
          then pure (inr esx_in_maintenance)
          else check_tasks c host.name h.recent_task))

  abbrev version_of : String → Option String → Error ⊎ String
  version_of hostname none =
      inl (message ("host config information returned by ESX " ++ (hostname ++ " is incomplete")))
  version_of hostname (some v) = inr v

  -- FetchVersion
  unfoldable pub fetch_version : VCenters → HostInfo → Run (Center E C) (Error ⊎ String)
  unfolding client fetch_host
  fetch_version vc host = try (client sdk vc host.availability_zone) unchanged (λ c.
      try (fetch_host c host.name ("config.product" ∷ [])) unchanged
        (λ h s. (done (version_of host.name h.version), s)))

  unfoldable pub name_alarms : C → List String → Run (Center E C) (Error ⊎ List String)
  name_alarms c [] = pure (inr [])
  name_alarms c (a ∷ as') =
      try (call (sdk.retrieve_alarms c (a ∷ as'))) unchanged (λ names. pure (inr names))

  -- CheckAlarms
  unfoldable pub check_alarms : VCenters → HostInfo → Run (Center E C) (Error ⊎ List String)
  unfolding client fetch_host name_alarms
  check_alarms vc host = try (client sdk vc host.availability_zone) unchanged (λ c.
      try (fetch_host c host.name ("triggeredAlarmState" ∷ [])) unchanged
        (λ h. name_alarms c h.triggered_alarms))
