-- ===== src/Esx/Power.antt =====
-- esx/shutdown.go and esx/start.go: shutting a virtual machine off, and starting it.
use Prim.Native.String.{◌++◌}
use maintenance_controller.Base.{
  ℕ, zero, suc, String, Bool, true, false, not, ◌&&◌, ◌||◌, Option, none, some, List, [], ◌∷◌, ◌⊎◌,
  inl, inr, get, or_else, Run, resume, pure, length, str_eq, ◌==◌, if◌then◌else◌,
}
use maintenance_controller.Errors.{Error, message, wrapped, try}
use maintenance_controller.GoTime.{Duration}
use maintenance_controller.World.{Node}
use maintenance_controller.Esx.Vcenter.{
  Sdk, VCenters, Center, VirtualMachine, PowerState, powered_on, powered_off, suspended, TaskState,
  queued, running, success, error, client, call, retrieve_vm,
}
use maintenance_controller.Esx.Hosts.{HostInfo, Host}
use maintenance_controller.Esx.Inspection.{no_maintenance, esx_in_maintenance, alarm_maintenance}

abbrev pub maintenance_label_key : String
maintenance_label_key = "cloud.sap/esx-in-maintenance"

abbrev pub reboot_ok_label_key : String
reboot_ok_label_key = "cloud.sap/esx-reboot-ok"

abbrev pub reboot_initiated_key : String
reboot_initiated_key = "cloud.sap/esx-reboot-initiated"

abbrev pub shutdown_allowed : String → Bool
shutdown_allowed state = str_eq state esx_in_maintenance || str_eq state alarm_maintenance

abbrev label : Node → String → String
label node key = or_else (get node.labels key) ""

unfoldable pub should_shutdown_node : Node → Bool
should_shutdown_node node =
    shutdown_allowed (label node maintenance_label_key)
    && str_eq (label node reboot_ok_label_key) "true"

-- initCount
unfoldable pub count_shutdown : List Node → ℕ
unfolding should_shutdown_node
count_shutdown [] = zero
count_shutdown (node ∷ nodes) =
    let n = count_shutdown nodes in if should_shutdown_node node then suc n else n

unfoldable pub should_shutdown : Host → Bool
unfolding count_shutdown
should_shutdown esx = count_shutdown esx.nodes == length esx.nodes

-- ShouldStart
abbrev holds_text : String → Option String → Bool
holds_text s none = false
holds_text s (some t) = str_eq t s

unfoldable pub should_start : Node → Bool
should_start node =
    holds_text "true" (get node.annotations reboot_initiated_key)
    && holds_text no_maintenance (get node.labels maintenance_label_key)

abbrev pub is_off : PowerState → Bool
is_off powered_on = false
is_off powered_off = true
is_off suspended = false

abbrev pub is_on : PowerState → Bool
is_on powered_on = true
is_on powered_off = false
is_on suspended = false

abbrev pub succeeded : TaskState → Bool
succeeded queued = false
succeeded running = false
succeeded success = true
succeeded error = false

abbrev pub is_machine_off : {E : Type 0} → (Error ⊎ VirtualMachine) × E → (Error ⊎ Bool) × E
is_machine_off (inl err, e) = (inl err, e)
is_machine_off (inr vm, e) = (inr (is_off vm.power_state), e)

-- ShutdownParams, without the vCenters, the log and the names
pub record Waiting : Type 0 where
  pub period : Duration
  pub timeout : Duration

abbrev pub outcome_of : {S : Type 0} → Run S (Error ⊎ Unit {0}) → Run S (Option Error)
outcome_of run s = resume (run s) (λ r. pure (elim r [ inl err ↦ some err | inr u ↦ none ]))

module _ {E C Url : Type 0} (sdk : Sdk E C Url) where
  unfoldable pub is_tools_unavailable : Error → Bool
  is_tools_unavailable err = if sdk.is_soap_fault err then sdk.has_tools_unavailable err else false

  unfoldable pub poll_power_off : C → String → Waiting → E → Option Error × E
  unfolding retrieve_vm
  poll_power_off c name w =
      sdk.poll w.period w.timeout (λ e. is_machine_off (retrieve_vm sdk c name e))

  -- A task is created, awaited, and has to succeed.
  unfoldable pub run_task :
      C → String → String → (E → (Error ⊎ String) × E) → Run (Center E C) (Error ⊎ Unit {0})
  run_task c name kind create =
      try (call create)
        (λ err. message ("failed to create " ++ (kind ++ (" task for VM " ++ name))))
        (λ task.
          try (call (sdk.wait_for_result c task))
            (λ err. message ("failed to await " ++ (kind ++ (" task for VM " ++ name))))
            (λ state.
              if succeeded state
              then pure (inr tt)
              else pure (
                  inl
                    (message ("VM " ++ (name ++ (" " ++ (kind ++ " task was not successful"))))))))

  abbrev unplug : C → String → String → Run (Center E C) (Error ⊎ Unit {0})
  unplug c vm name = run_task c name "poweroff" (sdk.power_off c vm)

  -- After a graceful shutdown was polled for.
  abbrev pub after_poll : C → String → String → Option Error → Run (Center E C) (Error ⊎ Unit {0})
  after_poll c vm name none = pure (inr tt)
  after_poll c vm name (some err) =
      if not (sdk.is_interrupted err)
      then pure (inl (wrapped "failed to wait for guest OS shutdown" err))
      else unplug c vm name

  abbrev pub after_shutdown :
      C → String → String → Waiting → Option Error → Run (Center E C) (Error ⊎ Unit {0})
  after_shutdown c vm name w none s =
      resume (call (poll_power_off c name w) s) (after_poll c vm name)
  after_shutdown c vm name w (some err) s =
      (if not (is_tools_unavailable err)
          then pure (inl (wrapped ("failed to shutdown guest OS for vm " ++ name) err))
          else unplug c vm name)
        s

  unfoldable pub shutdown_vm : C → String → String → Waiting → Run (Center E C) (Error ⊎ Unit {0})
  unfolding is_tools_unavailable poll_power_off run_task
  shutdown_vm c vm name w s = resume (call (sdk.shutdown_guest c vm) s) (after_shutdown c vm name w)

  abbrev pub connected :
      VCenters
      → HostInfo
      → String
      → (C → VirtualMachine → Run (Center E C) (Error ⊎ Unit {0}))
      → Run (Center E C) (Error ⊎ Unit {0})
  connected vc info name f =
      try (client sdk vc info.availability_zone) (wrapped "failed to connect to vCenter") (λ c.
        try (call (retrieve_vm sdk c name)) (wrapped ("failed to retrieve vm " ++ name)) (f c))

  -- EnsureVMOff
  unfoldable pub ensure_vm_off :
      VCenters → HostInfo → String → Waiting → Run (Center E C) (Error ⊎ Unit {0})
  unfolding client retrieve_vm shutdown_vm
  ensure_vm_off vc info name w =
      connected vc info name
        (λ c vm. if is_off vm.power_state then pure (inr tt) else shutdown_vm c vm.self name w)

  -- ensureVMOn
  unfoldable pub ensure_vm_on : VCenters → HostInfo → String → Run (Center E C) (Error ⊎ Unit {0})
  unfolding client retrieve_vm run_task
  ensure_vm_on vc info name = connected vc info name (λ c vm.
      if is_on vm.power_state
      then pure (inr tt)
      else run_task c name "poweron" (sdk.power_on c vm.self))
