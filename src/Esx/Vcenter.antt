-- ===== src/Esx/Vcenter.antt =====
-- esx/config.go and esx/util.go: the clients of the vCenters, by availability zone, and the lookup
-- of a virtual machine.
use Prim.Native.String.{◌++◌}
use maintenance_controller.Base.{
  String, Bool, Option, none, some, List, [], ◌∷◌, ◌⊎◌, inl, inr, Assoc, lookup, GoMap, made,
  entries, get, insert, make_if_nil, Run, done, length, modify,
}
use maintenance_controller.Base.Text.{replace_all, decimal}
use maintenance_controller.Errors.{Error, message, wrapped, try}
use maintenance_controller.GoTime.{Duration}

-- The values of package types of the vSphere API that the program compares with.
pub data PowerState : Type 0 where
  powered_on : PowerState
  powered_off : PowerState
  suspended : PowerState

pub data TaskState : Type 0 where
  queued : TaskState
  running : TaskState
  success : TaskState
  error : TaskState

-- The properties of mo.HostSystem, mo.VirtualMachine and mo.Task that are read.
pub record HostSystem : Type 0 where
  pub in_maintenance_mode : Bool
  pub recent_task : List String
  -- Config.Product.Version; none if Config is nil
  pub version : Option String
  pub triggered_alarms : List String

pub record VirtualMachine : Type 0 where
  pub self : String
  pub power_state : PowerState

pub record TaskInfo : Type 0 where
  pub name : String
  pub state : TaskState

pub record Credential : Type 0 where
  pub username : String
  pub password : String

-- The calls of govmomi, of net/url and of the poll loop, with a client of type C. References to
-- managed objects are texts.
pub record Sdk (E C Url : Type 0) : Type 0 where
  -- url.Parse
  pub parse_url : String → Error ⊎ Url
  -- govmomi.NewClient of an URL with its user
  pub new_client : Url → Credential → Bool → E → (Error ⊎ C) × E
  pub logout : C → E → Option Error × E
  -- CreateContainerView from the root folder, of the kinds
  pub create_view : C → List String → E → (Error ⊎ String) × E
  -- RetrieveWithFilter of the properties, by name
  pub retrieve_hosts : C → String → List String → String → E → (Error ⊎ List HostSystem) × E
  pub retrieve_machines : C → String → String → E → (Error ⊎ List VirtualMachine) × E
  pub destroy_view : C → String → E → Option Error × E
  -- Retrieve of the info of tasks, and of the names of alarms
  pub retrieve_tasks : C → List String → E → (Error ⊎ List TaskInfo) × E
  pub retrieve_alarms : C → List String → E → (Error ⊎ List String) × E
  pub shutdown_guest : C → String → E → Option Error × E
  -- PowerOff and PowerOn, which give a task, and the wait for its result
  pub power_off : C → String → E → (Error ⊎ String) × E
  pub power_on : C → String → E → (Error ⊎ String) × E
  pub wait_for_result : C → String → E → (Error ⊎ TaskState) × E
  -- wait.PollWithContext with a period and a timeout
  pub poll : Duration → Duration → (E → (Error ⊎ Bool) × E) → E → Option Error × E
  -- wait.Interrupted, soap.IsSoapFault, and whether the fault is vctypes.ToolsUnavailable
  pub is_interrupted : Error → Bool
  pub is_soap_fault : Error → Bool
  pub has_tools_unavailable : Error → Bool

-- VCenters, without the cache
pub record VCenters : Type 0 where
  pub template : String
  pub insecure : Bool
  pub credentials : Assoc Credential

-- The cache of clients, and what the calls change.
pub record Center (E C : Type 0) : Type 0 where
  pub cache : GoMap C
  pub ext : E

abbrev pub zone_replacer : String
zone_replacer = "$AZ"

abbrev pub unchanged : Error → Error
unchanged err = err

module _ {E C : Type 0} where
  abbrev pub call : {A : Type 0} → (E → A × E) → Run (Center E C) A
  call f s = let (a, e) = f s.ext in (done a, record s { ext = e })

  abbrev pub remember : String → C → Center E C → Center E C
  remember zone c s = record s { cache = made (insert zone c (entries s.cache)) }

module _ {E C Url : Type 0} (sdk : Sdk E C Url) (vc : VCenters) where
  abbrev with_user : String → Url → Option Credential → Error ⊎ (Url × Credential)
  with_user zone u none =
      inl (message ("no vCenter credentials have been provided for availability zone " ++ zone))
  with_user zone u (some c) = inr (u, c)

  abbrev with_credential : String → Error ⊎ Url → Error ⊎ (Url × Credential)
  with_credential zone (inl err) = inl err
  with_credential zone (inr u) = with_user zone u (lookup zone vc.credentials)

  -- VCenters.URL: the URL and its user
  unfoldable pub url : String → Error ⊎ (Url × Credential)
  url zone =
      with_credential zone (sdk.parse_url (replace_all (vc.template ++ "/sdk") zone_replacer zone))

  unfoldable pub make_client : String → Run (Center E C) (Error ⊎ C)
  unfolding url
  make_client zone =
      try (λ s. (done (url zone), s)) (wrapped "failed to render vCenter URL")
        (λ u.
          try (call (sdk.new_client u.0 u.1 vc.insecure))
            (wrapped "failed to create vCenter client") (λ c s. (done (inr c), s)))

  -- VCenters.Client
  unfoldable pub client : String → Run (Center E C) (Error ⊎ C)
  unfolding make_client
  client zone s = elim (get s.cache zone) [
    | some c ↦ (done (inr c), record s { cache = make_if_nil s.cache })
    | none ↦
        try (make_client zone) unchanged (λ c t. (done (inr c), remember zone c t))
          (record s { cache = make_if_nil s.cache })
  ]

  -- The loop of ClearCache; a failed logout is logged and dropped.
  unfoldable pub log_out_all : Assoc C → E → E
  log_out_all [] e = e
  log_out_all ((zone, c) ∷ m) e = log_out_all m (sdk.logout c e).1

  unfoldable pub clear_cache : Run (Center E C) (Unit {0})
  unfolding log_out_all
  clear_cache = modify (λ s. record { cache = made []; ext = log_out_all (entries s.cache) s.ext })

module _ {E C Url : Type 0} (sdk : Sdk E C Url) where
  abbrev one_machine : List VirtualMachine → Error ⊎ VirtualMachine
  one_machine [] = inl (message ("expected to retrieve 1 VM from vCenter, but got " ++ decimal 0))
  one_machine (vm ∷ []) = inr vm
  one_machine (vm ∷ (w ∷ vms)) = inl (
      message
        ("expected to retrieve 1 VM from vCenter, but got " ++ decimal (length (vm ∷ (w ∷ vms)))))

  abbrev looked_up : List VirtualMachine → Option Error → Error ⊎ VirtualMachine
  looked_up vms none = one_machine vms
  looked_up vms (some err) = inl (wrapped "failed to destroy ContainerView" err)

  abbrev find_in_view : C → String → (Error ⊎ String) × E → (Error ⊎ VirtualMachine) × E
  find_in_view c name (inl err, e) = (inl (wrapped "failed to create container view" err), e)
  find_in_view c name (inr v, e) = found_in_view (sdk.retrieve_machines c v name e)
    where
      found_in_view : (Error ⊎ List VirtualMachine) × E → (Error ⊎ VirtualMachine) × E
      found_in_view (inl err, e') = (inl (message ("failed to retrieve VM " ++ name)), e')
      found_in_view (inr vms, e') =
          let (gone, e'') = sdk.destroy_view c v e' in (looked_up vms gone, e'')

  -- RetrieveVM
  unfoldable pub retrieve_vm : C → String → E → (Error ⊎ VirtualMachine) × E
  retrieve_vm c name e = find_in_view c name (sdk.create_view c ("VirtualMachine" ∷ []) e)
