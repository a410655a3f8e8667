-- ===== src/Esx/Poweroff.antt =====
-- EnsureVMOff: what its success says of the virtual machine.
use maintenance_controller.Base.{
  String, Bool, true, Option, none, some, ◌≡◌, refl, ap, ◌∙◌, ◌⊎◌, inl, inr, lookup, lookup-insert,
  get, entries, entries-make_if_nil, Outcome, done, panicked, Run, resume, Ends, Ends-at, Ends-mono,
  Ends-resume, Bool-cases, Option-cases, eq_self, if◌then◌else◌, pure,
}
use Prim.Native.String.{◌++◌}
use mathlib.Core.Path.{subst}
use maintenance_controller.Errors.{Error, message, handled, try}
use maintenance_controller.GoTime.{Duration}
use maintenance_controller.Esx.Vcenter.{
  Sdk, VCenters, Center, VirtualMachine, TaskState, queued, running, success, error, client,
  make_client, call, unchanged, retrieve_vm,
}
use maintenance_controller.Esx.Hosts.{HostInfo}
use maintenance_controller.Esx.Power.{
  Waiting, succeeded, is_tools_unavailable, is_machine_off, after_poll, after_shutdown, is_off,
  poll_power_off, run_task, shutdown_vm, ensure_vm_off,
}

-- What holds of a call's state and result, if it returns no error.
abbrev OnSuccess : {S A : Type 0} → (A → S → Type 0) → Error ⊎ A → S → Type 0
OnSuccess P (inl err) s = Unit
OnSuccess P (inr a) s = P a s

Ends-handled :
    {S A B : Type 0} (P : B → S → Type 0) (wrap : Error → Error) (f : A → Run S (Error ⊎ B))
    (r : Error ⊎ A) (s : S)
    → ((a : A) → r ≡ inr a → Ends (OnSuccess P) (f a s))
    → Ends (OnSuccess P) (handled wrap f r s)
Ends-handled P wrap f (inl err) s h = tt
Ends-handled P wrap f (inr a) s h = h a refl

Ends-try :
    {S A B : Type 0} (Q : A → S → Type 0) (P : B → S → Type 0) (run : Run S (Error ⊎ A))
    (wrap : Error → Error) (f : A → Run S (Error ⊎ B)) (s : S)
    → Ends (OnSuccess Q) (run s)
    → ((a : A) (t : S) → Q a t → Ends (OnSuccess P) (f a t))
    → Ends (OnSuccess P) (try run wrap f s)
Ends-try Q P run wrap f s h k = Ends-resume (OnSuccess P) (run s) (handled wrap f) (
    Ends-mono (OnSuccess Q) _ (run s)
      (λ r t q. Ends-handled P wrap f r t (λ a e. k a t (at Q r t q a e))) h)
  where
    at :
        {S A : Type 0} (Q : A → S → Type 0) (r : Error ⊎ A) (t : S)
        → OnSuccess Q r t
        → (a : A) → r ≡ inr a
        → Q a t
    at Q r t q a e = subst (λ x. OnSuccess Q x t) e q

abbrev tested : Bool → Error ⊎ Bool
tested b = inr b

left_right : (err : Error) (b : Bool) → ◌≡◌ {A = Error ⊎ Bool} (inl err) (inr b) → ⊥
left_right err b e = cc

right_inj : (a b : Bool) → tested a ≡ tested b → a ≡ b
right_inj a b e = cc

OnSuccess-any : {S A : Type 0} (r : Error ⊎ A) (s : S) → OnSuccess (λ a t. Unit {0}) r s
OnSuccess-any (inl err) s = tt
OnSuccess-any (inr a) s = tt

Ends-any : {S A : Type 0} (r : Outcome (Error ⊎ A) × S) → Ends (OnSuccess (λ a t. Unit {0})) r
Ends-any (done a, s) = OnSuccess-any a s
Ends-any (panicked, s) = tt

module _ {E C Url : Type 0} (sdk : Sdk E C Url) where
  abbrev Cached : String → C → Center E C → Type 0
  Cached zone c s = get s.cache zone ≡ some c

  client-Cached :
      (vc : VCenters) (zone : String) (s : Center E C)
      → Ends (OnSuccess (λ c t. Cached zone c t)) (client sdk vc zone s)
  unfolding client
  client-Cached vc zone s = elim (Option-cases (get s.cache zone)) [
    | inr (c, e) ↦ rw (e, client) (ap (lookup zone) (entries-make_if_nil s.cache) ∙ e)
    | inl e ↦
        rw (e, client)
          (Ends-try (λ c t. Unit) _ (make_client sdk vc zone) unchanged _ _
            (Ends-any (make_client sdk vc zone _))
            (λ c t u. lookup-insert zone zone c (entries t.cache) ∙ rw (eq_self zone) refl))
  ]

  -- The reference is that of a machine that a look for the name has found.
  abbrev Found : C → String → String → Type 0
  Found c name vm =
      (m : VirtualMachine) × (e : E) × (e' : E) × (retrieve_vm sdk c name e ≡ (inr m, e'))
      × (vm ≡ m.self)

  -- The machine of the name was last seen powered off, or a task that powers off the machine that a
  -- look for this name has found has just succeeded.
  abbrev pub IsOff : String → String → Center E C → Type 0
  IsOff zone name s =
      (c : C) × (Cached zone c s)
      × (((vm : VirtualMachine) × (e : E) × (retrieve_vm sdk c name e ≡ (inr vm, s.ext))
            × (is_off vm.power_state ≡ true))
          ⊎ ((task vm : String) × Found c name vm
              × (e : E) × (e' : E) × (sdk.power_off c vm e ≡ (inr task, e'))
              × (e'' : E) × (sdk.wait_for_result c task e'' ≡ (inr success, s.ext))))

  -- wait.PollWithContext returns nil right after the condition has held.
  abbrev pub PollsUntil : Type 0
  PollsUntil =
      (period timeout : Duration) (condition : E → (Error ⊎ Bool) × E) (e e' : E)
      → sdk.poll period timeout condition e ≡ (none, e')
      → (e₀ : E) × (condition e₀ ≡ (inr true, e'))

  call-at :
      {A : Type 0} (zone : String) (c : C) (g : E → (Error ⊎ A) × E) (s : Center E C)
      → Cached zone c s
      → Ends (OnSuccess (λ a t. (Cached zone c t) × ((e : E) × (g e ≡ (inr a, t.ext))))) (call g s)
  call-at {A = A} zone c g s k = go (g s.ext) refl
    where
      go :
          (r : (Error ⊎ A) × E)
          → g s.ext ≡ r
          → OnSuccess
              (λ a t. (Cached zone c t) × ((e : E) × (g e ≡ (inr a, t.ext))))
              r.0
              (record s { ext = r.1 })
      go (inl err, e) h = tt
      go (inr a, e) h = (k, (s.ext, h))

  run_task-IsOff :
      (zone : String) (c : C) (vm name kind : String) (s : Center E C)
      → Found c name vm
      → Cached zone c s
      → Ends
          (OnSuccess (λ u t. IsOff zone name t))
          (run_task sdk c name kind (sdk.power_off c vm) s)
  unfolding run_task
  run_task-IsOff zone c vm name kind s named k =
      Ends-try _ _ (call (sdk.power_off c vm)) _ _ s (call-at zone c (sdk.power_off c vm) s k)
        (λ task t q.
          Ends-try _ _ (call (sdk.wait_for_result c task)) _ _ t
            (call-at zone c (sdk.wait_for_result c task) t q.0)
            (λ state u r. finished task t.ext state u q.1 r.0 r.1))
    where
      finished :
          (task : String) (e' : E) (state : TaskState) (u : Center E C)
          → ((e : E) × (sdk.power_off c vm e ≡ (inr task, e')))
          → Cached zone c u
          → ((e : E) × (sdk.wait_for_result c task e ≡ (inr state, u.ext)))
          → Ends (OnSuccess (λ x t. IsOff zone name t)) (
              (if succeeded state
                  then pure (inr tt)
                  else pure (
                      inl (
                        message
                          ("VM " ++ (name ++ (" " ++ (kind ++ " task was not successful")))))))
                u)
      finished task e' queued u p k r = tt
      finished task e' running u p k r = tt
      finished task e' success u p k r = (c, k, inr (task, vm, named, p.0, e', p.1, r.0, r.1))
      finished task e' error u p k r = tt

  after_poll-IsOff :
      PollsUntil
      → (zone : String) (c : C) (vm name : String) (w : Waiting) (s : Center E C) → Found c name vm
      → Cached zone c s
      → Ends
          (OnSuccess (λ u t. IsOff zone name t))
          (resume (call (poll_power_off sdk c name w) s) (after_poll sdk c vm name))
  unfolding poll_power_off
  after_poll-IsOff polls zone c vm name w s named k = go (poll_power_off sdk c name w s.ext) refl
    where
      seen :
          (e₀ : E) (r : (Error ⊎ VirtualMachine) × E) (e' : E)
          → retrieve_vm sdk c name e₀ ≡ r
          → is_machine_off r ≡ (inr true, e')
          → IsOff zone name (record s { ext = e' })
      seen e₀ (inl err, e) e' h o = absurd (left_right err true (ap (λ r. r.0) o))
      seen e₀ (inr v, e) e' h o = (
        c,
        k,
        inl (
          v,
          e₀,
          h ∙ ap (λ x. (inr v, x)) (ap (λ r. r.1) o),
          right_inj (is_off v.power_state) true (ap (λ r. r.0) o),
        ),
      )

      go :
          (r : Option Error × E)
          → poll_power_off sdk c name w s.ext ≡ r
          → Ends
              (OnSuccess (λ u t. IsOff zone name t))
              (after_poll sdk c vm name r.0 (record s { ext = r.1 }))
      go (none, e) h =
          let (e₀, o) = polls w.period w.timeout _ s.ext e h in
          seen e₀ (retrieve_vm sdk c name e₀) e refl o
      go (some err, e) h = elim (Bool-cases (sdk.is_interrupted err)) [
        | inl y ↦ rw y (run_task-IsOff zone c vm name "poweroff" (record s { ext = e }) named k)
        | inr n ↦ rw n tt
      ]

  shutdown_vm-IsOff :
      PollsUntil
      → (zone : String) (c : C) (vm name : String) (w : Waiting) (s : Center E C) → Found c name vm
      → Cached zone c s
      → Ends (OnSuccess (λ u t. IsOff zone name t)) (shutdown_vm sdk c vm name w s)
  unfolding shutdown_vm
  shutdown_vm-IsOff polls zone c vm name w s named k = go (sdk.shutdown_guest c vm s.ext)
    where
      go :
          (r : Option Error × E)
          → Ends
              (OnSuccess (λ u t. IsOff zone name t))
              (after_shutdown sdk c vm name w r.0 (record s { ext = r.1 }))
      go (none, e) = after_poll-IsOff polls zone c vm name w (record s { ext = e }) named k
      go (some err, e) = elim (Bool-cases (is_tools_unavailable sdk err)) [
        | inl y ↦ rw y (run_task-IsOff zone c vm name "poweroff" (record s { ext = e }) named k)
        | inr n ↦ rw n tt
      ]

  -- If the poll loop returns nil only right after its condition has held, and EnsureVMOff returns no
  -- error, then the last call either saw the virtual machine of that name powered off, or reported the success
  -- of a task that PowerOff has given for a machine that was found under that name. These calls were made with the client that is cached for the
  -- availability zone of the host.
  pub ensure_vm_off-IsOff :
      (vc : VCenters) (info : HostInfo) (name : String) (w : Waiting) (s t : Center E C)
      → PollsUntil
      → ensure_vm_off sdk vc info name w s ≡ (done (inr tt), t)
      → IsOff info.availability_zone name t
  unfolding ensure_vm_off
  ensure_vm_off-IsOff vc info name w s t polls e =
      Ends-at (OnSuccess (λ u t. IsOff info.availability_zone name t)) _ (inr tt) t
        (Ends-try _ _ (client sdk vc info.availability_zone) _ _ s
          (client-Cached vc info.availability_zone s)
          (λ c a k.
            Ends-try _ _ (call (retrieve_vm sdk c name)) _ _ a
              (call-at info.availability_zone c (retrieve_vm sdk c name) a k)
              (λ vm b r. elim (Bool-cases (is_off vm.power_state)) [
                | inl y ↦ rw y (c, r.0, inl (vm, r.1.0, r.1.1, y))
                | inr n ↦ rw n (
                    shutdown_vm-IsOff polls info.availability_zone c vm.self name w b
                      (vm, r.1.0, b.ext, r.1.1, refl) r.0)
              ])))
        e
