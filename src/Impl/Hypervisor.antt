-- ===== src/Impl/Hypervisor.antt =====
-- plugin/impl/hypervisor.go: checks of the status of a node's hypervisor, and changes of its spec.
-- A struct is the list of its fields, each with its json tag, its name and its value.
use Prim.Native.String.{◌++◌}
use maintenance_controller.Base.{
  String, Bool, true, false, not, ◌&&◌, Option, none, some, List, [], ◌∷◌, ◌⊎◌, inl, inr, Assoc,
  insert, nil_map, Run, Outcome, done, panicked, pure, ◌>>=◌, str_eq, if◌then◌else◌,
}
use maintenance_controller.Base.Int.{ℤ, leb_ℤ}
use maintenance_controller.Errors.{Error, message}
use maintenance_controller.World.{World, NodeCondition, on_ext}
use maintenance_controller.Plugin.Check.{Checker, CheckResult, passed_with, failed_with}
use maintenance_controller.Impl.Labels.{check_condition, on_transition_nothing}

-- A value of type any, by the types that the plugin tells apart; `other` names another type.
pub data FieldValue : Type 0 where
  flag : Bool → FieldValue
  text : String → FieldValue
  texts : List String → FieldValue
  int : ℤ → FieldValue
  other : String → FieldValue

pub record Field : Type 0 where
  pub json_name : String
  pub name : String
  pub value : FieldValue

-- The custom resource of a node's hypervisor.
pub record Hypervisor : Type 0 where
  pub spec : List Field
  pub status : List Field
  pub conditions : List NodeCondition

-- params.Client on hypervisors, and retry.RetryOnConflict.
pub record HypervisorApi (E : Type 0) : Type 0 where
  pub get_hypervisor : String → E → (Error ⊎ Hypervisor) × E
  pub patch_hypervisor : Hypervisor → E → Option Error × E
  pub retry_on_conflict : (E → Option Error × E) → E → Option Error × E

-- %T of a value.
abbrev pub type_name : FieldValue → String
type_name (flag b) = "bool"
type_name (text s) = "string"
type_name (texts s) = "[]string"
type_name (int n) = "int"
type_name (other t) = t

unfoldable pub find_field : (Field → String) → String → List Field → Option Field
find_field key name [] = none
find_field key name (f ∷ fs) =
    let rest = find_field key name fs in if str_eq (key f) name then some f else rest

-- slices.Equal
abbrev pub equal_texts : List String → List String → Bool
equal_texts [] [] = true
equal_texts [] (t ∷ ts) = false
equal_texts (s ∷ ss) [] = false
equal_texts (s ∷ ss) (t ∷ ts) = str_eq s t && equal_texts ss ts

abbrev equal_int : ℤ → ℤ → Bool
equal_int n m = leb_ℤ n m && leb_ℤ m n

abbrev equal_flag : Bool → Bool → Bool
equal_flag true b = b
equal_flag false b = not b

abbrev wrong_type : String → String → Error
wrong_type key type = message ("field " ++ (key ++ (" is not of type " ++ type)))

abbrev unsupported : String → FieldValue → Error
unsupported key value =
    message ("unsupported field type " ++ (type_name value ++ (" for field " ++ key)))

-- f.Bool() of package reflect, which panics on another type
abbrev as_flag : FieldValue → Outcome Bool
as_flag (flag b) = done b
as_flag (text s) = panicked
as_flag (texts s) = panicked
as_flag (int n) = panicked
as_flag (other t) = panicked

-- f.String() of package reflect, which names the type of another value
abbrev as_text : FieldValue → String
as_text (flag b) = "<bool Value>"
as_text (text s) = s
as_text (texts s) = "<[]string Value>"
as_text (int n) = "<int Value>"
as_text (other t) = "<" ++ (t ++ " Value>")

-- What one field says: it matches, it does not, or the check ends with an error.
abbrev pub Verdict : Type 0
Verdict = Outcome (Error ⊎ Bool)

abbrev flag_verdict : Bool → Outcome Bool → Verdict
flag_verdict v panicked = panicked
flag_verdict v (done b) = done (inr (equal_flag b v))

abbrev texts_verdict : String → List String → FieldValue → Verdict
texts_verdict key v (texts s) = done (inr (equal_texts s v))
texts_verdict key v (flag b) = done (inl (wrong_type key "[]string"))
texts_verdict key v (text s) = done (inl (wrong_type key "[]string"))
texts_verdict key v (int n) = done (inl (wrong_type key "[]string"))
texts_verdict key v (other t) = done (inl (wrong_type key "[]string"))

abbrev int_verdict : String → ℤ → FieldValue → Verdict
int_verdict key v (int n) = done (inr (equal_int n v))
int_verdict key v (flag b) = done (inl (wrong_type key "int"))
int_verdict key v (text s) = done (inl (wrong_type key "int"))
int_verdict key v (texts s) = done (inl (wrong_type key "int"))
int_verdict key v (other t) = done (inl (wrong_type key "int"))

-- The switch of CheckHypervisor.Check.
unfoldable pub compare_field : String → FieldValue → FieldValue → Verdict
compare_field key (flag v) found = flag_verdict v (as_flag found)
compare_field key (text v) found = done (inr (str_eq (as_text found) v))
compare_field key (texts v) found = texts_verdict key v found
compare_field key (int v) found = int_verdict key v found
compare_field key (other t) found = done (inl (unsupported key (other t)))

abbrev field_verdict : String → FieldValue → Option Field → Verdict
field_verdict key value none =
    done (inl (message ("field " ++ (key ++ " not found in Hypervisor status"))))
field_verdict key value (some f) = compare_field key value f.value

abbrev after_field :
    Verdict → Outcome (CheckResult × Option Error) → Outcome (CheckResult × Option Error)
after_field panicked rest = panicked
after_field (done (inl err)) rest = done (failed_with nil_map, some err)
after_field (done (inr false)) rest = done (failed_with nil_map, none)
after_field (done (inr true)) rest = rest

-- The loop of CheckHypervisor.Check; Go iterates over the fields in any order.
unfoldable pub check_fields : Assoc FieldValue → List Field → Outcome (CheckResult × Option Error)
unfolding compare_field find_field
check_fields [] status = done (passed_with nil_map, none)
check_fields ((key, value) ∷ fields) status =
    after_field (field_verdict key value (find_field (λ f. f.name) key status))
      (check_fields fields status)

abbrev checked_status : Assoc FieldValue → Error ⊎ Hypervisor → Outcome (CheckResult × Option Error)
checked_status fields (inl err) = done (failed_with nil_map, some err)
checked_status fields (inr h) = check_fields fields h.status

abbrev checked_condition : String → String → Error ⊎ Hypervisor → CheckResult × Option Error
checked_condition type status (inl err) = (failed_with nil_map, some err)
checked_condition type status (inr h) = (check_condition type status h.conditions, none)

-- The switch of AlterHypervisor.Trigger: a field takes a value of its own type only.
abbrev can_hold : FieldValue → FieldValue → Bool
can_hold (flag v) f = str_eq (type_name f) "bool"
can_hold (text v) f = str_eq (type_name f) "string"
can_hold (texts v) f = str_eq (type_name f) "[]string"
can_hold (int v) f = false
can_hold (other t) f = false

abbrev cannot_hold : String → FieldValue → FieldValue → Error
cannot_hold key (flag v) f =
    message ("field " ++ (key ++ (" is not of type bool, expected " ++ type_name f)))
cannot_hold key (text v) f =
    message ("field " ++ (key ++ (" is not of type string, expected " ++ type_name f)))
cannot_hold key (texts v) f =
    message ("field " ++ (key ++ (" is not of type []string, expected " ++ type_name f)))
cannot_hold key (int v) f = unsupported key (int v)
cannot_hold key (other t) f = unsupported key (other t)

unfoldable pub set_field : String → FieldValue → List Field → List Field
set_field key value [] = []
set_field key value (f ∷ fs) =
    let rest = set_field key value fs in
    if str_eq f.name key then record f { value = value } ∷ fs else f ∷ rest

abbrev altered_field : String → FieldValue → List Field → Option Field → Error ⊎ List Field
altered_field key value spec none =
    inl (message ("field " ++ (key ++ " not found in Hypervisor spec")))
altered_field key value spec (some f) =
    if can_hold value f.value
    then inr (set_field key value spec)
    else inl (cannot_hold key value f.value)

abbrev then_alter : Error ⊎ List Field → (List Field → Error ⊎ List Field) → Error ⊎ List Field
then_alter (inl err) rest = inl err
then_alter (inr spec) rest = rest spec

-- The loop of AlterHypervisor.Trigger. The fields of the spec are exported, and so can be set.
unfoldable pub alter_fields : Assoc FieldValue → List Field → Error ⊎ List Field
unfolding find_field set_field
alter_fields [] spec = inr spec
alter_fields ((key, value) ∷ fields) spec =
    then_alter (altered_field key value spec (find_field (λ f. f.name) key spec))
      (alter_fields fields)

-- mapToStructFields, for a struct of the fields with their json tags and types
abbrev mapped_field :
    String
    → String
    → FieldValue
    → Option Field
    → Error ⊎ Assoc FieldValue
    → Error ⊎ Assoc FieldValue
mapped_field struct key value none rest =
    inl (message ("field " ++ (key ++ (" not found in " ++ struct))))
mapped_field struct key value (some f) rest =
    if str_eq (type_name value) (type_name f.value)
    then insert_mapped f.name value rest
    else inl (
        message (
          "field "
          ++ (key
              ++ (" has incorrect type: expected "
                  ++ (type_name f.value ++ (", got " ++ type_name value))))))
  where
    insert_mapped : String → FieldValue → Error ⊎ Assoc FieldValue → Error ⊎ Assoc FieldValue
    insert_mapped name v (inl err) = inl err
    insert_mapped name v (inr m) = inr (insert name v m)

unfoldable pub map_to_struct_fields :
    String → List Field → Assoc FieldValue → Error ⊎ Assoc FieldValue
unfolding find_field
map_to_struct_fields struct fields [] = inr []
map_to_struct_fields struct fields ((key, value) ∷ rest) =
    mapped_field struct key value (find_field (λ f. f.json_name) key fields)
      (map_to_struct_fields struct fields rest)

module _ {E : Type 0} (api : HypervisorApi E) where
  -- CheckHypervisor
  unfoldable pub check_hypervisor : Assoc FieldValue → Checker E
  unfolding check_fields
  check_hypervisor fields = record {
    id = "checkHypervisor";
    check = λ p w.
        let (found, e) = api.get_hypervisor w.node.name w.ext in
        (checked_status fields found, record w { ext = e });
    on_transition = on_transition_nothing;
  }

  -- HypervisorCondition
  unfoldable pub hypervisor_condition : String → String → Checker E
  hypervisor_condition type status = record {
    id = "hypervisorCondition";
    check = λ p. (do
      found ← (λ w. on_ext (api.get_hypervisor w.node.name) w)
      pure (checked_condition type status found));
    on_transition = on_transition_nothing;
  }

  abbrev patched : Hypervisor → Error ⊎ List Field → E → Option Error × E
  patched h (inl err) e = (some err, e)
  patched h (inr spec) e = api.patch_hypervisor (record h { spec = spec }) e

  abbrev alter_got : Assoc FieldValue → (Error ⊎ Hypervisor) × E → Option Error × E
  alter_got fields (inl err, e) = (some err, e)
  alter_got fields (inr h, e) = patched h (alter_fields fields h.spec) e

  -- AlterHypervisor.Trigger
  unfoldable pub alter_hypervisor : Assoc FieldValue → Run (World E) (Option Error)
  unfolding alter_fields
  alter_hypervisor fields w =
      on_ext (api.retry_on_conflict (λ e. alter_got fields (api.get_hypervisor w.node.name e))) w
