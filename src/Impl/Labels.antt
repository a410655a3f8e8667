-- ===== src/Impl/Labels.antt =====
-- plugin/impl/label.go, annotation.go, condition.go and nodecount.go.
use Prim.Native.String.{◌++◌}
use maintenance_controller.Base.{
  ℕ, String, Bool, true, false, Option, none, some, List, [], ◌∷◌, ◌⊎◌, inl, inr, GoMap, nil_map,
  made, get, put, delete, Run, Outcome, done, panicked, pure, ◌>>=◌, is_some, length, leb, str_eq,
  ◌||◌, if◌then◌else◌,
}
use maintenance_controller.Errors.{Error}
use maintenance_controller.World.{Node, NodeCondition, World, Parameters, on_ext}
use maintenance_controller.Api.{Api, all_nodes}
use maintenance_controller.Plugin.Check.{
  Checker, CheckResult, text_info, count_info, passed_with, failed_with, failed_with_reason,
}
use maintenance_controller.Plugin.Trigger.{Trigger}

-- The configuration of HasLabel, AnyLabel and HasAnnotation.
pub record KeyValue : Type 0 where
  pub key : String
  pub value : String

abbrev pub plain : Bool → CheckResult
plain passed = record { id = ""; passed = passed; info = nil_map }

-- A key with no value to compare is enough; `kind` is "label" or "annotation".
unfoldable pub check_key : String → KeyValue → GoMap String → CheckResult
check_key kind conf m = elim (get m conf.key) [
  | none ↦ failed_with_reason (kind ++ (" " ++ (conf.key ++ " not present")))
  | some val ↦ if str_eq conf.value "" then passed_with nil_map else plain (str_eq val conf.value)
]

-- The configuration of AlterLabel and AlterAnnotation.
pub record Alteration : Type 0 where
  pub key : String
  pub value : String
  pub remove : Bool

unfoldable pub alter : Alteration → GoMap String → Outcome (GoMap String)
alter conf m =
    if conf.remove
    then (if is_some (get m conf.key) then done (delete conf.key m) else done m)
    else put conf.key conf.value m

abbrev pub on_transition_nothing : {E : Type 0} → Parameters → Run (World E) (Option Error)
on_transition_nothing p = pure none

unfoldable pub some_node_has : KeyValue → List Node → Bool
some_node_has conf [] = false
some_node_has conf (node ∷ nodes) = elim (get node.labels conf.key) [
  | none ↦ some_node_has conf nodes
  | some val ↦
      if str_eq conf.value "" || str_eq conf.value val then true else some_node_has conf nodes
]

abbrev pub any_label_result : KeyValue → Error ⊎ List Node → CheckResult × Option Error
any_label_result conf (inl err) = (failed_with nil_map, some err)
any_label_result conf (inr nodes) = (plain (some_node_has conf nodes), none)

-- The first condition of the type decides.
unfoldable pub check_condition : String → String → List NodeCondition → CheckResult
check_condition type status [] = failed_with_reason ("condition " ++ (type ++ " not present"))
check_condition type status (c ∷ cs) =
    if str_eq c.type type
    then record {
      id = "";
      passed = str_eq c.status status;
      info = made (("current", text_info c.status) ∷ ("expected", text_info status) ∷ []);
    }
    else check_condition type status cs

abbrev pub node_count_result : ℕ → Error ⊎ List Node → CheckResult × Option Error
node_count_result count (inl err) = (failed_with nil_map, some err)
node_count_result count (inr nodes) = (
  record {
    id = "";
    passed = leb count (length nodes);
    info = made (("current", count_info (length nodes)) ∷ ("expected", count_info count) ∷ []);
  },
  none,
)

module _ {E : Type 0} where
  unfoldable pub has_label : KeyValue → Checker E
  unfolding check_key
  has_label conf = record {
    id = "hasLabel";
    check = λ p w. (done (check_key "label" conf w.node.labels, none), w);
    on_transition = on_transition_nothing;
  }

  unfoldable pub has_annotation : KeyValue → Checker E
  unfolding check_key
  has_annotation conf = record {
    id = "hasAnnotation";
    check = λ p w. (done (check_key "annotation" conf w.node.annotations, none), w);
    on_transition = on_transition_nothing;
  }

  unfoldable pub any_label : Api E → KeyValue → Checker E
  unfolding some_node_has
  any_label api conf = record {
    id = "anyLabel";
    check = λ p. (do nodes ← on_ext (api.list_nodes all_nodes); pure (any_label_result conf nodes));
    on_transition = on_transition_nothing;
  }

  unfoldable pub condition : String → String → Checker E
  unfolding check_condition
  condition type status = record {
    id = "condition";
    check = λ p w. (done (check_condition type status w.node.conditions, none), w);
    on_transition = on_transition_nothing;
  }

  unfoldable pub node_count : Api E → ℕ → Checker E
  node_count api count = record {
    id = "nodeCount";
    check =
        λ p. (do nodes ← on_ext (api.list_nodes all_nodes); pure (node_count_result count nodes));
    on_transition = on_transition_nothing;
  }

  abbrev pub with_node_labels : World E → Outcome (GoMap String) → Outcome (Option Error) × World E
  with_node_labels w (done m) = (done none, record w { node = record w.node { labels = m } })
  with_node_labels w panicked = (panicked, w)

  abbrev pub with_node_annotations :
      World E → Outcome (GoMap String) → Outcome (Option Error) × World E
  with_node_annotations w (done m) =
      (done none, record w { node = record w.node { annotations = m } })
  with_node_annotations w panicked = (panicked, w)

  unfoldable pub alter_label : Alteration → Trigger E
  unfolding alter
  alter_label conf = record {
    id = "alterLabel";
    trigger = λ p w. with_node_labels w (alter conf w.node.labels);
  }

  unfoldable pub alter_annotation : Alteration → Trigger E
  unfolding alter
  alter_annotation conf = record {
    id = "alterAnnotation";
    trigger = λ p w. with_node_annotations w (alter conf w.node.annotations);
  }
