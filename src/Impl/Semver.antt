-- ===== src/Impl/Semver.antt =====
-- plugin/impl/semver.go: whether the version in a label of the node is below the cluster's greatest.
use Prim.Native.String.{◌++◌}
use maintenance_controller.Base.{
  String, Bool, Option, none, some, List, [], ◌∷◌, ◌⊎◌, inl, inr, nil_map, made, get, Run, done,
  pure, ◌>>=◌, if◌then◌else◌,
}
use maintenance_controller.Errors.{Error, message, wrapped}
use maintenance_controller.World.{Node, World, Parameters, on_ext}
use maintenance_controller.Api.{Api, having_label}
use maintenance_controller.Plugin.Check.{Checker, CheckResult, text_info, failed_with}
use maintenance_controller.State.Labels.{contains_profile}
use maintenance_controller.Controllers.Handler.{profile_label_key}
use maintenance_controller.Impl.Labels.{on_transition_nothing}

pub record ClusterSemver : Type 0 where
  pub key : String
  pub profile_scoped : Bool

-- Package semver
pub record Versions (V : Type 0) : Type 0 where
  pub parse : String → Error ⊎ V
  pub lt : V → V → Bool
  pub gt : V → V → Bool
  pub show : V → String
  -- MustParse("0.1.0")
  pub lowest : V

unfoldable pub filter_by_profile : String → List Node → List Node
filter_by_profile profile [] = []
filter_by_profile profile (node ∷ nodes) =
    let rest = filter_by_profile profile nodes in
    elim (get node.labels profile_label_key) [
      | none ↦ rest
      | some profiles ↦ if contains_profile profiles profile then node ∷ rest else rest
    ]

module _ {V : Type 0} (semver : Versions V) (conf : ClusterSemver) where
  abbrev pub raised : V → Error ⊎ V → V
  raised greatest (inl err) = greatest
  raised greatest (inr v) = if semver.gt v greatest then v else greatest

  -- The loop over the nodes.
  unfoldable pub max_version : V → List Node → Error ⊎ V
  max_version greatest [] = inr greatest
  max_version greatest (node ∷ nodes) = elim (get node.labels conf.key) [
    | none ↦
        inl (message ("node labels do not contain " ++ (conf.key ++ " although filtered on it")))
    | some text ↦ max_version (raised greatest (semver.parse text)) nodes
  ]

  abbrev compared : V → Error ⊎ V → CheckResult × Option Error
  compared own (inl err) = (failed_with nil_map, some err)
  compared own (inr greatest) = (
    record {
      id = "";
      passed = semver.lt own greatest;
      info =
          made
            (("own", text_info (semver.show own)) ∷ ("max", text_info (semver.show greatest)) ∷ []);
    },
    none,
  )

  unfoldable pub compare_listed : V → String → Error ⊎ List Node → CheckResult × Option Error
  unfolding max_version filter_by_profile
  compare_listed own profile (inl err) = (failed_with nil_map, some err)
  compare_listed own profile (inr nodes) = compared own (
      max_version semver.lowest
        (if conf.profile_scoped then filter_by_profile profile nodes else nodes))

  abbrev with_version :
      {E : Type 0} → Api E → Parameters → Error ⊎ V → Run (World E) (CheckResult × Option Error)
  with_version api p (inl err) =
      pure (failed_with nil_map, some (wrapped "failed to parse current nodes version label" err))
  with_version api p (inr own) = do
    listed ← on_ext (api.list_nodes (having_label conf.key))
    pure (compare_listed own p.profile listed)

  -- Check
  unfoldable pub check_semver :
      {E : Type 0} → Api E → Parameters → Run (World E) (CheckResult × Option Error)
  unfolding compare_listed
  check_semver api p w = elim (get w.node.labels conf.key) [
    | none ↦ (
      done (
        failed_with nil_map,
        some (message ("node does not have label " ++ (conf.key ++ " containing version"))),
      ),
      w,
    )
    | some text ↦ with_version api p (semver.parse text) w
  ]

  abbrev pub cluster_semver : {E : Type 0} → Api E → Checker E
  cluster_semver api = record {
    id = "clusterSemver";
    check = check_semver api;
    on_transition = on_transition_nothing;
  }
