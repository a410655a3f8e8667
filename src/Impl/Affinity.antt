-- ===== src/Impl/Affinity.antt =====
-- plugin/impl/affinity.go: nodes with pods that prefer operational nodes go last.
use Prim.Native.String.{◌++◌}
use maintenance_controller.Base.{
  ℕ, suc, String, Bool, true, false, not, ◌&&◌, ◌||◌, Option, none, some, List, [], ◌∷◌, ◌⊎◌, inl,
  inr, Assoc, lookup, insert, get, nil_map, Run, done, pure, ◌>>=◌, any, length, ◌==◌, str_eq,
  if◌then◌else◌,
}
use maintenance_controller.Base.Int.{ℤ, pos, ltb_ℤ, leb_ℤ}
use maintenance_controller.Errors.{Error, message, wrapped}
use maintenance_controller.World.{Node, World, Parameters, on_ext}
use maintenance_controller.Api.{Api, Pod, Expression, all_nodes}
use maintenance_controller.Plugin.Check.{
  Checker, CheckResult, passed_with, passed_with_reason, failed_with, failed_with_reason,
}
use maintenance_controller.State.Labels.{operational, required}
use maintenance_controller.State.Data.{ProfileData, Codec, parse_data}
use maintenance_controller.Controllers.Handler.{state_label_key}
use maintenance_controller.Controllers.Reconcile.{data_text}
use maintenance_controller.Impl.Labels.{on_transition_nothing}

abbrev pub Answer : Type 0
Answer = CheckResult × Option Error

-- The data of the profile on each node that has it; nodes whose data cannot be read are skipped.
unfoldable pub node_states : Codec → String → List Node → Assoc ProfileData → Assoc ProfileData
node_states json profile [] states = states
node_states json profile (node ∷ nodes) states =
    node_states json profile nodes (elim (parse_data json (data_text node)) [
      | inl err ↦ states
      | inr d ↦ elim (get d.profiles profile) [
        | none ↦ states
        | some none ↦ states
        | some (some s) ↦ insert node.name s states
      ]
    ])

abbrev pub is_affinity_expression : Expression → Bool
is_affinity_expression e =
    str_eq e.key state_label_key
    && (str_eq e.operator "In"
        && (length e.values == 1 && any (λ v. str_eq v "operational") e.values))

unfoldable pub has_operational_affinity : Pod → Bool
has_operational_affinity pod = elim pod.preferred [
  | none ↦ false
  | some terms ↦ any (any is_affinity_expression) terms
]

abbrev pub is_in_state : String → Assoc ProfileData → String → Bool
is_in_state label states name = elim (lookup name states) [
  | none ↦ false
  | some d ↦ str_eq d.current label
]

unfoldable pub count_nodes : Assoc ProfileData → List Node → ℕ
count_nodes states [] = 0
count_nodes states (node ∷ nodes) =
    let rest = count_nodes states nodes in
    if is_in_state operational states node.name then suc rest else rest

abbrev pub affinity_of : Error ⊎ List Pod → Error ⊎ Bool
affinity_of (inl err) = inl err
affinity_of (inr pods) = inr (any has_operational_affinity pods)

module _ {E : Type 0} (api : Api E) where
  -- hasAffinityPod
  unfoldable pub has_affinity_pod : String → Run (World E) (Error ⊎ Bool)
  has_affinity_pod name = do pods ← on_ext (api.list_pods name); pure (affinity_of pods)

  abbrev pub affinity_error : World E → Error → Error
  affinity_error w err =
      wrapped ("failed to check if node " ++ (w.node.name ++ " has affinity pods")) err

  -- The rest of a round, once the pods of the other node are known.
  abbrev pub judge_found : String → Run (World E) Answer → Error ⊎ Bool → Run (World E) Answer
  judge_found name rest (inl err) w = (done (failed_with nil_map, some (affinity_error w err)), w)
  judge_found name rest (inr true) w = rest w
  judge_found name rest (inr false) w =
      (done (failed_with_reason ("pods without affinity on: " ++ name), none), w)

  -- The loop of checkOther.
  unfoldable pub check_nodes : Assoc ProfileData → List Node → Run (World E) Answer
  check_nodes states [] w = (done (passed_with nil_map, none), w)
  check_nodes states (node ∷ nodes) w =
      elim (str_eq node.name w.node.name || not (is_in_state required states node.name)) [
        | true ↦ check_nodes states nodes w
        | false ↦
            (do
              found ← has_affinity_pod node.name
              judge_found node.name (check_nodes states nodes) found)
              w
      ]

  unfoldable pub check_other : Assoc ProfileData → Run (World E) Answer
  unfolding check_nodes
  check_other states = do
    listed ← on_ext (api.list_nodes all_nodes)
    elim listed [
      | inl err ↦
          pure (failed_with nil_map, some (wrapped "failed to list nodes in the cluster" err))
      | inr nodes ↦ check_nodes states nodes
    ]

  -- From the pods of the evaluated node on.
  unfoldable pub check_pods : Assoc ProfileData → Run (World E) Answer
  unfolding check_other
  check_pods states w =
      (do
        found ← has_affinity_pod w.node.name
        elim found [
          | inl err ↦ λ v. (done (failed_with nil_map, some (affinity_error v err)), v)
          | inr false ↦ pure (passed_with_reason "no pods with affinity", none)
          | inr true ↦ check_other states
        ])
        w

  -- countOperational lists the nodes once more.
  unfoldable pub check_count : ℤ → Assoc ProfileData → Run (World E) Answer
  unfolding check_pods
  check_count min_operational states =
      if ltb_ℤ (pos 0) min_operational
      then (do
        listed ← on_ext (api.list_nodes all_nodes)
        elim listed [
          | inl err ↦ pure (failed_with nil_map, some err)
          | inr nodes ↦
              if leb_ℤ min_operational (pos (count_nodes states nodes))
              then pure (passed_with_reason "minOperational exceeded", none)
              else check_pods states
        ])
      else check_pods states

  unfoldable pub check_affinity : Codec → ℤ → Parameters → Run (World E) Answer
  unfolding check_count
  check_affinity json min_operational p =
      if not (str_eq p.state required)
      then (λ w. (
        done (
          failed_with nil_map,
          some (
              message (
                "affinity check plugin failed, node "
                ++ (w.node.name
                    ++ (" is not in maintenance-required but " ++ (p.state ++ " state"))))),
        ),
        w,
      ))
      else (do
        listed ← on_ext (api.list_nodes all_nodes)
        elim listed [
          | inl err ↦ pure (failed_with nil_map, some err)
          | inr nodes ↦ check_count min_operational (node_states json p.profile nodes [])
        ])

  unfoldable pub affinity : Codec → ℤ → Checker E
  unfolding check_affinity
  affinity json min_operational = record {
    id = "affinity";
    check = check_affinity json min_operational;
    on_transition = on_transition_nothing;
  }
