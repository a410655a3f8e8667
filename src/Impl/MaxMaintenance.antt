-- ===== src/Impl/MaxMaintenance.antt =====
-- plugin/impl/maxmaintenance.go: at most so many nodes in maintenance, by profile, group and time.
use Prim.Native.String.{◌++◌}
use maintenance_controller.Base.{
  String, Bool, false, ◌||◌, Option, none, some, List, [], ◌∷◌, ◌⊎◌, inl, inr, Assoc, GoMap,
  nil_map, made, get, entries, Run, Outcome, done, panicked, pure, ◌>>=◌, length, or_else, str_eq,
  if◌then◌else◌,
}
use maintenance_controller.Base.Int.{ℤ, pos, ltb_ℤ}
use maintenance_controller.Errors.{Error}
use maintenance_controller.GoTime.{Time, Duration, zero_time, after, sub_time}
use maintenance_controller.World.{Node, World, on_ext}
use maintenance_controller.Api.{Api, matching_label}
use maintenance_controller.Plugin.Check.{
  Checker, CheckResult, text_info, count_info, nanoseconds_info, passed_with, failed_with,
}
use maintenance_controller.State.Labels.{in_maintenance, contains_profile}
use maintenance_controller.State.Data.{ProfileData, Data, Codec, parse_data}
use maintenance_controller.Controllers.Handler.{profile_label_key, state_label_key}
use maintenance_controller.Controllers.Reconcile.{data_text}
use maintenance_controller.Impl.Labels.{on_transition_nothing}

pub record MaxMaintenance : Type 0 where
  pub max_nodes : ℤ
  pub profile : String
  pub group_by : List String
  pub skip_after : Duration

-- ok && state.ContainsProfile(profiles, m.Profile)
abbrev pub in_profile : String → Node → Bool
in_profile profile node = elim (get node.labels profile_label_key) [
  | none ↦ false
  | some profiles ↦ contains_profile profiles profile
]

unfoldable pub keep {ℓ} : {A : Type ℓ} → (A → Bool) → List A → List A
keep p [] = []
keep p (x ∷ xs) = let rest = keep p xs in if p x then x ∷ rest else rest

unfoldable pub filter_profile_name : String → List Node → List Node
unfolding keep
filter_profile_name profile nodes =
    if str_eq profile "" then nodes else keep (in_profile profile) nodes

abbrev pub has_value : String → String → Node → Bool
has_value label value node = elim (get node.labels label) [
  | none ↦ false
  | some val ↦ str_eq value val
]

unfoldable pub filter_group_label : String → String → List Node → List Node
unfolding keep
filter_group_label label value nodes =
    if str_eq label ""
    then nodes
    else if str_eq value ""
    then nodes
    else keep (has_value label value) nodes

-- The loop over GroupBy: only the labels that the evaluated node has are considered.
unfoldable pub filter_groups : GoMap String → List String → List Node → List Node
unfolding filter_group_label
filter_groups own [] nodes = nodes
filter_groups own (label ∷ labels) nodes = elim (get own label) [
  | none ↦ filter_groups own labels nodes
  | some value ↦ filter_groups own labels (filter_group_label label value nodes)
]

unfoldable pub considered_labels : GoMap String → List String → List String
considered_labels own [] = []
considered_labels own (label ∷ labels) =
    let rest = considered_labels own labels in
    elim (get own label) [ none ↦ rest | some value ↦ (label ++ ("=" ++ value)) ∷ rest ]

abbrev join_commas : List String → String
join_commas [] = ""
join_commas (s ∷ []) = s
join_commas (s ∷ t ∷ ss) = s ++ ("," ++ join_commas (t ∷ ss))

abbrev scope : List String → String
scope [] = "all nodes in the cluster"
scope (s ∷ ss) = "nodes matching the " ++ (join_commas (s ∷ ss) ++ " label selector")

-- The latest transition among the entries; data.Transition of a nil pointer panics.
unfoldable pub most_recent : Assoc (Option ProfileData) → Time → Outcome Time
most_recent [] latest = done latest
most_recent ((name, none) ∷ m) latest = panicked
most_recent ((name, some d) ∷ m) latest =
    most_recent m (if after d.transition latest then d.transition else latest)

-- A profile that the data does not hold reads as a nil pointer.
abbrev pub relevant : String → Data → Assoc (Option ProfileData)
relevant profile d =
    if str_eq profile ""
    then entries d.profiles
    else (profile, or_else (get d.profiles profile) none) ∷ []

-- The outcome of a filter with an error: a panic, an error, or the nodes.
abbrev pub Filtered : Type 0
Filtered = Outcome (Error ⊎ List Node)

abbrev pub node_recent : Codec → String → Node → Outcome (Error ⊎ Time)
node_recent json profile node = elim (parse_data json (data_text node)) [
  | inl err ↦ done (inl err)
  | inr d ↦ elim (most_recent (relevant profile d) zero_time) [
    | panicked ↦ panicked
    | done t ↦ done (inr t)
  ]
]

abbrev pub add_node : Bool → Node → Filtered → Filtered
add_node recent node panicked = panicked
add_node recent node (done (inl err)) = done (inl err)
add_node recent node (done (inr nodes)) = done (inr (if recent then node ∷ nodes else nodes))

-- filterRecentTransition, with the time that time.Since reads taken once for all nodes
unfoldable pub filter_recent : Codec → String → Duration → Time → List Node → Filtered
unfolding most_recent
filter_recent json profile skip_after now [] = done (inr [])
filter_recent json profile skip_after now (node ∷ nodes) =
    let rest = filter_recent json profile skip_after now nodes in
    elim (node_recent json profile node) [
      | panicked ↦ panicked
      | done (inl err) ↦ done (inl err)
      | done (inr t) ↦ add_node (ltb_ℤ (sub_time now t) skip_after) node rest
    ]

-- The end of checkInternal.
unfoldable pub judge_count : MaxMaintenance → List String → List Node → CheckResult
judge_count m labels nodes =
    let info = made (
      ("scope", text_info (scope labels))
      ∷ ("maintained", count_info (length nodes))
      ∷ ("max", nanoseconds_info (m.max_nodes ∷ []))
      ∷ []) in
    if ltb_ℤ (pos (length nodes)) m.max_nodes then passed_with info else failed_with info

abbrev pub judged : MaxMaintenance → List String → Error ⊎ List Node → CheckResult × Option Error
judged m labels (inl err) = (failed_with nil_map, some err)
judged m labels (inr nodes) = (judge_count m labels nodes, none)

-- The two filters that cannot fail.
abbrev pub candidates : MaxMaintenance → GoMap String → List Node → List Node
candidates m own nodes = filter_groups own m.group_by (filter_profile_name m.profile nodes)

abbrev pub filtered : MaxMaintenance → List String → Filtered → Outcome (CheckResult × Option Error)
filtered m labels panicked = panicked
filtered m labels (done r) = done (judged m labels r)

-- int64(m.SkipAfter) != 0
abbrev pub skips : MaxMaintenance → Bool
skips m = ltb_ℤ m.skip_after (pos 0) || ltb_ℤ (pos 0) m.skip_after

-- checkInternal, at the time `now`
unfoldable pub check_max :
    Codec → MaxMaintenance → GoMap String → Time → List Node → Outcome (CheckResult × Option Error)
unfolding judge_count
check_max json m own now nodes =
    let labels = considered_labels own m.group_by in
    if skips m
    then filtered m labels (filter_recent json m.profile m.skip_after now (candidates m own nodes))
    else done (judge_count m labels (candidates m own nodes), none)

abbrev listed :
    {E : Type 0}
    → Api E
    → Codec
    → MaxMaintenance
    → Error ⊎ List Node
    → Run (World E) (CheckResult × Option Error)
listed api json m (inl err) = pure (failed_with nil_map, some err)
listed api json m (inr nodes) = do
  now ← on_ext api.now
  λ w. (check_max json m w.node.labels now nodes, w)

unfoldable pub max_maintenance : {E : Type 0} → Api E → Codec → MaxMaintenance → Checker E
unfolding check_max
max_maintenance api json m = record {
  id = "maxMaintenance";
  check = λ p. (do
    nodes ← on_ext (api.list_nodes (matching_label state_label_key in_maintenance))
    listed api json m nodes);
  on_transition = on_transition_nothing;
}
