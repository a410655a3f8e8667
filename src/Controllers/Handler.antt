-- ===== src/Controllers/Handler.antt =====
-- controllers/node_handler.go: the handlers that evaluate all profiles of one node.
use maintenance_controller.Base.{
  ℕ, String, Bool, true, false, Option, none, some, List, [], ◌∷◌, ◌⊎◌, inl, inr, Assoc, lookup,
  insert, GoMap, get, put, make_if_nil, or_else, Run, Outcome, done, panicked, pure, panic, ◌>>=◌,
  ◌>>◌, modify, gets, zoom, not, str_eq, contains, if◌then◌else◌,
}
use maintenance_controller.Errors.{Error, wrapped, is_retry}
use maintenance_controller.GoTime.{Time, zero_time}
use maintenance_controller.World.{Parameters, Platform, on_ext}
use maintenance_controller.State.Labels.{in_maintenance}
use maintenance_controller.State.Data.{ProfileData, Session, profile_entry, in_world, stored}
use maintenance_controller.State.Profiles.{
  Profile, ProfileState, PluginChains, no_chains, pointed, with_profiles, maintain_profile_states,
}
use maintenance_controller.State.Apply.{NodeState, from_label, label_of, apply}
use maintenance_controller.Cache.{ProfileResult, NodeInfoCache}

abbrev pub profile_label_key : String
profile_label_key = "cloud.sap/maintenance-profile"

abbrev pub state_label_key : String
state_label_key = "cloud.sap/maintenance-state"

abbrev pub log_details_label_key : String
log_details_label_key = "cloud.sap/maintenance-log-details"

-- What a reconciliation changes: the node's data and the world, and the dashboard's cache.
pub record Frame (E : Type 0) : Type 0 where
  pub session : Session E
  pub cache : NodeInfoCache

-- controllers.Config, without the registry that built the profiles
pub record Config (E : Type 0) : Type 0 where
  pub requeue_interval : ℕ
  pub profiles : Assoc (Profile E)
  pub dashboard_label_filter : List String

abbrev pub in_session : {E A : Type 0} → Run (Session E) A → Run (Frame E) A
in_session = zoom (λ f. f.session) (λ s f. record f { session = s })

abbrev pub node_labels : {E : Type 0} → Session E → GoMap String
node_labels s = s.world.node.labels

abbrev pub profiles_str : {E : Type 0} → Session E → String
profiles_str s = or_else (get (node_labels s) profile_label_key) ""

abbrev pub with_labels : {E : Type 0} → GoMap String → Session E → Session E
with_labels m s = record s { world = record s.world { node = record s.world.node { labels = m } } }

-- What the first loop of ApplyProfiles collects.
pub record Progress : Type 0 where
  pub results : List ProfileResult
  pub errors : List Error
  -- profilesWithRetryError
  pub retrying : List String

abbrev pub no_progress : Progress
no_progress = record { results = []; errors = []; retrying = [] }

-- The error of FromLabel, or the result of Apply with its error.
abbrev pub Attempt : Type 0
Attempt = Error ⊎ (ProfileResult × Option Error)

abbrev pub add_applied_error : String → Option Error → Progress → Progress
add_applied_error name none r = r
add_applied_error name (some err) r =
    if is_retry err
    then record r { retrying = name ∷ r.retrying }
    else record r { errors = err ∷ r.errors }

unfoldable pub add_attempt : String → Attempt → Progress → Progress
add_attempt name (inl err) r = record r {
  errors = wrapped "failed to create internal state from unknown label value" err ∷ r.errors;
}
add_attempt name (inr (result, err)) r =
    let r' = add_applied_error name err r in record r' { results = result ∷ r'.results }

-- The new data of a profile whose evaluation gave `result`.
abbrev pub moved : Time → String → ProfileResult → ProfileData → ProfileData
moved now state result d =
    if not (str_eq state result.applied.next)
    then record { transition = now; current = result.applied.next; previous = result.state }
    else record d { previous = result.state }

unfoldable pub filter_node_labels : GoMap String → List String → Assoc String
filter_node_labels labels [] = []
filter_node_labels labels (key ∷ keys) =
    let rest = filter_node_labels labels keys in
    elim (get labels key) [ none ↦ rest | some val ↦ insert key val rest ]

module _ {E : Type 0} where
  unfoldable pub ensure_label_map : Run (Session E) (Option Error)
  ensure_label_map s = (done none, with_labels (make_if_nil (node_labels s)) s)

  unfoldable pub maintain_states : Platform E → Config E → Run (Session E) (Option Error)
  maintain_states io config = do
    labels ← gets profiles_str
    maintain_profile_states io labels config.profiles
    pure none

  unfoldable pub any_in_maintenance : List (ProfileState E) → Bool
  any_in_maintenance [] = false
  any_in_maintenance (ps ∷ rest) =
      if str_eq ps.state in_maintenance then true else any_in_maintenance rest

  abbrev pub parameters_for : Session E → ProfileState E → Bool → ProfileData → Parameters
  parameters_for s ps busy d = record {
    state = ps.state;
    profile = ps.profile.name;
    in_maintenance = busy;
    log_details = str_eq (or_else (get (node_labels s) log_details_label_key) "") "true";
    last_transition = d.transition;
  }

  abbrev pub chains_for : ProfileState E → PluginChains E
  chains_for ps = or_else (lookup ps.state ps.profile.chains) no_chains

  unfoldable pub apply_state :
      Platform E
      → Bool
      → ProfileState E
      → NodeState E
      → Outcome ProfileData
      → Run (Session E) Attempt
  apply_state io busy ps state panicked s = (panicked, s)
  apply_state io busy ps state (done d) s =
      (do
        answer ← apply io state (parameters_for s ps busy d)
        pure (
            inr (
              record { applied = answer.0; name = ps.profile.name; state = label_of state },
              answer.1,
            )))
        s

  unfoldable pub attempt_state :
      Platform E → Bool → ProfileState E → Error ⊎ NodeState E → Run (Session E) Attempt
  unfolding apply_state
  attempt_state io busy ps (inl err) s = (done (inl err), s)
  attempt_state io busy ps (inr state) s =
      apply_state io busy ps state (pointed (profile_entry s.data_of ps.profile.name)) s

  -- The body of the first loop.
  unfoldable pub attempt : Platform E → Bool → ProfileState E → Run (Session E) Attempt
  attempt io busy ps = do
    in_world (modify (λ w. record w { ext = io.touch_shuffles w.node ps.profile.name w.ext }))
    attempt_state io busy ps (from_label ps.state (chains_for ps))

  -- The first loop, over the rest of the profiles of the node, which are `states`.
  unfoldable pub attempt_all :
      Platform E → List (ProfileState E) → List (ProfileState E) → Run (Session E) Progress
  unfolding any_in_maintenance
  attempt_all io states [] = pure no_progress
  attempt_all io states (ps ∷ rest) = do
    answer ← attempt io (any_in_maintenance states) ps
    progress ← attempt_all io states rest
    pure (add_attempt ps.profile.name answer progress)

  -- The body of the second loop, once the profile is known not to be retried.
  unfoldable pub commit_profile :
      Platform E → ProfileState E → ProfileResult → Outcome ProfileData → Run (Session E) (Unit {0})
  commit_profile io ps result panicked = panic
  commit_profile io ps result (done d) = do
    now ←
        (if not (str_eq ps.state result.applied.next)
          then in_world (on_ext io.now)
          else pure zero_time)
    λ s.
        stored (with_profiles s.data_of)
          (put ps.profile.name (some (moved now ps.state result d)) s.data_of.profiles) s

  unfoldable pub commit_all :
      Platform E
      → List String
      → List (ProfileState E)
      → List ProfileResult
      → Run (Session E) (Unit {0})
  commit_all io retrying [] results = pure tt
  commit_all io retrying (ps ∷ rest) [] =
      -- profileResults[i] is out of range
      if contains retrying ps.profile.name then commit_all io retrying rest [] else panic
  commit_all io retrying (ps ∷ rest) (result ∷ results) = do
    (if contains retrying ps.profile.name then pure tt else λ s.
        commit_profile io ps result (pointed (profile_entry s.data_of ps.profile.name)) s)
    commit_all io retrying rest results
