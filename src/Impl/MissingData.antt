-- ===== src/Impl/MissingData.antt =====
-- maxMaintenance with a time to skip, and a node whose data does not hold the profile.
use maintenance_controller.Base.{
  String, Bool, true, false, none, List, [], ◌∷◌, ◌++◌ as append, All, ◌≡◌, refl, ◌≢◌, ◌∙◌, ap, inr,
  GoMap, get, panicked, eq_of_ne,
}
use maintenance_controller.GoTime.{Time}
use maintenance_controller.World.{Node}
use maintenance_controller.State.Data.{Data, Codec, parse_data}
use maintenance_controller.Controllers.Reconcile.{data_text}
use maintenance_controller.Impl.MaxMaintenance.{
  MaxMaintenance, keep, relevant, most_recent, node_recent, filter_recent, filtered,
  considered_labels, candidates, skips, check_max,
}
use maintenance_controller.Impl.Candidates.{counts, candidates-keep}

node_recent_panics :
    (json : Codec) (profile : String) (node : Node) (d : Data)
    → profile ≢ ""
    → parse_data json (data_text node) ≡ inr d
    → get d.profiles profile ≡ none
    → node_recent json profile node ≡ panicked
unfolding most_recent
node_recent_panics json profile node d named parsed missing =
    rw (parsed, node_recent) (rw (eq_of_ne profile "" named, missing, relevant) refl)

filter_recent_panics :
    (json : Codec) (m : MaxMaintenance) (now : Time) (node : Node) (nodes : List Node)
    → node_recent json m.profile node ≡ panicked
    → filter_recent json m.profile m.skip_after now (node ∷ nodes) ≡ panicked
unfolding filter_recent
filter_recent_panics json m now node nodes h = rw (h, filter_recent) refl

keep_none :
    {A : Type 0} (p : A → Bool) (xs ys : List A)
    → All (λ x. p x ≡ false) xs
    → keep p (append xs ys) ≡ keep p ys
unfolding keep
keep_none p [] ys h = refl
keep_none p (x ∷ xs) ys h = rw h.0 (keep_none p xs ys h.1)

-- If a profile and a time to skip are configured, and the first of the listed nodes that count for
-- the profile and the labels has data that does not hold the profile, maxMaintenance panics.
pub check_max_panics :
    (json : Codec) (m : MaxMaintenance) (own : GoMap String) (now : Time) (before : List Node)
    (node : Node) (nodes : List Node) (d : Data)
    → skips m ≡ true
    → m.profile ≢ ""
    → All (λ n. counts m own n ≡ false) before
    → counts m own node ≡ true
    → parse_data json (data_text node) ≡ inr d
    → get d.profiles m.profile ≡ none
    → check_max json m own now (append before (node ∷ nodes)) ≡ panicked
unfolding check_max keep
check_max_panics json m own now before node nodes d skipping named others counted parsed missing =
    let rest = keep (counts m own) nodes in
    let listed = append before (node ∷ nodes) in
    let first : candidates m own listed ≡ node ∷ rest =
      candidates-keep m own listed
      ∙ (keep_none (counts m own) before (node ∷ nodes) others ∙ rw counted refl) in
    let run : filter_recent json m.profile m.skip_after now (candidates m own listed) ≡ panicked =
      ap (filter_recent json m.profile m.skip_after now) first
      ∙ filter_recent_panics json m now node rest
          (node_recent_panics json m.profile node d named parsed missing) in
    rw (skipping, check_max) (ap (filtered m (considered_labels own m.group_by)) run)
