-- ===== src/Controllers/StateLabel.antt =====
-- UpdateMaintenanceStateLabel: the state that the node's label shows.
use Prim.Native.Nat.{max}
use maintenance_controller.Base.{
  ℕ, String, Bool, true, false, none, some, List, [], ◌∷◌, ◌≡◌, refl, ◌∙◌, ap, ◌==◌, sym, get,
  entries, make_if_nil, done, lookup-insert, insert, GoMap, nil_map, made, arith, str_eq, eq_iff,
  if◌then◌else◌,
}
use maintenance_controller.State.Labels.{operational, required, in_maintenance}
use maintenance_controller.State.Data.{Session}
use maintenance_controller.State.Profiles.{ProfileState}
use maintenance_controller.Controllers.Handler.{Config, node_labels, with_labels, state_label_key}
use maintenance_controller.Controllers.Evaluate.{
  has_state, label_for, write_label, update_state_label, states_of,
}

-- How severe a state is. A text that is no state counts as operational.
abbrev pub severity : String → ℕ
severity s = if str_eq s in_maintenance then 2 else if str_eq s required then 1 else 0

abbrev pub worst : {E : Type 0} → List (ProfileState E) → ℕ
worst [] = 0
worst (ps ∷ rest) = max (severity ps.state) (worst rest)

-- The state that has a severity.
abbrev pub state_of_severity : ℕ → String
state_of_severity n = if n == 2 then in_maintenance else if n == 1 then required else operational

-- The severity that the two tests of `label_for` amount to.
tested : Bool → Bool → ℕ
tested true b = 2
tested false true = 1
tested false false = 0

written : String → GoMap String → GoMap String
written label m = made (insert state_label_key label (entries m))

state_of_severity-tested :
    (a b : Bool)
    → (if a then in_maintenance else if b then required else operational)
      ≡ state_of_severity (tested a b)
unfolding tested
state_of_severity-tested true b = refl
state_of_severity-tested false true = refl
state_of_severity-tested false false = refl

module _ {E : Type 0} where
  worst-tested :
      (states : List (ProfileState E))
      → worst states ≡ tested (has_state in_maintenance states) (has_state required states)
  unfolding tested
  worst-tested [] = refl
  worst-tested (ps ∷ rest) =
      ground (arith, worst-tested rest, eq_iff ps.state in_maintenance, eq_iff ps.state required)

  -- The label is the most severe of the states of the node's profiles.
  label_for-worst :
      (states : List (ProfileState E)) → label_for states ≡ state_of_severity (worst states)
  unfolding label_for
  label_for-worst states =
      state_of_severity-tested _ _ ∙ ap state_of_severity (sym (worst-tested states))

  write_label-made :
      (label : String) (s : Session E) (m : GoMap String)
      → node_labels s ≡ make_if_nil m
      → write_label label s ≡ (done tt, with_labels (written label m) s)
  unfolding write_label written
  write_label-made label s nil_map e = rw (e, write_label)
  write_label-made label s (made m) e = rw (e, write_label)

  -- If the states of the profiles can be read, UpdateMaintenanceStateLabel returns without an
  -- error and without a panic; the state label is then in-maintenance if one of those states is that,
  -- else maintenance-required if one of them is that, and else operational. Every other label is as
  -- before, and nothing else changes.
  pub update_state_label_lem :
      (config : Config E) (s : Session E) (states : List (ProfileState E))
      → states_of config s ≡ done states
      → (m : GoMap String) × (shown : String) × (update_state_label config s
          ≡ (done none, with_labels m s))
        × (shown ≡ state_of_severity (worst states))
        × ((k : String)
            → get m k ≡ (if str_eq state_label_key k then some shown else get (node_labels s) k))
  unfolding update_state_label written
  update_state_label_lem config s states e =
      let label = label_for states in
      let m = node_labels s in
      (
        written label m,
        label,
        rw e (rw (write_label-made label (with_labels (make_if_nil m) s) m refl)),
        label_for-worst states,
        λ k. rw lookup-insert (ground arith),
      )
