-- ===== src/State/Frame.antt =====
-- Apply and MaintainProfileStates: what they leave alone.
use maintenance_controller.Base.{
  String, true, false, Option, none, some, List, [], ◌∷◌, ◌≡◌, refl, ◌∙◌, Assoc, GoMap, made,
  nil_map, get, resume-keeps, Bool-cases, Option-cases, insert, inl, inr, arith, str_eq,
}
use maintenance_controller.Errors.{Error}
use maintenance_controller.GoTime.{Time, zero_time}
use maintenance_controller.World.{World, Parameters, Platform}
use maintenance_controller.Plugin.Notification.{Scheduler, NotificationInstance, should_notify}
use maintenance_controller.State.Data.{ProfileData, Data, Session, profile_entry}
use maintenance_controller.State.Sessions.{in_world-keeps}
use maintenance_controller.State.Transition.{TransitionsResult}
use maintenance_controller.State.Notify.{
  set_notified, init_notified, after_notify, notify_params, notify_scheduled_instance,
  notify_profile, notify_instance, notify_instances, notify_default,
}
use maintenance_controller.State.Apply.{
  NodeState, label_of, chains_of, enter, trigger, transition, notify, transition_error,
  finish_trigger, finish_transition, finish_notify, finish_enter, evaluate_state, apply_entry,
  apply,
}

-- A view of the data that does not depend on what a made map of notifications holds.
module _ {V E : Type 0} (view : Data → V)
    (same : (ps : GoMap (Option ProfileData)) (x y : Assoc Time)
      → view (record { profiles = ps; notifications = made x })
        ≡ view (record { profiles = ps; notifications = made y }))
    (io : Platform E) (p : Parameters) where
  abbrev view_of : Session E → V
  view_of s = view s.data_of

  set_notified_at :
      (name : String) (t : Time) (ps : GoMap (Option ProfileData)) (m : GoMap Time) (w : World E)
      → let s : Session E = record {
        data_of = record { profiles = ps; notifications = m };
        world = w;
      } in
        view_of (set_notified name t s).1 ≡ view (record { profiles = ps; notifications = m })
  unfolding set_notified
  set_notified_at name t ps nil_map w = refl
  set_notified_at name t ps (made x) w = same ps (insert name t x) x

  set_notified-keeps :
      (name : String) (t : Time) (s : Session E) → view_of (set_notified name t s).1 ≡ view_of s
  set_notified-keeps name t s =
      set_notified_at name t s.data_of.profiles s.data_of.notifications s.world

  init_notified-keeps :
      (name : String) (s : Session E) → view_of (init_notified name s).1 ≡ view_of s
  unfolding init_notified
  init_notified-keeps name s = elim (Option-cases (get s.data_of.notifications name)) [
    | inl e ↦ rw (e, init_notified) (set_notified-keeps name zero_time s)
    | inr (t, e) ↦ rw (e, init_notified) refl
  ]

  after_notify-keeps :
      (name : String) (t : Time) (answer : Option Error) (s : Session E)
      → view_of (after_notify name t answer s).1 ≡ view_of s
  unfolding after_notify
  after_notify-keeps name t (some err) s = refl
  after_notify-keeps name t none s =
      resume-keeps view_of (set_notified name t s) _ _ (set_notified-keeps name t s) (λ a u h. h)

  notify_scheduled_instance-keeps :
      (n : NotificationInstance E) (schedule : Scheduler) (d : ProfileData) (now : Time)
      (s : Session E)
      → view_of (notify_scheduled_instance io p n schedule d now s).1 ≡ view_of s
  unfolding notify_scheduled_instance
  notify_scheduled_instance-keeps n schedule d now s =
      in_world-keeps view_of (should_notify io schedule (notify_params s n.name d now) s.world) s _
        _ (λ w. refl)
        (elim [
          | false ↦ λ w. refl
          | true ↦ λ w.
              in_world-keeps view_of (n.plugin.notify p w) (record s { world = w }) _ _ (λ v. refl)
                (λ answer v. after_notify-keeps n.name now answer (record s { world = v }))
        ])

  notify_profile-keeps :
      (n : NotificationInstance E) (schedule : Scheduler) (entry : Option (Option ProfileData))
      (now : Time) (s : Session E)
      → view_of (notify_profile io p n schedule entry now s).1 ≡ view_of s
  unfolding notify_profile
  notify_profile-keeps n schedule none now s = refl
  notify_profile-keeps n schedule (some none) now s = refl
  notify_profile-keeps n schedule (some (some d)) now s =
      notify_scheduled_instance-keeps n schedule d now s

  notify_instance-keeps :
      (n : NotificationInstance E) (schedule : Option Scheduler) (s : Session E)
      → view_of (notify_instance io p n schedule s).1 ≡ view_of s
  unfolding notify_instance
  notify_instance-keeps n none s = refl
  notify_instance-keeps n (some schedule) s =
      resume-keeps view_of (init_notified n.name s) _ _ (init_notified-keeps n.name s) (λ a u h.
        notify_profile-keeps n schedule _ _
          (record u { world = record u.world { ext = (io.now u.world.ext).1 } })
        ∙ h)

  notify_instances-keeps :
      (ns : List (NotificationInstance E)) (s : Session E)
      → view_of (notify_instances io p ns s).1 ≡ view_of s
  unfolding notify_instances
  notify_instances-keeps [] s = refl
  notify_instances-keeps (n ∷ ns) s =
      resume-keeps view_of (notify_instance io p n n.schedule s) _ _
        (notify_instance-keeps n n.schedule s)
        (elim [ none ↦ λ u h. notify_instances-keeps ns u ∙ h | some err ↦ λ u h. h ])

  finish_trigger-keeps :
      (state : NodeState E) (ts : TransitionsResult) (answer : Option Error) (s : Session E)
      → view_of (finish_trigger io state p ts answer s).1 ≡ view_of s
  unfolding finish_trigger transition_error
  finish_trigger-keeps state ts none s = refl
  finish_trigger-keeps state ts (some err) s = refl

  finish_transition-keeps :
      (state : NodeState E) (answer : TransitionsResult × Option Error) (s : Session E)
      → view_of (finish_transition io state p answer s).1 ≡ view_of s
  unfolding finish_transition transition_error
  finish_transition-keeps state (ts, some err) s = refl
  finish_transition-keeps state (ts, none) s = elim (Bool-cases (str_eq ts.next (label_of state))) [
    | inl same ↦ rw same
    | inr other ↦ rw other (
        in_world-keeps view_of (trigger state p ts.next s.world) s _ _ (λ w. refl)
          (λ answer w. finish_trigger-keeps state ts answer (record s { world = w })))
  ]

  finish_notify-keeps :
      (state : NodeState E) (answer : Option Error) (s : Session E)
      → view_of (finish_notify io state p answer s).1 ≡ view_of s
  unfolding finish_notify transition_error
  finish_notify-keeps state (some err) s = refl
  finish_notify-keeps state none s =
      in_world-keeps view_of (transition state p s.world) s _ _ (λ w. refl)
        (λ answer w. finish_transition-keeps state answer (record s { world = w }))

  evaluate_state-keeps :
      (state : NodeState E) (s : Session E) → view_of (evaluate_state io state p s).1 ≡ view_of s
  unfolding evaluate_state notify notify_default
  evaluate_state-keeps state s =
      let ns = (chains_of state).notification.plugins in
      resume-keeps view_of (notify_instances io p ns s) _ _ (notify_instances-keeps ns s)
        (λ answer u h. finish_notify-keeps state answer u ∙ h)

  finish_enter-keeps :
      (state : NodeState E) (answer : Option Error) (s : Session E)
      → view_of (finish_enter io state p answer s).1 ≡ view_of s
  unfolding finish_enter transition_error
  finish_enter-keeps state none s = evaluate_state-keeps state s
  finish_enter-keeps state (some err) s = ground arith

  apply_entry-keeps :
      (state : NodeState E) (entry : Option (Option ProfileData)) (s : Session E)
      → view_of (apply_entry io state p entry s).1 ≡ view_of s
  unfolding apply_entry
  apply_entry-keeps state none s = refl
  apply_entry-keeps state (some none) s = refl
  apply_entry-keeps state (some (some d)) s = elim (Bool-cases (str_eq d.previous d.current)) [
    | inl same ↦ rw same (evaluate_state-keeps state s)
    | inr other ↦ rw other (
        in_world-keeps view_of (enter io state p s.world) s _ _ (λ w. refl)
          (λ answer w. finish_enter-keeps state answer (record s { world = w })))
  ]

  pub apply-keeps :
      (state : NodeState E) (s : Session E) → view_of (apply io state p s).1 ≡ view_of s
  unfolding apply
  apply-keeps state s = apply_entry-keeps state (profile_entry s.data_of p.profile) s

module _ {E : Type 0} (io : Platform E) (state : NodeState E) (p : Parameters) where
  -- Apply never changes the profiles' data, whatever it returns and also if it panics: the caller
  -- alone moves a profile to its next state.
  pub apply-profiles :
      (s : Session E) → (apply io state p s).1.data_of.profiles ≡ s.data_of.profiles
  apply-profiles s = apply-keeps (λ d. d.profiles) (λ ps x y. refl) io p state s
