-- ===== src/Plugin/Chains.antt =====
-- The chains of plugin/trigger.go and plugin/check.go: which plugins run, and in what order.
use maintenance_controller.Base.{
  Bool, true, false, Option, none, some, List, [], ◌∷◌, ◌++◌, ◌≡◌, arith, refl, ◌∙◌, sym, Run,
  Outcome, done, panicked, ◌>>◌, pure, resume, is_some, ◌⊎◌, inl, inr, Bool-cases, not, ◌&&◌,
}
use maintenance_controller.Errors.{Error}
use maintenance_controller.World.{World, Parameters}
use maintenance_controller.Plugin.Trigger.{TriggerInstance, trigger_failed, run_triggers}
use maintenance_controller.Plugin.Check.{
  CheckInstance, CheckChain, CheckChainResult, Evaluable, Tally, no_tally, tally_check, run_checks,
  evaluate, conclude, execute_checks, chain_result, is_empty,
}

module _ {E : Type 0} where
  -- A chain of triggers, and then another one unless it failed.
  abbrev pub then_run :
      List (TriggerInstance E) → Parameters → Option Error → Run (World E) (Option Error)
  then_run ys p none = run_triggers ys p
  then_run ys p (some err) = pure (some err)

  after_trigger :
      (x : TriggerInstance E) (xs ys : List (TriggerInstance E)) (p : Parameters)
      (r : Outcome (Option Error) × World E)
      → ((w : World E) → run_triggers (xs ++ ys) p w ≡ resume (run_triggers xs p w) (then_run ys p))
      → resume r (elim [
        | none ↦ run_triggers (xs ++ ys) p
        | some err ↦ pure (some (trigger_failed x.name err))
      ])
        ≡ resume
            (resume r (elim [
              | none ↦ run_triggers xs p
              | some err ↦ pure (some (trigger_failed x.name err))
            ]))
            (then_run ys p)
  after_trigger x xs ys p (panicked, w) h = refl
  after_trigger x xs ys p (done none, w) h = h w
  after_trigger x xs ys p (done (some err), w) h = refl

  -- A chain of triggers in two parts runs the first part, and the second one only if no trigger of
  -- the first part failed; the error of the first part is the error of the whole.
  pub run_triggers-append :
      (xs ys : List (TriggerInstance E)) (p : Parameters) (w : World E)
      → run_triggers (xs ++ ys) p w ≡ resume (run_triggers xs p w) (then_run ys p)
  unfolding run_triggers
  run_triggers-append [] ys p w = refl
  run_triggers-append (x ∷ xs) ys p w =
      after_trigger x xs ys p (x.plugin.trigger p w) (run_triggers-append xs ys p)

  -- Every check in turn, whatever it answers.
  abbrev pub visit_all : List (CheckInstance E) → Parameters → Run (World E) (Unit {0})
  visit_all [] p = pure tt
  visit_all (c ∷ cs) p = do c.plugin.check p; visit_all cs p

  -- A run that ended as another one did, panic or not, with the same world.
  abbrev pub SameEnd : {A B : Type 0} → Outcome A × World E → Outcome B × World E → Type 0
  SameEnd (done a, w) (done b, v) = w ≡ v
  SameEnd (panicked, w) (panicked, v) = w ≡ v
  SameEnd (done a, w) (panicked, v) = ⊥
  SameEnd (panicked, w) (done b, v) = ⊥

  after_check :
      {A : Type 0} (r : Outcome A × World E) (f : A → Run (World E) Tally)
      (g : Run (World E) (Unit {0}))
      → ((a : A) (w : World E) → SameEnd (f a w) (g w))
      → SameEnd (resume r f) (resume r (λ _. g))
  after_check (done a, w) f g h = h a w
  after_check (panicked, w) f g h = refl

  run_checks-visits :
      (cs : List (CheckInstance E)) (p : Parameters) (t : Tally) (w : World E)
      → SameEnd (run_checks cs p t w) (visit_all cs p w)
  unfolding run_checks
  run_checks-visits [] p t w = refl
  run_checks-visits (c ∷ cs) p t w =
      after_check (c.plugin.check p w) _ (visit_all cs p)
        (λ answer v. run_checks-visits cs p (tally_check c.plugin.id c.name answer t) v)

  conclude-world : (chain : CheckChain E) (t : Tally) (w : World E) → (conclude chain t w).1 ≡ w
  unfolding conclude evaluate
  conclude-world chain t w = elim (Bool-cases (is_empty t.failed_instances)) [
    | inr n ↦ rw n refl
    | inl y ↦ rw y (go chain.evaluable)
  ]
    where
      judged :
          (r : Error ⊎ Bool)
          → (elim r as (λ _. Run (World E) (CheckChainResult × Option Error)) [
            | inl err ↦ pure (chain_result chain false t.infos, some err)
            | inr passed ↦ pure (chain_result chain passed t.infos, none)
          ]
              w).1
            ≡ w
      judged (inl err) = refl
      judged (inr passed) = refl

      go : (eval : Option Evaluable) → (evaluate chain eval t w).1 ≡ w
      go none = refl
      go (some eval) = judged (eval t.eval_params)

  concluded :
      (chain : CheckChain E) (r : Outcome Tally × World E) (v : Outcome (Unit {0}) × World E)
      → SameEnd r v
      → (resume r (conclude chain)).1 ≡ v.1
  concluded chain (done t, w) (done u, v) h = conclude-world chain t w ∙ h
  concluded chain (panicked, w) (panicked, v) h = h
  concluded chain (done t, w) (panicked, v) h = absurd h
  concluded chain (panicked, w) (done u, v) h = absurd h

  nothing_to_visit :
      (cs : List (CheckInstance E)) (p : Parameters) (w : World E)
      → is_empty cs ≡ true
      → (visit_all cs p w).1 ≡ w
  nothing_to_visit [] p w h = refl
  nothing_to_visit (c ∷ cs) p w h = cc

  -- A check chain runs every one of its checks, in order and whatever the checks before answered or
  -- failed with, up to a panic; nothing else of it changes the world.
  pub execute_checks-visits :
      (chain : CheckChain E) (p : Parameters) (w : World E)
      → (execute_checks chain p w).1 ≡ (visit_all chain.plugins p w).1
  unfolding execute_checks
  execute_checks-visits chain p w =
      elim (Bool-cases (not (is_some chain.evaluable) && is_empty chain.plugins)) [
        | inl y ↦ rw y (sym (nothing_to_visit chain.plugins p w (ground arith)))
        | inr n ↦ rw n (
            concluded chain (run_checks chain.plugins p no_tally w) _
              (run_checks-visits chain.plugins p no_tally w))
      ]
