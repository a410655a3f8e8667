-- ===== src/Plugin/Check.antt =====
-- plugin/check.go: check plugins, and the chain that runs them and evaluates its expression.
use Prim.Native.String.{◌++◌}
use maintenance_controller.Base.{
  ℕ, String, Bool, true, false, not, ◌&&◌, Option, none, some, List, [], ◌∷◌, ◌⊎◌, inl, inr, Assoc,
  insert, GoMap, made, entries, Run, pure, panic, ◌>>=◌, is_some, if◌then◌else◌,
}
use maintenance_controller.Base.Int.{ℤ}
use maintenance_controller.Errors.{Error, message, error_text}
use maintenance_controller.World.{World, Parameters}

-- The values of `map[string]any` that the checks put into their results.
pub data InfoValue : Type 0 where
  text_info : String → InfoValue
  count_info : ℕ → InfoValue
  nanoseconds_info : List ℤ → InfoValue

pub record CheckResult : Type 0 where
  pub id : String
  pub passed : Bool
  pub info : GoMap InfoValue

abbrev pub passed_with : GoMap InfoValue → CheckResult
passed_with info = record { id = ""; passed = true; info = info }

abbrev pub reason : String → GoMap InfoValue
reason s = made (("reason", text_info s) ∷ [])

abbrev pub passed_with_reason : String → CheckResult
passed_with_reason s = record { id = ""; passed = true; info = reason s }

abbrev pub failed_with : GoMap InfoValue → CheckResult
failed_with info = record { id = ""; passed = false; info = info }

abbrev pub failed_with_reason : String → CheckResult
failed_with_reason s = record { id = ""; passed = false; info = reason s }

-- The interface Checker, without New, which the registry calls.
pub record Checker (E : Type 0) : Type 0 where
  pub id : String
  pub check : Parameters → Run (World E) (CheckResult × Option Error)
  pub on_transition : Parameters → Run (World E) (Option Error)

pub record CheckInstance (E : Type 0) : Type 0 where
  pub plugin : Checker E
  pub name : String

pub record CheckChainResult : Type 0 where
  pub passed : Bool
  pub info : Assoc CheckResult
  pub expression : String

-- A compiled expression of package gval: the value of the expression, or an error.
abbrev pub Evaluable : Type 0
Evaluable = Assoc Bool → Error ⊎ Bool

pub record CheckChain (E : Type 0) : Type 0 where
  pub plugins : List (CheckInstance E)
  pub evaluable : Option Evaluable
  pub expression : String

-- The three variables of the loop: evalParams, infos and failedInstances.
pub record Tally : Type 0 where
  pub eval_params : Assoc Bool
  pub infos : Assoc CheckResult
  pub failed_instances : List String

abbrev pub no_tally : Tally
no_tally = record { eval_params = []; infos = []; failed_instances = [] }

abbrev snoc : List String → String → List String
snoc [] s = s ∷ []
snoc (t ∷ ts) s = t ∷ snoc ts s

-- The body of the loop, after the plugin has answered. A nil Info becomes an empty map.
unfoldable pub tally_check : String → String → CheckResult × Option Error → Tally → Tally
tally_check id name (result, none) t = record {
  eval_params = insert name result.passed t.eval_params;
  infos = insert name (record result { id = id; info = made (entries result.info) }) t.infos;
  failed_instances = t.failed_instances;
}
tally_check id name (result, some err) t = record {
  eval_params = insert name false t.eval_params;
  infos =
      insert name
        (record result {
          id = id;
          info = made (insert "error" (text_info (error_text err)) (entries result.info));
        })
        t.infos;
  failed_instances = snoc t.failed_instances name;
}

-- strings.Join(names, ", ")
abbrev pub join_names : List String → String
join_names [] = ""
join_names (n ∷ []) = n
join_names (n ∷ m ∷ ns) = n ++ (", " ++ join_names (m ∷ ns))

abbrev pub is_empty {ℓ} : {A : Type ℓ} → List A → Bool
is_empty [] = true
is_empty (x ∷ xs) = false

module _ {E : Type 0} where
  unfoldable pub run_checks : List (CheckInstance E) → Parameters → Tally → Run (World E) Tally
  run_checks [] p t = pure t
  run_checks (c ∷ cs) p t = do
    answer ← c.plugin.check p
    run_checks cs p (tally_check c.plugin.id c.name answer t)

  abbrev pub chain_result : CheckChain E → Bool → Assoc CheckResult → CheckChainResult
  chain_result chain passed info = record {
    passed = passed;
    info = info;
    expression = chain.expression;
  }

  -- chain.Evaluable.EvalBool: a call of a nil Evaluable panics.
  unfoldable pub evaluate :
      CheckChain E → Option Evaluable → Tally → Run (World E) (CheckChainResult × Option Error)
  evaluate chain none t = panic
  evaluate chain (some eval) t = elim (eval t.eval_params) [
    | inl err ↦ pure (chain_result chain false t.infos, some err)
    | inr passed ↦ pure (chain_result chain passed t.infos, none)
  ]

  unfoldable pub conclude : CheckChain E → Tally → Run (World E) (CheckChainResult × Option Error)
  unfolding evaluate
  conclude chain t =
      if is_empty t.failed_instances
      then evaluate chain chain.evaluable t
      else pure (
        chain_result chain false t.infos,
        some (message ("failed check instances: " ++ join_names t.failed_instances)),
      )

  -- CheckChain.Execute
  unfoldable pub execute_checks :
      CheckChain E → Parameters → Run (World E) (CheckChainResult × Option Error)
  execute_checks chain p =
      if not (is_some chain.evaluable) && is_empty chain.plugins
      then pure (chain_result chain true [], none)
      else do t ← run_checks chain.plugins p no_tally; conclude chain t
