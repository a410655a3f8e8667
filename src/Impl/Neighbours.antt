-- ===== src/Impl/Neighbours.antt =====
-- affinity: which other nodes hold a node back.
use Prim.Native.String.{◌++◌}
use maintenance_controller.Base.{
  String, Bool, false, Option, some, ◌++◌ as append, Option-cases, arith, not, ◌&&◌, ◌||◌, none,
  List, [], ◌∷◌, ◌≡◌, refl, ◌∙◌, ◌⊎◌, inl, inr, Assoc, done, any, Bool-cases, str_eq, ap, sym,
  nil_map, resume,
}
use maintenance_controller.Errors.{Error}
use maintenance_controller.World.{Node, World}
use maintenance_controller.Api.{Api, Pod, Expression}
use maintenance_controller.Plugin.Check.{CheckResult, passed_with, failed_with_reason}
use maintenance_controller.State.Labels.{required}
use maintenance_controller.State.Data.{ProfileData}
use maintenance_controller.Impl.Affinity.{
  has_operational_affinity, is_affinity_expression, is_in_state, affinity_of, judge_found,
  has_affinity_pod, check_nodes,
}

-- What the API server answers for the pods of each node.
abbrev pub Answers : Type 0
Answers = String → Error ⊎ List Pod

abbrev is_operational_only : List String → Bool
is_operational_only [] = false
is_operational_only (v ∷ []) = str_eq v "operational"
is_operational_only (v ∷ u ∷ vs) = false

-- The expression asks for nodes with the label cloud.sap/maintenance-state=operational.
abbrev pub asks_operational : Expression → Bool
asks_operational e =
    (str_eq e.key "cloud.sap/maintenance-state" && str_eq e.operator "In")
    && is_operational_only e.values

abbrev flattened : List (List Expression) → List Expression
flattened [] = []
flattened (term ∷ terms) = append term (flattened terms)

-- Some preferred term of the pod has such an expression.
abbrev pub prefers_operational : Option (List (List Expression)) → Bool
prefers_operational none = false
prefers_operational (some terms) = any asks_operational (flattened terms)

abbrev pub has_affinity : Error ⊎ List Pod → Bool
has_affinity (inl err) = false
has_affinity (inr pods) = any (λ pod. prefers_operational pod.preferred) pods

-- A node other than the evaluated one that is to be maintained too, without a pod of the kind.
abbrev pub holds_back : Answers → Assoc ProfileData → String → Node → Bool
holds_back answers states own node =
    not (str_eq node.name own || not (is_in_state required states node.name))
    && not (has_affinity (answers node.name))

is_affinity_expression_lem : (e : Expression) → is_affinity_expression e ≡ asks_operational e
is_affinity_expression_lem e = by_values e.values
  where
    by_values :
        (vs : List String)
        → is_affinity_expression (record e { values = vs })
          ≡ asks_operational (record e { values = vs })
    by_values [] = ground arith
    by_values (v ∷ []) = ground arith
    by_values (v ∷ u ∷ vs) = ground arith

any-append :
    {A : Type 0} (p : A → Bool) (xs ys : List A) → any p (append xs ys) ≡ (any p xs || any p ys)
any-append p [] ys = refl
any-append p (x ∷ xs) ys = ground (arith, any-append p xs ys)

any-flattened :
    (terms : List (List Expression))
    → any (any is_affinity_expression) terms ≡ any asks_operational (flattened terms)
any-flattened [] = refl
any-flattened (term ∷ terms) =
    let same : any is_affinity_expression term ≡ any asks_operational term =
      ap (λ p. any p term) (λ i e. is_affinity_expression_lem e i) in
    ground (arith, any-flattened terms, any-append asks_operational term (flattened terms))

has_operational_affinity_lem :
    (pod : Pod) → has_operational_affinity pod ≡ prefers_operational pod.preferred
unfolding has_operational_affinity
has_operational_affinity_lem pod = elim (Option-cases pod.preferred) [
  | inl e ↦ rw e refl
  | inr (terms, e) ↦ rw e (any-flattened terms)
]

any_affinity :
    (pods : List Pod)
    → any has_operational_affinity pods ≡ any (λ pod. prefers_operational pod.preferred) pods
any_affinity pods = ap (λ p. any p pods) (λ i pod. has_operational_affinity_lem pod i)

module _ {E : Type 0} (api : Api E) (answers : Answers) (Stable : E → Type 0)
    (stable : (name : String) (e : E)
      → Stable e
      → ((api.list_pods name e).0 ≡ answers name) × Stable (api.list_pods name e).1)
    (states : Assoc ProfileData) where
  abbrev after_listing : String → World E → World E
  after_listing name w = record w { ext = (api.list_pods name w.ext).1 }

  has_affinity_pod_answers :
      (name : String) (w : World E)
      → Stable w.ext
      → has_affinity_pod api name w ≡ (done (affinity_of (answers name)), after_listing name w)
  unfolding has_affinity_pod
  has_affinity_pod_answers name w h = rw (stable name w.ext h).0 refl

  judge_found_passed :
      (node : Node) (rest : List Node) (own : String) (found : Error ⊎ List Pod) (w w' : World E)
      (res : CheckResult)
      → ((v' : World E)
          → check_nodes api states rest w ≡ (done (res, none), v')
          → res.passed ≡ not (any (holds_back answers states own) rest))
      → judge_found api node.name (check_nodes api states rest) (affinity_of found) w
        ≡ (done (res, none), w')
      → res.passed ≡ not (not (has_affinity found) || any (holds_back answers states own) rest)
  judge_found_passed node rest own (inl err) w w' res h e = cc
  judge_found_passed node rest own (inr pods) w w' res h e =
      elim (Bool-cases (any has_operational_affinity pods)) [
        | inl y ↦ rw (← any_affinity pods, y) (h w' (rw y at e))
        | inr n ↦
            (let same : failed_with_reason ("pods without affinity on: " ++ node.name) ≡ res =
                cc (rw n at e) in
              rw (← any_affinity pods, n) (ap (λ r. r.passed) (sym same)))
      ]

  -- If listing the pods of a node gives the same answer from the beginning of the check on, as long
  -- as nothing but such listings happens, and the check of the other nodes returns without an error,
  -- it passes exactly if no other node holds the evaluated one back: no other node whose profile is
  -- in the state maintenance-required and that has no pod that prefers nodes with the label
  -- cloud.sap/maintenance-state=operational.
  pub check_nodes_passed :
      (nodes : List Node) (w w' : World E) (res : CheckResult)
      → Stable w.ext
      → check_nodes api states nodes w ≡ (done (res, none), w')
      → res.passed ≡ not (any (holds_back answers states w.node.name) nodes)
  unfolding check_nodes has_affinity_pod
  check_nodes_passed [] w w' res start e =
      (let same : passed_with nil_map ≡ res = cc e in ap (λ r. r.passed) (sym same))
  check_nodes_passed (node ∷ nodes) w w' res start e =
      elim (Bool-cases
        (str_eq node.name w.node.name || not (is_in_state required states node.name))) [
          | inl y ↦ rw y (check_nodes_passed nodes w w' res start (rw (y, check_nodes) at e))
          | inr n ↦ rw n (
              judge_found_passed node nodes w.node.name (answers node.name)
                (after_listing node.name w) w' res
                (λ v' k.
                  check_nodes_passed nodes (after_listing node.name w) v' res
                    (stable node.name w.ext start).1 k)
                (ap (λ r. resume r (judge_found api node.name (check_nodes api states nodes)))
                    (sym (has_affinity_pod_answers node.name w start))
                  ∙ (rw (n, check_nodes) at e)))
        ]
