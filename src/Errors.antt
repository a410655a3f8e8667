-- ===== src/Errors.antt =====
-- Go's error values as the program builds and inspects them: plugin/plugin.go (ChainError,
-- RetryError), fmt.Errorf with %w, and errors.Join.
use Prim.Native.String.{◌++◌}
use maintenance_controller.Base.{
  String, Bool, true, false, ◌||◌, List, [], ◌∷◌, ◌⊎◌, inl, inr, Option, none, some, Outcome,
  panicked, ◌≡◌, refl, ap, Run, done, resume, Ends, Ends-resume, Ends-all,
}

mutual
  pub data Error : Type 0 where
    -- errors.New, and fmt.Errorf with no %w
    message : String → Error
    -- *plugin.RetryError
    retry_error : String → Error
    -- *plugin.ChainError
    chain_error : String → Error → Error
    -- fmt.Errorf("…: %w", err)
    wrapped : String → Error → Error
    -- errors.Join
    joined : Errors → Error
    -- an error of the API server that k8serrors.IsNotFound recognises
    not_found : String → Error

  pub data Errors : Type 0 where
    no_more : Errors
    more : Error → Errors → Errors

-- errors.As(err, &retryErr): the tree of wrapped errors holds a *RetryError.
unfoldable mutual
  pub is_retry : Error → Bool
  is_retry (message s) = false
  is_retry (retry_error s) = true
  is_retry (chain_error s e) = is_retry e
  is_retry (wrapped s e) = is_retry e
  is_retry (joined es) = any_retry es
  is_retry (not_found s) = false

  pub any_retry : Errors → Bool
  any_retry no_more = false
  any_retry (more e es) = is_retry e || any_retry es

-- k8serrors.IsNotFound looks through wrapped errors too.
unfoldable mutual
  pub is_not_found : Error → Bool
  is_not_found (message s) = false
  is_not_found (retry_error s) = false
  is_not_found (chain_error s e) = is_not_found e
  is_not_found (wrapped s e) = is_not_found e
  is_not_found (joined es) = any_not_found es
  is_not_found (not_found s) = true

  pub any_not_found : Errors → Bool
  any_not_found no_more = false
  any_not_found (more e es) = is_not_found e || any_not_found es

-- err.Error()
unfoldable mutual
  pub error_text : Error → String
  error_text (message s) = s
  error_text (retry_error s) = s
  error_text (chain_error s e) = s ++ (": " ++ error_text e)
  error_text (wrapped s e) = s ++ (": " ++ error_text e)
  error_text (joined es) = error_lines es
  error_text (not_found s) = s

  pub error_lines : Errors → String
  error_lines no_more = ""
  error_lines (more e no_more) = error_text e
  error_lines (more e (more f es)) = error_text e ++ ("\n" ++ error_lines (more f es))

abbrev pub to_errors : List Error → Errors
to_errors [] = no_more
to_errors (e ∷ es) = more e (to_errors es)

-- errors.Join(errs...) of errors that are not nil
abbrev pub join_errors : List Error → Error
join_errors es = joined (to_errors es)

-- Calls whose error ends the function that makes them, with the text that it puts around the error.
module _ {S A B : Type 0} where
  abbrev pub handled : (Error → Error) → (A → Run S (Error ⊎ B)) → Error ⊎ A → Run S (Error ⊎ B)
  handled wrap f (inl err) s = (done (inl (wrap err)), s)
  handled wrap f (inr a) s = f a s

  abbrev pub try : Run S (Error ⊎ A) → (Error → Error) → (A → Run S (Error ⊎ B)) → Run S (Error ⊎ B)
  try run wrap f s = resume (run s) (handled wrap f)

handled-Ends :
    {S A B : Type 0} (P : Error ⊎ B → S → Type 0) (wrap : Error → Error) (f : A → Run S (Error ⊎ B))
    (r : Error ⊎ A) (t : S)
    → ((err : Error) (t : S) → P (inl err) t)
    → ((a : A) (t : S) → Ends P (f a t))
    → Ends P (handled wrap f r t)
handled-Ends P wrap f (inl err) t fails goes = fails (wrap err) t
handled-Ends P wrap f (inr a) t fails goes = goes a t

-- What holds at the end of a call and of the rest, whatever the call gives.
pub try-Ends :
    {S A B : Type 0} (P : Error ⊎ B → S → Type 0) (run : Run S (Error ⊎ A)) (wrap : Error → Error)
    (f : A → Run S (Error ⊎ B)) (s : S)
    → ((err : Error) (t : S) → P (inl err) t)
    → ((a : A) (t : S) → Ends P (f a t))
    → Ends P (try run wrap f s)
try-Ends P run wrap f s fails goes =
    Ends-resume P (run s) (handled wrap f)
      (Ends-all _ (run s) (λ r t. handled-Ends P wrap f r t fails goes))

abbrev pub as_result : Option Error → Error ⊎ Unit {0}
as_result none = inr tt
as_result (some err) = inl err

true≢false : true ≡ false → ⊥
true≢false e = cc

-- A chain of calls that ends in a Boolean answer, and what is done with the answer.
abbrev pub answered : {S : Type 0} → Outcome (Error ⊎ Bool) × S → Bool
answered (panicked, s) = false
answered (done (inl err), s) = false
answered (done (inr b), s) = b

module _ {S A B : Type 0} where
  pub try-last :
      (run : Run S (Error ⊎ A)) (wrap : Error → Error) (f : A → Run S (Error ⊎ Bool))
      (g : Bool → Run S (Error ⊎ B)) (s : S)
      → try run wrap (λ a. try (f a) (λ err. err) g) s ≡ try (try run wrap f) (λ err. err) g s
  try-last run wrap f g s = go (run s)
    where
      go :
          (r : Outcome (Error ⊎ A) × S)
          → resume r (handled wrap (λ a. try (f a) (λ err. err) g))
            ≡ resume (resume r (handled wrap f)) (handled (λ err. err) g)
      go (done (inl err), s) = refl
      go (done (inr a), s) = refl
      go (panicked, s) = refl

pub try-unanswered :
    {S B : Type 0} (run : Run S (Error ⊎ Bool)) (wrap : Error → Error)
    (f g : Bool → Run S (Error ⊎ B)) (s : S)
    → f false ≡ g false
    → answered (run s) ≡ false
    → try run wrap f s ≡ try run wrap g s
try-unanswered {S = S} {B = B} run wrap f g s same h = go (run s) h
  where
    go :
        (r : Outcome (Error ⊎ Bool) × S)
        → answered r ≡ false
        → resume r (handled wrap f) ≡ resume r (handled wrap g)
    go (done (inl err), s) h = refl
    go (done (inr true), s) h = absurd (true≢false h)
    go (done (inr false), s) h = ap (λ k. k s) same
    go (panicked, s) h = refl

-- An error keeps the text that the call has put around it.
pub try-renamed :
    {S A B : Type 0} (run : Run S (Error ⊎ A)) (wrap : Error → Error) (f : A → Run S (Error ⊎ B))
    (s : S)
    → try run wrap f s ≡ try (try run wrap (λ a t. (done (inr a), t))) (λ err. err) f s
try-renamed {S = S} {A = A} run wrap f s = go (run s)
  where
    go :
        (r : Outcome (Error ⊎ A) × S)
        → resume r (handled wrap f)
          ≡ resume (resume r (handled wrap (λ a t. (done (inr a), t)))) (handled (λ err. err) f)
    go (done (inl err), s) = refl
    go (done (inr a), s) = refl
    go (panicked, s) = refl
