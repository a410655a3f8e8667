-- ===== src/Base/Postconditions.antt =====
-- What holds at the end of a run: nothing is said of a run that panics, and `Returns` says that it
-- does not.
use mathlib.Core.Path.{◌≡◌, subst}
use maintenance_controller.Base.Runs.{Outcome, done, panicked, Run, resume}

module _ {S A : Type 0} where
  abbrev pub Ends : (A → S → Type 0) → Outcome A × S → Type 0
  Ends P (done a, s) = P a s
  Ends P (panicked, s) = Unit

  abbrev pub Returns : (A → S → Type 0) → Outcome A × S → Type 0
  Returns P (done a, s) = P a s
  Returns P (panicked, s) = ⊥

  pub Ends-at :
      (P : A → S → Type 0) (r : Outcome A × S) (a : A) (s : S) → Ends P r → r ≡ (done a, s) → P a s
  Ends-at P r a s h e = subst (Ends P) e h

  pub Ends-mono :
      (P Q : A → S → Type 0) (r : Outcome A × S)
      → ((a : A) (s : S) → P a s → Q a s)
      → Ends P r
      → Ends Q r
  Ends-mono P Q (done a, s) f h = f a s h
  Ends-mono P Q (panicked, s) f h = tt

  pub Returns-mono :
      (P Q : A → S → Type 0) (r : Outcome A × S)
      → ((a : A) (s : S) → P a s → Q a s)
      → Returns P r
      → Returns Q r
  Returns-mono P Q (done a, s) f h = f a s h
  Returns-mono P Q (panicked, s) f h = h

  pub Ends-all : (P : A → S → Type 0) (r : Outcome A × S) → ((a : A) (s : S) → P a s) → Ends P r
  Ends-all P (done a, s) f = f a s
  Ends-all P (panicked, s) f = tt

module _ {S A B : Type 0} where
  pub Ends-resume :
      (P : B → S → Type 0) (r : Outcome A × S) (f : A → Run S B)
      → Ends (λ a s. Ends P (f a s)) r
      → Ends P (resume r f)
  Ends-resume P (done a, s) f h = h
  Ends-resume P (panicked, s) f h = tt

  pub Returns-resume :
      (P : B → S → Type 0) (r : Outcome A × S) (f : A → Run S B)
      → Returns (λ a s. Returns P (f a s)) r
      → Returns P (resume r f)
  Returns-resume P (done a, s) f h = h
  Returns-resume P (panicked, s) f h = h

  -- A part of the state that neither half of a run changes.
  pub resume-keeps :
      {V : Type 0} (view : S → V) (r : Outcome A × S) (f : A → Run S B) (v : V)
      → view r.1 ≡ v
      → ((a : A) (s : S) → view s ≡ v → view (f a s).1 ≡ v)
      → view (resume r f).1 ≡ v
  resume-keeps view (done a, s) f v h k = k a s h
  resume-keeps view (panicked, s) f v h k = h

module _ {S T A : Type 0} where
  pub Ends-zoom :
      (P : A → S → Type 0) (set : T → S → S) (s : S) (r : Outcome A × T)
      → Ends (λ a t. P a (set t s)) r
      → Ends P (r.0, set r.1 s)
  Ends-zoom P set s (done a, t) h = h
  Ends-zoom P set s (panicked, t) h = tt

  pub Returns-zoom :
      (P : A → S → Type 0) (set : T → S → S) (s : S) (r : Outcome A × T)
      → Returns (λ a t. P a (set t s)) r
      → Returns P (r.0, set r.1 s)
  Returns-zoom P set s (done a, t) h = h
  Returns-zoom P set s (panicked, t) h = h

module _ {S A B : Type 0} (P : S → Type 0) where
  -- What holds of the state at the end of a run, also if the run panics.
  pub resume-stays :
      (r : Outcome A × S) (f : A → Run S B)
      → P r.1
      → ((a : A) (s : S) → P s → P (f a s).1)
      → P (resume r f).1
  resume-stays (done a, s) f h k = k a s h
  resume-stays (panicked, s) f h k = h

  -- The same, where what the first half returns matters to the second.
  pub resume-stays_with :
      (Q : A → Type 0) (r : Outcome A × S) (f : A → Run S B)
      → P r.1
      → Ends (λ a _. Q a) r
      → ((a : A) (s : S) → Q a → P s → P (f a s).1)
      → P (resume r f).1
  resume-stays_with Q (done a, s) f h q k = k a s q h
  resume-stays_with Q (panicked, s) f h q k = h
