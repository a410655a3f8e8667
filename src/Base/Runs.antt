-- ===== src/Base/Runs.antt =====
-- Code that changes a state and may panic. A panic unwinds, and what was written before it stays.

pub data Outcome {ℓ} (A : Type ℓ) : Type ℓ where
  done : A → Outcome A
  panicked : Outcome A

abbrev pub Run {ℓ} : Type ℓ → Type ℓ → Type ℓ
Run S A = S → Outcome A × S

module _ {ℓ} {S A : Type ℓ} where
  abbrev pub pure : A → Run S A
  pure a s = (done a, s)

  abbrev pub panic : Run S A
  panic s = (panicked, s)

  abbrev pub gets : (S → A) → Run S A
  gets f s = (done (f s), s)

abbrev pub modify : {S : Type 0} → (S → S) → Run S (Unit {0})
modify f s = (done tt, f s)

module _ {ℓ} {S A B : Type ℓ} where
  abbrev pub resume : Outcome A × S → (A → Run S B) → Outcome B × S
  resume (done a, s) f = f a s
  resume (panicked, s) f = (panicked, s)

  infixl 5 ◌>>=◌ ◌>>◌
  abbrev pub ◌>>=◌ : Run S A → (A → Run S B) → Run S B
  ◌>>=◌ m f s = resume (m s) f

  abbrev pub ◌>>◌ : Run S A → Run S B → Run S B
  ◌>>◌ m k s = resume (m s) (λ _. k)

-- The action of a part of the state, run on the whole: `get` and `set` are the part's lens.
abbrev pub zoom {ℓ} : {S T A : Type ℓ} → (S → T) → (T → S → S) → Run T A → Run S A
zoom get set m s = let (r, t) = m (get s) in (r, set t s)
