-- ===== src/State/Sessions.antt =====
-- Rules for runs on a session whose first step is a run on its world.
use maintenance_controller.Base.{◌≡◌, Outcome, done, panicked, Run, resume, Ends, Returns}
use maintenance_controller.World.{World}
use maintenance_controller.State.Data.{Session}

module _ {E A B : Type 0} where
  pub Ends-in_world :
      (P : B → Session E → Type 0) (r : Outcome A × World E) (s : Session E)
      (f : A → Run (Session E) B)
      → Ends (λ a w. Ends P (f a (record s { world = w }))) r
      → Ends P (resume (r.0, record s { world = r.1 }) f)
  Ends-in_world P (done a, w) s f h = h
  Ends-in_world P (panicked, w) s f h = tt

  pub Returns-in_world :
      (P : B → Session E → Type 0) (r : Outcome A × World E) (s : Session E)
      (f : A → Run (Session E) B)
      → Returns (λ a w. Returns P (f a (record s { world = w }))) r
      → Returns P (resume (r.0, record s { world = r.1 }) f)
  Returns-in_world P (done a, w) s f h = h
  Returns-in_world P (panicked, w) s f h = h

  -- What depends on the data alone is kept, if the rest of the run keeps it.
  pub in_world-keeps :
      {V : Type 0} (view : Session E → V) (r : Outcome A × World E) (s : Session E)
      (f : A → Run (Session E) B) (v : V)
      → ((w : World E) → view (record s { world = w }) ≡ v)
      → ((a : A) (w : World E) → view (f a (record s { world = w })).1 ≡ v)
      → view (resume (r.0, record s { world = r.1 }) f).1 ≡ v
  in_world-keeps view (done a, w) s f v h k = k a w
  in_world-keeps view (panicked, w) s f v h k = h w
