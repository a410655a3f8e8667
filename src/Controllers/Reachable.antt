-- ===== src/Controllers/Reachable.antt =====
-- The data that any sequence of reconciliations stores on a node: every profile is in a state.
use maintenance_controller.Base.{
  String, Option, none, some, ◌≡◌, refl, ap, sym, ◌∙◌, ◌⊎◌, inl, inr, Outcome, done, resume-stays,
}
use mathlib.Core.Path.{subst}
use maintenance_controller.Errors.{Error}
use maintenance_controller.World.{Platform}
use maintenance_controller.State.Data.{Data, Codec, parse_data}
use maintenance_controller.State.Known.{HasKnownStates, HasKnownProfiles, known_entry}
use maintenance_controller.Controllers.Handler.{Frame, Config}
use maintenance_controller.Controllers.Evaluate.{handle_node}
use maintenance_controller.Controllers.Reconcile.{
  data_text, finish_handling, write_data, loaded, handle_data, reconcile_internal,
}
use maintenance_controller.Controllers.Persistence.{
  IsFaithful, ParsesTo, reconcile_internal_roundtrip,
}
use maintenance_controller.Controllers.KnownNode.{handle_node-HasKnownStates}

-- The texts that an annotation holds after reconciliations without an error, from `start` on. Between
-- two of them, all of the node but this annotation may change, and so may the world.
pub data Stored {E : Type 0} (io : Platform E) (config : Config E) (json : Codec) (start : String)
    : String → Type 0 where
  unreconciled : Stored io config json start start
  reconciled :
      (f f' : Frame E)
      → Stored io config json start (data_text f.session.world.node)
      → reconcile_internal io config json f ≡ (done none, f')
      → Stored io config json start (data_text f'.session.world.node)

abbrev KnownParsed : Error ⊎ Data → Type 0
KnownParsed (inl err) = Unit
KnownParsed (inr d) = HasKnownStates d

-- If the text can be parsed, every profile in its data is in a state.
abbrev pub HoldsKnownStates : Codec → String → Type 0
HoldsKnownStates json text = KnownParsed (parse_data json text)

module _ {E : Type 0} (io : Platform E) (config : Config E) (json : Codec) where
  finish_handling-keeps :
      (answer : Option Error) (f : Frame E)
      → HasKnownStates f.session.data_of
      → HasKnownStates (finish_handling json answer f).1.session.data_of
  unfolding finish_handling write_data
  finish_handling-keeps (some err) f known = known
  finish_handling-keeps none f known = go (json.encode f.session.data_of) refl
    where
      go :
          (r : Error ⊎ String)
          → json.encode f.session.data_of ≡ r
          → HasKnownStates (finish_handling json none f).1.session.data_of
      go (inl err) e = rw (e, write_data) known
      go (inr text) e = rw (e, write_data) known

  handle_data-HasKnownStates :
      (parsed : Error ⊎ Data) (f f' : Frame E)
      → HasKnownProfiles config.profiles
      → KnownParsed parsed
      → handle_data io config json parsed f ≡ (done none, f')
      → HasKnownStates f'.session.data_of
  unfolding handle_data
  handle_data-HasKnownStates (inl err) f f' profiles known e = absurd (failed err e)
    where
      failed :
          (err : Error)
          → ◌≡◌ {A = Outcome (Option Error) × Frame E} (done (some err), f) (done none, f')
          → ⊥
      failed err k = cc
  handle_data-HasKnownStates (inr d) f f' profiles known e =
      subst (λ r. HasKnownStates r.1.session.data_of) e
        (resume-stays (λ g. HasKnownStates g.session.data_of) (handle_node io config (loaded d f))
          (finish_handling json) (handle_node-HasKnownStates io config (loaded d f) profiles known)
          finish_handling-keeps)

  parsed-KnownParsed :
      (parsed : Error ⊎ Data) (d : Data) → ParsesTo parsed d → HasKnownStates d → KnownParsed parsed
  parsed-KnownParsed parsed d (d', read, same) known =
      subst KnownParsed (sym read) (λ k. ap known_entry (same.0 k) ∙ known k)

  -- Suppose that JSON decodes what it encodes (up to the order of the keys), that every transition of the configured profiles leads to
  -- a state, and that the text that the annotation holds at first cannot be parsed or has every profile in
  -- a state. Then this is so of every text that reconciliations without an error store, one after another.
  pub Stored-HoldsKnownStates :
      (start text : String)
      → IsFaithful json
      → HasKnownProfiles config.profiles
      → HoldsKnownStates json start
      → Stored io config json start text
      → HoldsKnownStates json text
  unfolding reconcile_internal
  Stored-HoldsKnownStates start text faithful profiles known unreconciled = known
  Stored-HoldsKnownStates start text faithful profiles known (reconciled f f' before e) =
      parsed-KnownParsed (parse_data json (data_text f'.session.world.node)) f'.session.data_of
        (reconcile_internal_roundtrip io config json faithful f f' e)
        (handle_data-HasKnownStates (parse_data json (data_text f.session.world.node)) f f' profiles
          (Stored-HoldsKnownStates start (data_text f.session.world.node) faithful profiles known
            before)
          e)
