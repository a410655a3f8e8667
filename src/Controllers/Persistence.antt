-- ===== src/Controllers/Persistence.antt =====
-- reconcileInternal: what it writes into the node's annotation is read back by the next
-- reconciliation.
use maintenance_controller.Base.{
  String, Option, none, some, ◌≡◌, refl, ◌≢◌, ◌⊎◌, inl, inr, lookup-insert, eq_of_ne, get, ap, sym,
  ◌∙◌, lookup, entries-make_if_nil, done, Ends, Ends-at, Ends-resume, Ends-all,
}
use mathlib.Core.Path.{subst}
use maintenance_controller.Errors.{Error}
use maintenance_controller.World.{Node, Platform}
use maintenance_controller.State.Data.{Data, Codec, make_notifications, parse_data}
use maintenance_controller.Controllers.Handler.{Frame, Config}
use maintenance_controller.Controllers.Evaluate.{handle_node}
use maintenance_controller.Controllers.Reconcile.{
  data_text, annotated, write_data, finish_handling, handle_data, loaded, reconcile_internal,
}

-- Two values are the same but for the order in which their maps list the keys, and for the
-- difference of a nil map and an empty one: every key has the same value.
abbrev pub SameData : Data → Data → Type 0
SameData a b =
    ((k : String) → get a.profiles k ≡ get b.profiles k)
    × ((k : String) → get a.notifications k ≡ get b.notifications k)

abbrev pub ParsesTo : Error ⊎ Data → Data → Type 0
ParsesTo parsed d = (d' : Data) × (parsed ≡ inr d') × SameData d' d

-- What the round trip needs of package encoding/json, which sorts the keys of a map: decoding an
-- encoded value gives the same value, and an encoding is never the empty text.
pub record IsFaithful (json : Codec) : Type 0 where
  pub back : (d : Data) (text : String) → json.encode d ≡ inr text → ParsesTo (json.decode text) d
  pub not_empty : (d : Data) (text : String) → json.encode d ≡ inr text → text ≢ ""

data_text-annotated : (text : String) (node : Node) → data_text (annotated text node) ≡ text
data_text-annotated text node = rw lookup-insert

parse_encoded :
    (json : Codec) (faithful : IsFaithful json) (d : Data) (text : String)
    → json.encode d ≡ inr text
    → ParsesTo (parse_data json text) d
unfolding parse_data
parse_encoded json faithful d text e =
    let (d', read, same) = faithful.back d text e in
    (
      make_notifications d',
      rw (eq_of_ne text "" (faithful.not_empty d text e), read) refl,
      (same.0, λ k. ap (lookup k) (entries-make_if_nil d'.notifications) ∙ same.1 k),
    )

module _ {E : Type 0} (io : Platform E) (config : Config E) (json : Codec) where
  -- The annotation of the node holds the data.
  abbrev Holds : Option Error → Frame E → Type 0
  Holds err f =
      err ≡ none → ParsesTo (parse_data json (data_text f.session.world.node)) f.session.data_of

  encode-cases :
      (d : Data)
      → ((e : Error) × (json.encode d ≡ inl e)) ⊎ ((t : String) × (json.encode d ≡ inr t))
  encode-cases d = go (json.encode d) refl
    where
      go :
          (r : Error ⊎ String)
          → json.encode d ≡ r
          → ((e : Error) × (json.encode d ≡ inl e)) ⊎ ((t : String) × (json.encode d ≡ inr t))
      go (inl e) h = inl (e, h)
      go (inr t) h = inr (t, h)

  finish_handling-Holds :
      (faithful : IsFaithful json) (answer : Option Error) (f : Frame E)
      → Ends Holds (finish_handling json answer f)
  unfolding finish_handling write_data
  finish_handling-Holds faithful (some err) f = λ h. cc
  finish_handling-Holds faithful none f = elim (encode-cases f.session.data_of) [
    | inl (e, h) ↦ rw (h, write_data) (λ k. cc)
    | inr (t, h) ↦
        rw (h, write_data)
          (λ k.
            subst (λ text. ParsesTo (parse_data json text) f.session.data_of)
              (sym (data_text-annotated t f.session.world.node))
              (parse_encoded json faithful f.session.data_of t h))
  ]

  handle_data-Holds :
      (faithful : IsFaithful json) (parsed : Error ⊎ Data) (f : Frame E)
      → Ends Holds (handle_data io config json parsed f)
  unfolding handle_data
  handle_data-Holds faithful (inl err) f = λ h. cc
  handle_data-Holds faithful (inr d) f =
      Ends-resume _ (handle_node io config (loaded d f)) _
        (Ends-all _ (handle_node io config (loaded d f)) (finish_handling-Holds faithful))

  -- If reconcileInternal returns without an error, the annotation of the node holds a text that
  -- the next reconciliation parses to the data with which this one ended: every profile and every
  -- notification has the same value, or has none in both. Provided that JSON decodes what it
  -- encodes, up to the order of the keys of a map.
  pub reconcile_internal_roundtrip :
      (faithful : IsFaithful json) (f f' : Frame E)
      → reconcile_internal io config json f ≡ (done none, f')
      → ParsesTo (parse_data json (data_text f'.session.world.node)) f'.session.data_of
  unfolding reconcile_internal
  reconcile_internal_roundtrip faithful f f' e =
      Ends-at Holds _ none f'
        (handle_data-Holds faithful (parse_data json (data_text f.session.world.node)) f) e refl
