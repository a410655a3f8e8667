-- ===== src/Impl/Changes.antt =====
-- The triggers alterLabel and alterAnnotation, and the checks that read what they wrote.
use maintenance_controller.Base.{
  String, true, false, not, Option, none, some, GoMap, nil_map, made, get, put, delete, done, ◌≡◌,
  ap, sym, ◌∙◌, lookup, lookup-nil, erase, insert, is_some, str_eq, eq_iff, eq_self, arith,
  if◌then◌else◌, lookup-insert, lookup-erase, Bool-cases, Option-cases, inl, inr,
}
use maintenance_controller.Impl.Labels.{Alteration, alter, check_key}

-- The entries after an alteration.
abbrev pub altered : Alteration → GoMap String → String → Option String
altered conf m k =
    if str_eq conf.key k then (if conf.remove then none else some conf.value) else get m k

-- An alteration that returns has set the key to the value, or removed it, and changed no other
-- key.
pub alter_lem :
    (conf : Alteration) (m m' : GoMap String) (k : String)
    → alter conf m ≡ done m'
    → get m' k ≡ altered conf m k
unfolding alter
alter_lem conf m m' k e = elim (Bool-cases conf.remove) [
  | inl r ↦ removed m r (rw r at e)
  | inr s ↦ stored m s (rw s at e)
]
  where
    removed :
        (m : GoMap String)
        → conf.remove ≡ true
        → (if is_some (get m conf.key) then done (delete conf.key m) else done m) ≡ done m'
        → get m' k ≡ altered conf m k
    removed nil_map r e =
        let same : nil_map ≡ m' = cc (rw (lookup-nil conf.key) at e) in
        ap (λ x. get x k) (sym same) ∙ rw (r, lookup-nil) (ground arith)
    removed (made x) r e = elim (Option-cases (lookup conf.key x)) [
      | inl absent ↦
          (let same : made x ≡ m' = cc (rw absent at e) in
            ap (λ y. get y k) (sym same) ∙ rw r (ground (arith, absent, eq_iff conf.key k)))
      | inr (v, present) ↦
          (let same : made (erase conf.key x) ≡ m' = cc (rw present at e) in
            ap (λ y. get y k) (sym same) ∙ rw (r, lookup-erase) (ground arith))
    ]

    stored :
        (m : GoMap String)
        → conf.remove ≡ false
        → put conf.key conf.value m ≡ done m'
        → get m' k ≡ altered conf m k
    stored nil_map s e = cc
    stored (made x) s e =
        let same : made (insert conf.key conf.value x) ≡ m' = cc e in
        ap (λ y. get y k) (sym same) ∙ rw (s, lookup-insert) (ground arith)

-- What alterLabel has written, hasLabel finds: after an alteration that returns, the check for its
-- key and value passes exactly if the alteration was no removal.
pub alter-check_key :
    (kind : String) (conf : Alteration) (m m' : GoMap String)
    → alter conf m ≡ done m'
    → (check_key kind (record { key = conf.key; value = conf.value }) m').passed ≡ not conf.remove
unfolding check_key
alter-check_key kind conf m m' e =
    rw (alter_lem conf m m' conf.key e, check_key)
      (ground (arith, eq_self conf.key, eq_self conf.value))
