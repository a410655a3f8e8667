-- ===== src/Examples/Encoding.antt =====
-- A codec for the data of a node, which two reconciliations of Examples/Histories.antt write.
use maintenance_controller.Base.{
  String, Bool, true, false, ◌&&◌, ◌==◌, Option, none, some, [], ◌∷◌, ◌≡◌, refl, ap, sym, ◌⊎◌, inl,
  inr, ◌≢◌, Assoc, GoMap, made, nil_map, get, str_eq, eq_iff, if◌then◌else◌, arith, Bool-cases,
}
use maintenance_controller.Errors.{Error, message}
use maintenance_controller.State.Labels.{operational, required}
use maintenance_controller.State.Data.{ProfileData, Data, Codec}
use maintenance_controller.Controllers.Persistence.{IsFaithful, SameData, ParsesTo}

-- A codec that knows the data of two reconciliations.
module _ {V : Type 0} (eq_value : V → V → Bool) where
  abbrev eq_entries : Assoc V → Assoc V → Bool
  eq_entries [] [] = true
  eq_entries [] (y ∷ ys) = false
  eq_entries (x ∷ xs) [] = false
  eq_entries ((k, v) ∷ xs) ((l, u) ∷ ys) = str_eq k l && (eq_value v u && eq_entries xs ys)

  abbrev eq_map : GoMap V → GoMap V → Bool
  eq_map nil_map nil_map = true
  eq_map nil_map (made m) = false
  eq_map (made m) nil_map = false
  eq_map (made m) (made n) = eq_entries m n

module _ {V : Type 0} (eq_value : V → V → Bool)
    (sound : (a b : V) → eq_value a b ≡ true → a ≡ b) where
  eq_entries_sound : (m n : Assoc V) → eq_entries eq_value m n ≡ true → m ≡ n
  eq_entries_sound [] [] h = refl
  eq_entries_sound [] (y ∷ ys) h = cc
  eq_entries_sound (x ∷ xs) [] h = cc
  eq_entries_sound ((k, v) ∷ xs) ((l, u) ∷ ys) h =
      let keys : k ≡ l = (eq_iff k l).0 (ground arith) in
      let values : v ≡ u = sound v u (ground arith) in
      let rest : xs ≡ ys = eq_entries_sound xs ys (ground arith) in λ i. (keys i, values i) ∷ rest i

  eq_map_sound : (m n : GoMap V) → eq_map eq_value m n ≡ true → m ≡ n
  eq_map_sound nil_map nil_map h = refl
  eq_map_sound nil_map (made m) h = cc
  eq_map_sound (made m) nil_map h = cc
  eq_map_sound (made m) (made n) h = ap made (eq_entries_sound m n h)

abbrev eq_data : Option ProfileData → Option ProfileData → Bool
eq_data none none = true
eq_data none (some b) = false
eq_data (some a) none = false
eq_data (some a) (some b) =
    a.transition == b.transition && (str_eq a.current b.current && str_eq a.previous b.previous)

eq_data_sound : (a b : Option ProfileData) → eq_data a b ≡ true → a ≡ b
eq_data_sound none none h = refl
eq_data_sound none (some b) h = cc
eq_data_sound (some a) none h = cc
eq_data_sound (some a) (some b) h =
    let times : a.transition ≡ b.transition = ground arith in
    let currents : a.current ≡ b.current = (eq_iff a.current b.current).0 (ground arith) in
    let previous : a.previous ≡ b.previous = (eq_iff a.previous b.previous).0 (ground arith) in
    λ i. some (record { transition = times i; current = currents i; previous = previous i })

abbrev equals : Data → Data → Bool
equals a b = eq_map eq_data a.profiles b.profiles && eq_map ◌==◌ a.notifications b.notifications

equals-SameData : (a b : Data) → equals a b ≡ true → SameData b a
equals-SameData a b h =
    let profiles : a.profiles ≡ b.profiles =
      eq_map_sound eq_data eq_data_sound a.profiles b.profiles (ground arith) in
    let notifications : a.notifications ≡ b.notifications =
      eq_map_sound ◌==◌ (λ m n e. ground arith) a.notifications b.notifications (ground arith) in
    (λ k. ap (λ m. get m k) (sym profiles), λ k. ap (λ m. get m k) (sym notifications))

abbrev data_first : Data
data_first = record {
  profiles = made (
      ("kernel", some (record { transition = 103; current = required; previous = operational }))
      ∷ (
        "reboot",
        some (record { transition = 101; current = operational; previous = operational }),
      )
      ∷ []);
  notifications = made [];
}

abbrev data_second : Data
data_second = record {
  profiles = made (
      ("kernel", some (record { transition = 103; current = required; previous = required }))
      ∷ (
        "reboot",
        some (record { transition = 101; current = operational; previous = operational }),
      )
      ∷ []);
  notifications = made [];
}

abbrev pub small_json : Codec
small_json = record {
  decode = λ text.
      (if str_eq text "first"
        then inr data_first
        else if str_eq text "second"
        then inr data_second
        else inl (message "syntax"));
  encode = λ d.
      (if equals d data_first
        then inr "first"
        else if equals d data_second
        then inr "second"
        else inl (message "unknown"));
}

small_json-back :
    (d : Data) (text : String)
    → small_json.encode d ≡ inr text
    → ParsesTo (small_json.decode text) d × (text ≢ "")
small_json-back d text e = elim (Bool-cases (equals d data_first)) [
  | inl y ↦
      known data_first "first" text (rw y at e) refl (equals-SameData d data_first y) (λ k. cc)
  | inr n ↦ elim (Bool-cases (equals d data_second)) [
    | inl y ↦
        known data_second "second" text (rw (n, y) at e) refl (equals-SameData d data_second y)
          (λ k. cc)
    | inr m ↦ absurd (unknown text (rw (n, m) at e))
  ]
]
  where
    unknown : (text : String) → ◌≡◌ {A = Error ⊎ String} (inl (message "unknown")) (inr text) → ⊥
    unknown text e = cc

    known :
        (d' : Data) (t text : String)
        → ◌≡◌ {A = Error ⊎ String} (inr t) (inr text)
        → small_json.decode t ≡ inr d'
        → SameData d' d
        → t ≢ ""
        → ParsesTo (small_json.decode text) d × (text ≢ "")
    known d' t text e read same filled =
        let texts : t ≡ text = cc e in rw (← texts) ((d', read, same), filled)

pub small_json-IsFaithful : IsFaithful small_json
small_json-IsFaithful = record {
  back = λ d text e. (small_json-back d text e).0;
  not_empty = λ d text e. (small_json-back d text e).1;
}
