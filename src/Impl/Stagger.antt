-- ===== src/Impl/Stagger.antt =====
-- plugin/impl/stagger.go: at most so many nodes pass in every period, by leases that they grab.
use Prim.Native.String.{◌++◌}
use maintenance_controller.Base.{
  ℕ, zero, suc, ◌+◌, ◌-◌, ◌/◌, ◌%◌, ltb, leb, String, Option, none, some, List, [], ◌∷◌,
  ◌++◌ as append, ◌⊎◌, inl, inr, nil_map, made, Run, Outcome, done, panicked, pure, modify, ◌>>=◌,
  ◌>>◌, if◌then◌else◌,
}
use maintenance_controller.Base.Int.{ℤ, pos, negsuc, sub_ℕ, pos_part, ◌+ℤ◌, ◌-ℤ◌, ltb_ℤ}
use maintenance_controller.Base.Text.{decimal}
use maintenance_controller.Errors.{Error, is_not_found}
use maintenance_controller.GoTime.{Time, Duration, second, sub_time, wrap_int64}
use maintenance_controller.World.{World, on_ext}
use maintenance_controller.Api.{Api, Lease, LeaseKey}
use maintenance_controller.Drain.{times_second}
use maintenance_controller.Plugin.Check.{
  Checker, CheckResult, nanoseconds_info, passed_with, failed_with,
}

pub record Stagger : Type 0 where
  pub duration : Duration
  pub lease_name : String
  pub lease_namespace : String
  pub parallel : ℤ

-- grabIndex, which an instance keeps between its calls: none is noGrab.
pub record Grabs (E : Type 0) : Type 0 where
  pub index : E → Option ℕ
  pub set_index : Option ℕ → E → E

abbrev pub int32_half : ℕ
int32_half = 2_147_483_648

-- int32(d.Seconds()): d.Seconds() is a floating-point number, and the conversion truncates it. That
-- a long duration within a nanosecond of a whole second is rounded up to it is left out. What does
-- not fit an int32 is up to the Go implementation, and wraps around here.
unfoldable pub whole_seconds : Duration → ℤ
whole_seconds (pos n) =
    let r = n / second % (int32_half + int32_half) in
    if ltb r int32_half then pos r else sub_ℕ r (int32_half + int32_half)
whole_seconds (negsuc n) =
    let r = suc n / second % (int32_half + int32_half) in
    if leb r int32_half then sub_ℕ 0 r else pos (int32_half + int32_half - r)

abbrev pub after_duration : Time → Duration → Time
after_duration t d = pos_part (pos t +ℤ d)

-- -2 * d
abbrev pub twice_back : Duration → Duration
twice_back d = wrap_int64 (pos 0 -ℤ (d +ℤ d))

-- The length and the renewal of a lease; reading a nil pointer panics.
abbrev pub lease_span : Lease → Outcome (Duration × Time)
lease_span lease = span lease.duration_seconds lease.renew_time
  where
    span : Option ℤ → Option Time → Outcome (Duration × Time)
    span none renewed = panicked
    span (some secs) none = panicked
    span (some secs) (some renewed) = done (times_second secs, renewed)

-- What the body of the loop of Check says of one lease.
pub data Slot : Type 0 where
  failed : Error → Slot
  free : Slot
  -- the time that remains
  taken : Duration → Slot

-- The overflow of an int32.
abbrev wrap_int32 : ℤ → ℤ
wrap_int32 z = if ltb_ℤ z (pos int32_half) then z else z -ℤ pos (int32_half + int32_half)

unfoldable pub make_lease_key : Stagger → ℕ → LeaseKey
unfolding decimal
make_lease_key s idx = record {
  lease_namespace = s.lease_namespace;
  lease_name = s.lease_name ++ ("-" ++ decimal idx);
}

module _ (s : Stagger) where
  -- The lease that is created, with a past in which it has run out.
  unfoldable pub new_lease : ℕ → String → Time → Lease
  unfolding make_lease_key whole_seconds
  new_lease idx holder now =
      let past = after_duration now (twice_back s.duration) in
      record {
        key = make_lease_key s idx;
        holder = some holder;
        acquire_time = some past;
        renew_time = some past;
        duration_seconds = some (whole_seconds s.duration);
        transitions = none;
      }

  -- The lease in memory; the API server keeps its times in microseconds.
  unfoldable pub grabbed : String → Time → Lease → Lease
  unfolding whole_seconds
  grabbed holder now lease = record {
    key = lease.key;
    holder = some holder;
    acquire_time = some now;
    renew_time = some now;
    duration_seconds = some (whole_seconds s.duration);
    transitions = some (elim lease.transitions [ none ↦ pos 0 | some n ↦ wrap_int32 (n +ℤ pos 1) ]);
  }

module _ {E : Type 0} (grabs : Grabs E) where
  abbrev set_grab : Option ℕ → Run (World E) (Unit {0})
  set_grab i = modify (λ w. record w { ext = grabs.set_index i w.ext })

module _ {E : Type 0} (api : Api E) (s : Stagger) (grabs : Grabs E) where
  abbrev created : Lease → Option Error → Error ⊎ Lease
  created lease none = inr lease
  created lease (some err) = inl err

  abbrev pub or_create : ℕ → Error ⊎ Lease → Run (World E) (Error ⊎ Lease)
  or_create idx (inr lease) w = (done (inr lease), w)
  or_create idx (inl err) w =
      if is_not_found err
      then (do
        now ← on_ext api.now
        let lease = new_lease s idx w.node.name now
        answer ← on_ext (api.create_lease lease)
        pure (created lease answer))
          w
      else (done (inl err), w)

  unfoldable pub get_or_create_lease : ℕ → Run (World E) (Error ⊎ Lease)
  unfolding make_lease_key new_lease
  get_or_create_lease idx = do
    found ← on_ext (api.get_lease (make_lease_key s idx))
    or_create idx found

  abbrev pub measure : Outcome (Duration × Time) → Run (World E) Slot
  measure panicked w = (panicked, w)
  measure (done (span, renewed)) w =
      (do
        now ← on_ext api.now
        (if ltb_ℤ span (sub_time now renewed) then pure free else (do
          again ← on_ext api.now
          pure (taken (wrap_int64 (span -ℤ sub_time again renewed))))))
        w

  abbrev pub inspect : Error ⊎ Lease → Run (World E) Slot
  inspect (inl err) = pure (failed err)
  inspect (inr lease) = measure (lease_span lease)

  unfoldable pub look_at : ℕ → Run (World E) Slot
  unfolding get_or_create_lease sub_time
  look_at idx = do found ← get_or_create_lease idx; inspect found

  abbrev none_available : List ℤ → CheckResult
  none_available available =
      failed_with (made (("availableInSec", nanoseconds_info available) ∷ []))

  -- The loop, with `left` indices to go; the first lease that has run out ends it.
  unfoldable pub check_from : ℕ → ℕ → List ℤ → Run (World E) (CheckResult × Option Error)
  unfolding look_at
  check_from idx zero available = pure (none_available available, none)
  check_from idx (suc left) available = do
    slot ← look_at idx
    elim slot [
      | failed err ↦ pure (failed_with nil_map, some err)
      | free ↦ (do set_grab grabs (some idx); pure (passed_with nil_map, none))
      | taken d ↦ check_from (suc idx) left (append available (d ∷ []))
    ]

  -- Check
  unfoldable pub check_stagger : Run (World E) (CheckResult × Option Error)
  unfolding check_from
  check_stagger = do set_grab grabs none; check_from zero (pos_part s.parallel) []

  unfoldable pub grab_lease : Lease → Run (World E) (Option Error)
  unfolding grabbed
  grab_lease lease w =
      (do now ← on_ext api.now; on_ext (api.patch_lease (grabbed s w.node.name now lease))) w

  abbrev pub grab_found : Error ⊎ Lease → Run (World E) (Option Error)
  grab_found (inl err) = pure (some err)
  grab_found (inr lease) = grab_lease lease

  abbrev pub grab_index : Option ℕ → Run (World E) (Option Error)
  grab_index none = pure none
  grab_index (some idx) = do found ← on_ext (api.get_lease (make_lease_key s idx)); grab_found found

  -- OnTransition
  unfoldable pub on_transition_stagger : Run (World E) (Option Error)
  unfolding grab_lease make_lease_key
  on_transition_stagger w = grab_index (grabs.index w.ext) w

  abbrev pub stagger : Checker E
  stagger = record {
    id = "stagger";
    check = λ p. check_stagger;
    on_transition = λ p. on_transition_stagger;
  }
