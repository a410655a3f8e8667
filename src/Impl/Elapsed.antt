-- ===== src/Impl/Elapsed.antt =====
-- wait and waitExclude: when the checks pass, and that the loop over the days ends.
use maintenance_controller.Base.{
  ℕ, zero, suc, ◌+◌, ◌-◌, ◌*◌, ◌/◌, ◌≤◌, ◌<◌, true, Option, none, some, List, [], ◌≡◌, refl, ltb,
  arith, is_some, Bool-cases, Option-cases, inl, inr,
}
use maintenance_controller.Base.Int.{pos}
use maintenance_controller.GoTime.{Time, Duration, day, int64_half, after, sub_time}
use maintenance_controller.Impl.Wait.{
  check_wait, subtract_days, rounds, check_wait_exclude, subtract_today,
}

-- For a duration from 0 to below 2^63 - 1 nanoseconds, and a last transition that is not later than
-- now, the check wait passes exactly if more than the duration has passed since the transition,
-- also where the difference of the two times saturates.
pub check_wait_passed :
    (duration : ℕ) (last now again : Time)
    → last ≤ now
    → suc duration < int64_half
    → (check_wait (pos duration) last now again).passed ≡ ltb (last + duration) now
unfolding check_wait sub_time
check_wait_passed duration last now again ordered small = ground arith

subtract_days_returns :
    (fuel : ℕ) (exclude : List ℕ) (last now timestamp : Time) (since : Duration)
    → now < timestamp + fuel * day
    → is_some (subtract_days (suc fuel) exclude last now timestamp since) ≡ true
unfolding subtract_days
subtract_days_returns zero exclude last now timestamp since h = ground arith
subtract_days_returns (suc fuel) exclude last now timestamp since h =
    elim (Bool-cases (after timestamp now)) [
      | inl y ↦ rw y refl
      | inr n ↦ rw n (subtract_days_returns fuel exclude last now (timestamp + day) _ (omega arith))
    ]

none≢some : {A : Type 0} {x : Option A} → x ≡ none → is_some x ≡ true → ⊥
none≢some e h = cc (e, h)

-- The check waitExclude returns, whatever the two times are: its loop over the days ends.
pub check_wait_exclude_returns :
    (duration : Duration) (exclude : List ℕ) (last now : Time)
    → is_some (check_wait_exclude duration exclude last now) ≡ true
unfolding check_wait_exclude
check_wait_exclude_returns duration exclude last now =
    let counted = subtract_days (rounds last now) exclude last now last (sub_time now last) in
    elim (Option-cases counted) [
      | inl e ↦ absurd (
          none≢some e (
            subtract_days_returns (suc ((now - last) / day)) exclude last now last
              (sub_time now last) (omega arith)))
      | inr (since, e) ↦ rw (e, check_wait_exclude) refl
    ]

subtract_days-nothing :
    (fuel : ℕ) (last now timestamp : Time) (since : Duration)
    → now < timestamp + fuel * day
    → subtract_days (suc fuel) [] last now timestamp since ≡ some since
unfolding subtract_days
subtract_days-nothing zero last now timestamp since h = ground arith
subtract_days-nothing (suc fuel) last now timestamp since h =
    elim (Bool-cases (after timestamp now)) [
      | inl y ↦ rw y refl
      | inr n ↦ rw n (subtract_days-nothing fuel last now (timestamp + day) since (omega arith))
    ]

-- With no day of the week excluded, the check waitExclude answers as the check wait does whose
-- two readings of the clock agree, whatever the duration and the times are.
pub check_wait_exclude-check_wait :
    (duration : Duration) (last now : Time)
    → check_wait_exclude duration [] last now ≡ some (check_wait duration last now now)
unfolding check_wait_exclude check_wait subtract_today
check_wait_exclude-check_wait duration last now =
    rw
      (
        subtract_days-nothing (suc ((now - last) / day)) last now last (sub_time now last)
            (omega arith),
        check_wait_exclude,
      )
      (ground arith)
