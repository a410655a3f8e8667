-- ===== src/Impl/Staggered.antt =====
-- stagger: how long a lease that a node has grabbed holds the others back.
use maintenance_controller.Base.{ℕ, ◌*◌, ◌/◌, Bool, true, false, some, done, Outcome, Option, none}
use maintenance_controller.GoTime.{Time}
use maintenance_controller.World.{World}
use maintenance_controller.Api.{Api, Lease}
use maintenance_controller.Errors.{Error}
use maintenance_controller.Impl.Stagger.{
  Stagger, Slot, failed, free, taken, make_lease_key, grabbed,
}

abbrev pub is_free : Slot → Bool
is_free (failed err) = false
is_free free = true
is_free (taken d) = false

-- A time as a MicroTime is stored.
abbrev pub in_microseconds : Time → Time
in_microseconds t = t / 1000 * 1000

-- A lease as the API server stores it.
abbrev pub as_stored : Lease → Lease
as_stored lease = record lease {
  acquire_time = truncated lease.acquire_time;
  renew_time = truncated lease.renew_time;
}
  where
    truncated : Option Time → Option Time
    truncated none = none
    truncated (some t) = some (in_microseconds t)

module _ {E : Type 0} (api : Api E) (s : Stagger) where
  -- The clock's reading after the lease of an index is read.
  abbrev pub clock_after : ℕ → E → Time
  clock_after i e = (api.now (api.get_lease (make_lease_key s i) e).1).0

  -- The answer of the API server to the patch of the lease that is grabbed.
  abbrev pub patch_at : ℕ → Lease → World E → Option Error × E
  patch_at i old w =
      let (now, e) = api.now (api.get_lease (make_lease_key s i) w.ext).1 in
      api.patch_lease (grabbed s w.node.name now old) e

  abbrev pub answered : World E → Option Error × E → Outcome (Option Error) × World E
  answered w (answer, e) = (done answer, record w { ext = e })
