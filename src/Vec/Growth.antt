-- ===== src/Vec/Growth.antt =====
-- The capacity that vec_ensure_or_double_capacity of src/util/Vec.c computes.
use native.Mathlib.Nat.{pow-suc}
use pennosgrp.Prelude.{
  ℕ, zero, suc, ◌*◌, ◌^◌, ◌≤◌, ◌<◌, ◌≡◌, refl, ◌⊎◌, inl, inr, arith, ◌==◌, if◌then◌else◌,
}
use pennosgrp.Vec.{double_until, new_capacity}

double_until_stops :
    (f c least : ℕ)
    → 2 ^ 63 ≤ c * 2 ^ f
    → (least ≤ double_until f c least) ⊎ (2 ^ 63 ≤ double_until f c least)
unfolding double_until
double_until_stops zero c least h = inr (omega arith)
double_until_stops (suc f) c least h = ground (arith, double_until_stops f (c * 2) least, grows)
  where
    grows : c * 2 ^ suc f ≡ c * 2 * 2 ^ f
    grows = rw (pow-suc 2 f) (omega arith)

double_until_range :
    (f c least : ℕ)
    → (c ≤ double_until f c least)
      × ((double_until f c least ≡ c) ⊎ (double_until f c least < 2 * least))
unfolding double_until
double_until_range zero c least = (omega arith, inl refl)
double_until_range (suc f) c least = ground (arith, double_until_range f (c * 2) least)

-- The new capacity holds what was asked for and never shrinks. It is at most twice what was asked
-- for, unless the old capacity served already and is kept.
pub new_capacity_bounds :
    (old least : ℕ)
    → 0 < least
    → (least ≤ new_capacity old least)
      × (old ≤ new_capacity old least)
      × ((new_capacity old least ≡ old) ⊎ (new_capacity old least < 2 * least))
unfolding new_capacity
new_capacity_bounds old least pos =
    ground (arith, double_until_range 64 (if old == 0 then 1 else old) least)
