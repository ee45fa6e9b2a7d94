-- ===== src/Presentation/Age.antt =====
-- AgeSeconds against the exact difference of the two instants.
use tracker.Base.{
  ℕ, ◌+◌, ◌-◌, ◌*◌, ◌/◌, ◌≤◌, ◌<◌, ◌^◌, ◌≡◌, inl, inr, Bool-cases, ltb, if◌then◌else◌, ℤ, pos,
  negsuc, pos_part, neg_part, ◌-ℤ◌, ltb_ℤ, int64, int64-eq, -ℤ_parts, -ℤ_bounds, arith, tests,
}
use tracker.Clock.{Time, second, unix, nanosecond, InRange, unix_parts, nanosecond-lt}
use tracker.Presentation.{age_seconds}

unix-bounds : (t : Time) → InRange t → (pos_part (unix t) < 2 ^ 61) × (neg_part (unix t) ≤ 2 ^ 61)
unfolding unix
unix-bounds (pos n) h = omega arith
unix-bounds (negsuc n) h = omega arith

-- The whole seconds of a difference, floored at 0.
floor-lem :
    (d : ℤ) (exact : ℤ) (r : ℕ)
    → pos_part exact + neg_part d * second ≡ pos_part d * second + r + neg_part exact
    → r < second
    → (if ltb_ℤ d (pos 0) then pos 0 else d) ≡ pos (pos_part exact / second)
floor-lem (pos n) (pos m) r h k = ground arith
floor-lem (pos n) (negsuc m) r h k = absurd (omega arith)
floor-lem (negsuc n) (pos m) r h k = absurd (omega arith)
floor-lem (negsuc n) (negsuc m) r h k = ground arith

-- Nothing wraps on the way.
module _ (e l : Time) (he : InRange e) (hl : InRange l) where
  difference-exact : int64 (unix e -ℤ unix l) ≡ unix e -ℤ unix l
  difference-exact =
      let b = -ℤ_bounds (unix e) (unix l) in
      let p = unix-bounds e he in
      let q = unix-bounds l hl in int64-eq (unix e -ℤ unix l) (omega arith) (omega arith)

  borrow-exact : int64 (unix e -ℤ unix l -ℤ pos 1) ≡ unix e -ℤ unix l -ℤ pos 1
  borrow-exact =
      let b = -ℤ_bounds (unix e) (unix l) in
      let c = -ℤ_bounds (unix e -ℤ unix l) (pos 1) in
      let p = unix-bounds e he in
      let q = unix-bounds l hl in int64-eq (unix e -ℤ unix l -ℤ pos 1) (omega arith) (omega arith)

  -- For two instants within 2^61 seconds of the epoch, the age is the time from the one to the
  -- other, rounded down to whole seconds, and 0 where the last contact is later.
  pub age_seconds-floor : age_seconds e l ≡ pos (pos_part (e -ℤ l) / second)
  unfolding age_seconds
  age_seconds-floor =
      let parts_e = unix_parts e in
      let parts_l = unix_parts l in
      let ne = nanosecond-lt e in
      let nl = nanosecond-lt l in
      let whole = -ℤ_parts (unix e) (unix l) in
      let less = -ℤ_parts (unix e -ℤ unix l) (pos 1) in
      let exact = -ℤ_parts e l in
      rw (difference-exact, borrow-exact)
        (elim (Bool-cases (ltb (nanosecond e) (nanosecond l))) [
          | inl borrow ↦ rw borrow (
              floor-lem (unix e -ℤ unix l -ℤ pos 1) (e -ℤ l) (second + nanosecond e - nanosecond l)
                (omega tests) (omega tests))
          | inr fits ↦ rw fits (
              floor-lem (unix e -ℤ unix l) (e -ℤ l) (nanosecond e - nanosecond l) (omega tests)
                (omega tests))
        ])
