-- ===== src/Presentation/States.antt =====
-- Evaluate against the exact time since last contact.
use tracker.Base.{
  ℕ, ◌+◌, ◌*◌, ◌≤◌, ◌<◌, ◌≡◌, ◌↔◌, some, pos, pos_part, ◌-ℤ◌, ◌≤ℤ◌, -ℤ_parts, one_part, arith,
}
use tracker.Clock.{Time, second, InRange}
use tracker.Presentation.{Value, no_position, live, recent, stale, Windows, evaluate}
use tracker.Presentation.Age.{age_seconds-floor}

-- The time since last contact in nanoseconds, 0 where the last contact is later.
abbrev pub elapsed : Time → Time → ℕ
elapsed e l = pos_part (e -ℤ l)

-- A pair of windows in seconds.
abbrev pub windows : ℕ → ℕ → Windows
windows short long = record { live_seconds = pos short; stale_seconds = pos long }

-- For two instants within 2^61 seconds of the epoch and ordered windows, a device is live exactly
-- while less than `short + 1` seconds have passed since last contact, stale exactly from `long +
-- 1` seconds on, and recent exactly in between.
pub evaluate-windows :
    (e l : Time) (short long : ℕ)
    → InRange e
    → InRange l
    → short < long
    → let v = evaluate e (some l) (windows short long) in
      ((v ≡ live) ↔ (elapsed e l < (short + 1) * second))
      × ((v ≡ recent)
          ↔ (((short + 1) * second ≤ elapsed e l) × (elapsed e l < (long + 1) * second)))
      × ((v ≡ stale) ↔ ((long + 1) * second ≤ elapsed e l))
unfolding evaluate
evaluate-windows e l short long he hl lt = rw (age_seconds-floor e l he hl) (
  (λ h. ground arith, λ h. ground arith),
  (λ h. ground arith, λ h. ground arith),
  (λ h. ground arith, λ h. ground arith),
)

-- How far a value stands from the last contact.
abbrev pub rank : Value → ℕ
rank no_position = 0
rank live = 1
rank recent = 2
rank stale = 3

-- For instants within 2^61 seconds of the epoch, a device's value only moves from live to recent
-- to stale while no contact arrives, and a later contact never makes it staler at one instant.
pub evaluate-rank_mono :
    (e e' l l' : Time) (short long : ℕ)
    → InRange e
    → InRange e'
    → InRange l
    → InRange l'
    → e ≤ℤ e'
    → l' ≤ℤ l
    → rank (evaluate e (some l) (windows short long))
      ≤ rank (evaluate e' (some l') (windows short long))
unfolding evaluate
evaluate-rank_mono e e' l l' short long he he' hl hl' le le' =
    rw (age_seconds-floor e l he hl, age_seconds-floor e' l' he' hl')
      (ground (arith, older, one_part (e -ℤ l)))
  where
    older : pos_part (e -ℤ l) ≤ pos_part (e' -ℤ l')
    older = omega (arith, -ℤ_parts e l, -ℤ_parts e' l', one_part (e -ℤ l), one_part (e' -ℤ l'))
