-- ===== src/Presentation/Sweep.antt =====
-- SweepBound: a surface that re-evaluates at that period announces every state.
use tracker.Base.{
  ℕ, ◌-◌, ◌*◌, ◌^◌, ◌≤◌, ◌<◌, ◌≡◌, ◌≢◌, ◌⊎◌, some, pos, pos_part, ◌+ℤ◌, ◌-ℤ◌, ◌≤ℤ◌, -ℤ_parts,
  +ℤ_parts, one_part, int64, quot, arith,
}
use tracker.Clock.{Time, second, InRange}
use tracker.Presentation.{live, stale, evaluate, sweep_bound}
use tracker.Presentation.States.{windows, evaluate-windows}

-- The bound in seconds, for windows that the configuration accepts.
unfoldable pub bound : ℕ → ℕ → ℕ
bound short long = pos_part (sweep_bound (windows short long))

-- Under ordered windows below 2^63 seconds the sweep bound is a positive number of seconds; it is
-- 1 or at most half of the live window and half of the recent band.
pub sweep_bound-half :
    (short long : ℕ)
    → short < long
    → long < 2 ^ 63
    → (sweep_bound (windows short long) ≡ pos (bound short long))
      × (1 ≤ bound short long)
      × ((bound short long ≡ 1)
          ⊎ ((2 * bound short long ≤ short) × (2 * bound short long ≤ long - short)))
unfolding sweep_bound bound int64 quot ◌-ℤ◌
sweep_bound-half short long lt top = (ground arith, ground arith, ground arith)

-- For instants within 2^61 seconds of the epoch and ordered windows below 2^63 seconds, a device
-- that is live is not stale at an evaluation at most the sweep bound later.
pub sweep-recent_seen :
    (e e' l : Time) (short long : ℕ)
    → InRange e
    → InRange e'
    → InRange l
    → short < long
    → long < 2 ^ 63
    → e' ≤ℤ e +ℤ pos (bound short long * second)
    → evaluate e (some l) (windows short long) ≡ live
    → evaluate e' (some l) (windows short long) ≢ stale
sweep-recent_seen e e' l short long he he' hl lt top near was is =
    let fresh = (evaluate-windows e l short long he hl lt).0.0 was in
    let old = (evaluate-windows e' l short long he' hl lt).2.0 is in
    let half = sweep_bound-half short long lt top in
    omega (
      arith,
      -ℤ_parts e l,
      -ℤ_parts e' l,
      +ℤ_parts e (pos (bound short long * second)),
      one_part (e -ℤ l),
      one_part (e' -ℤ l),
    )
