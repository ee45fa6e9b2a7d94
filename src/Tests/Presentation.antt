-- ===== src/Tests/Presentation.antt =====
-- The properties of internal/presentation at the default windows, 300 and 3600 seconds.
use tracker.Base.{
  ◌≡◌, ◌≢◌, ◌↔◌, ◌+◌, ◌*◌, ◌≤◌, ◌<◌, refl, some, pos, ◌-ℤ◌, ◌≤ℤ◌, ◌+ℤ◌, int64, quot, arith,
}
use tracker.Clock.{Time, second, unix, nanosecond}
use tracker.Presentation.{live, recent, stale, age_seconds, evaluate, sweep_bound}
use tracker.Presentation.States.{elapsed, windows, evaluate-windows}
use tracker.Presentation.Sweep.{bound, sweep-recent_seen}

-- 2023-11-14 22:13:20 UTC and a half second.
abbrev contact : Time
contact = pos (1_700_000_000 * second + 500_000_000)

abbrev later : Time
later = pos (1_700_000_400 * second)

evaluate-windows_example :
    let v = evaluate later (some contact) (windows 300 3600) in
    ((v ≡ live) ↔ (elapsed later contact < 301 * second))
    × ((v ≡ recent)
        ↔ ((301 * second ≤ elapsed later contact) × (elapsed later contact < 3601 * second)))
    × ((v ≡ stale) ↔ (3601 * second ≤ elapsed later contact))
evaluate-windows_example =
    evaluate-windows later contact 300 3600 (omega arith, omega arith) (omega arith, omega arith)
      (omega arith)

abbrev soon : Time
soon = pos (1_700_000_100 * second)

soon-near : soon ≤ℤ contact +ℤ pos (bound 300 3600 * second)
unfolding bound sweep_bound ◌+ℤ◌ ◌-ℤ◌ int64 quot
soon-near = ground arith

fresh-live : evaluate contact (some contact) (windows 300 3600) ≡ live
unfolding evaluate age_seconds nanosecond unix int64 ◌-ℤ◌
fresh-live = refl

sweep-recent_seen_example : evaluate soon (some contact) (windows 300 3600) ≢ stale
sweep-recent_seen_example =
    sweep-recent_seen contact soon contact 300 3600 (omega arith, omega arith)
      (omega arith, omega arith) (omega arith, omega arith) (omega arith) (omega arith) soon-near
      fresh-live
