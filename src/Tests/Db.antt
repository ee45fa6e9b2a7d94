-- ===== src/Tests/Db.antt =====
-- The properties of the purge on a catalog of two months.
use tracker.Base.{
  Bool, true, false, ◌≡◌, refl, not, some, none, List, [], ◌∷◌, map, keep, ℤ, pos, ◌*◌, ◌-ℤ◌,
}
use tracker.Clock.{Time, second}
use tracker.Db.{Child, drop_children, drop_partitions_before, run_once}
use tracker.Db.Purge.{retained, name_of, run_once_complete, run_once_keeps}

abbrev catalog : List Child
catalog =
    record { name = "fixes_2026_06"; upper = some (pos (1_782_864_000 * second)) }
    ∷ record { name = "fixes_2026_07"; upper = some (pos (1_785_542_400 * second)) }
    ∷ []

abbrev now : Time
now = pos (1_793_000_000 * second)

abbrev ninety_days : ℤ
ninety_days = pos (7_776_000 * second)

abbrev droppable : Child → Bool
droppable c = true

run_once_complete_example : run_once droppable true catalog now ninety_days ≡ record {
  catalog = keep (retained (now -ℤ ninety_days)) catalog;
  dropped = map name_of (keep (λ c. not (retained (now -ℤ ninety_days) c)) catalog);
  stop = none;
}
run_once_complete_example =
    run_once_complete droppable catalog now ninety_days (refl, (refl, tt)) (refl, (refl, tt))

all_done : (run_once droppable true catalog now ninety_days).stop ≡ none
unfolding run_once drop_partitions_before drop_children ◌-ℤ◌
all_done = refl

run_once_keeps_example :
    keep (retained (now -ℤ ninety_days)) (run_once droppable false catalog now ninety_days).catalog
    ≡ keep (retained (now -ℤ ninety_days)) catalog
run_once_keeps_example = run_once_keeps droppable false catalog now ninety_days
