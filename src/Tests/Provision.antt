-- ===== src/Tests/Provision.antt =====
-- The properties of the provisioning, in a calendar whose months have thirty days.
use tracker.Base.{
  ℕ, ◌+◌, ◌*◌, ◌/◌, ◌≤◌, ◌≡◌, refl, arith, true, false, none, [], ◌∷◌, map, pos, negsuc, leb_ℤ,
  nat_eq, int_eq, contains,
}
use tracker.Clock.{Time, hour}
use tracker.Db.Provision.{
  Turn, provisioned, create_partition, check_bounds, find_relation, overlaps, has_partition,
  ensure_month, ensure_from, ensure_partitions, name_eq,
}
use tracker.Db.Provision.Months.{ensure_partitions-has_partition}
use tracker.Db.Provision.Calm.{month_relation, with_months, names_from, ensure_partitions-Calm}

abbrev pub thirty_days : ℕ
thirty_days = 30 * 24 * hour

abbrev pub starts : ℕ → Time
starts m = pos (m * thirty_days)

abbrev pub month_of : Time → ℕ
month_of (pos n) = n / thirty_days
month_of (negsuc n) = 0

pub ordered : (a b : ℕ) → a ≤ b → leb_ℤ (starts a) (starts b) ≡ true
ordered a b h = ground arith

abbrev pub quiet : Turn
quiet = record { raced = false; create_fails = none; read_fails = none }

-- The fifth hour of the third month.
abbrev pub someday : Time
someday = pos (2 * thirty_days + 5 * hour)

provisions :
    ensure_partitions month_of starts (λ k. quiet) (map (month_relation starts) (2 ∷ [])) someday 3
    ≡ (map (month_relation starts) (4 ∷ 3 ∷ 2 ∷ []), provisioned (names_from 2 3))
unfolding ensure_partitions ensure_from ensure_month create_partition check_bounds find_relation
    overlaps contains
provisions = refl

ensure_partitions-has_partition_example :
    has_partition (pos (4 * thirty_days + 7)) (map (month_relation starts) (4 ∷ 3 ∷ 2 ∷ [])) ≡ true
ensure_partitions-has_partition_example =
    ensure_partitions-has_partition month_of starts (λ k. quiet)
      (map (month_relation starts) (2 ∷ [])) (map (month_relation starts) (4 ∷ 3 ∷ 2 ∷ [])) someday
      3 4 (names_from 2 3) (pos (4 * thirty_days + 7)) (refl, tt) provisions (omega arith)
      (omega arith) refl refl

ensure_partitions-Calm_example :
    ensure_partitions month_of starts (λ k. quiet) (map (month_relation starts) (2 ∷ [])) someday 3
    ≡ (map (month_relation starts) (with_months 2 3 (2 ∷ [])), provisioned (names_from 2 3))
ensure_partitions-Calm_example =
    ensure_partitions-Calm starts ordered month_of (λ k. quiet) someday 3 (2 ∷ [])
      (λ k. (refl, refl, refl)) (omega arith)
