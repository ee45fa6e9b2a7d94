-- ===== src/Db/Provision/Calm.antt =====
-- internal/db/partitions.go: what provisioning makes of a catalog that only it has written.
use tracker.Base.{
  ℕ, zero, suc, ◌≤◌, ◌<◌, ◌≡◌, arith, refl, true, false, none, some, List, [], ◌∷◌, leb_ℤ, map,
  int_eq, nat_eq, ◌==◌, contains, if◌then◌else◌, ap,
}
use tracker.Clock.{Time}
use tracker.Db.Provision.{
  duplicate_relation, not_created, PartitionName, Relation, name_eq, partition_name, provisioned,
  not_provisioned, Turn, find_relation, overlaps, new_partition, create_partition, check_bounds,
  ensure_month, ensure_from, ensure_partitions,
}

partition_name-injective : (m k : ℕ) → partition_name m ≡ partition_name k → m ≡ k
partition_name-injective m k h = omega (arith, ap (λ n. n.year) h, ap (λ n. n.month) h)

same_name-month : (m k : ℕ) → (partition_name m == partition_name k) ≡ (m == k)
same_name-month m k = ground (
  arith,
  name_eq.beq_iff (partition_name m) (partition_name k),
  partition_name-injective m k,
  nat_eq.beq_iff m k,
)

-- No statement fails and no other process creates partitions.
abbrev pub Calm : Turn → Type 0
Calm turn = (turn.raced ≡ false) × (turn.create_fails ≡ none) × (turn.read_fails ≡ none)

-- The months after one, and after a run of months, has been asked for.
abbrev pub with_month : ℕ → List ℕ → List ℕ
with_month k months = if contains k months then months else k ∷ months

abbrev pub with_months : ℕ → ℕ → List ℕ → List ℕ
with_months m zero months = months
with_months m (suc n) months = with_months (suc m) n (with_month m months)

abbrev pub names_from : ℕ → ℕ → List PartitionName
names_from m zero = []
names_from m (suc n) = partition_name m ∷ names_from (suc m) n

module _ (starts : ℕ → Time) where
  abbrev pub month_relation : ℕ → Relation
  month_relation m = new_partition (partition_name m) (starts m) (starts (suc m))

  pub find_relation-months :
      (k : ℕ) (months : List ℕ)
      → find_relation (partition_name k) (map month_relation months)
        ≡ (if contains k months then some (month_relation k) else none)
  unfolding find_relation contains
  find_relation-months k [] = refl
  find_relation-months k (m ∷ rest) =
      rw (same_name-month m k) (ground (arith, find_relation-months k rest, nat_eq.beq_iff m k))

  module _ (ordered : (a b : ℕ) → a ≤ b → leb_ℤ (starts a) (starts b) ≡ true) where
    pub overlaps-months :
        (k : ℕ) (months : List ℕ)
        → contains k months ≡ false
        → overlaps (starts k) (starts (suc k)) (map month_relation months) ≡ false
    unfolding overlaps contains
    overlaps-months k [] h = refl
    overlaps-months k (m ∷ rest) h =
        ground
          (arith, overlaps-months k rest, nat_eq.beq_iff m k, ordered (suc m) k, ordered (suc k) m)

    create_partition-Calm :
        (turn : Turn) (k : ℕ) (months : List ℕ)
        → Calm turn
        → create_partition turn
            (map month_relation months)
            (partition_name k)
            (starts k)
            (starts (suc k))
          ≡ (map month_relation (with_month k months), none)
    unfolding create_partition
    create_partition-Calm turn k months calm =
        ground (arith, find_relation-months k months, overlaps-months k months)

  pub contains-with_month : (k : ℕ) (months : List ℕ) → contains k (with_month k months) ≡ true
  unfolding contains
  contains-with_month k months = ground (arith, nat_eq.beq_iff k k)

  check_bounds-Calm :
      (turn : Turn) (k : ℕ) (months : List ℕ)
      → Calm turn
      → contains k months ≡ true
      → check_bounds turn (map month_relation months) (partition_name k) (starts k) (starts (suc k))
        ≡ provisioned (partition_name k ∷ [])
  unfolding check_bounds
  check_bounds-Calm turn k months calm known = ground (
    arith,
    find_relation-months k months,
    int_eq.beq_iff (starts k) (starts k),
    int_eq.beq_iff (starts (suc k)) (starts (suc k)),
  )

  module _ (ordered : (a b : ℕ) → a ≤ b → leb_ℤ (starts a) (starts b) ≡ true)
      (month_of : Time → ℕ) where
    pub ensure_month-Calm :
        (turn : Turn) (k : ℕ) (months : List ℕ)
        → Calm turn
        → ensure_month month_of starts turn (map month_relation months) k
          ≡ (map month_relation (with_month k months), provisioned (partition_name k ∷ []))
    unfolding ensure_month
    ensure_month-Calm turn k months calm = ground (
      arith,
      create_partition-Calm ordered turn k months,
      check_bounds-Calm turn k (with_month k months),
      contains-with_month k months,
    )

    -- Where another process has made the partition first, the call fails on it, and the partition is there.
    pub ensure_month-raced :
        (turn : Turn) (k : ℕ) (months : List ℕ)
        → turn.raced ≡ true
        → turn.create_fails ≡ none
        → contains k months ≡ false
        → ensure_month month_of starts turn (map month_relation months) k ≡ (
          map month_relation (with_month k months),
          not_provisioned (not_created duplicate_relation),
        )
    unfolding ensure_month create_partition
    ensure_month-raced turn k months race served new =
        ground (arith, find_relation-months k months, overlaps-months ordered k months)

    ensure_from-Calm :
        (turns : ℕ → Turn) (m n : ℕ) (months : List ℕ)
        → ((k : ℕ) → Calm (turns k))
        → ensure_from month_of starts turns (map month_relation months) m n
          ≡ (map month_relation (with_months m n months), provisioned (names_from m n))
    unfolding ensure_from
    ensure_from-Calm turns m zero months calm = refl
    ensure_from-Calm turns m (suc n) months calm = ground (
      arith,
      ensure_month-Calm (turns m) m months (calm m),
      ensure_from-Calm turns (suc m) n (with_month m months) calm,
    )

    -- Where no statement fails and no other process creates partitions, provisioning a positive
    -- number of months over a catalog that is the partitions of a set of months succeeds, adds
    -- exactly the months that were missing, and names every month asked for, in order.
    pub ensure_partitions-Calm :
        (turns : ℕ → Turn) (from : Time) (n : ℕ) (months : List ℕ)
        → ((k : ℕ) → Calm (turns k))
        → 0 < n
        → ensure_partitions month_of starts turns (map month_relation months) from n ≡ (
          map month_relation (with_months (month_of from) n months),
          provisioned (names_from (month_of from) n),
        )
    unfolding ensure_partitions
    ensure_partitions-Calm turns from zero months calm some_months = ground arith
    ensure_partitions-Calm turns from (suc n) months calm some_months =
        ensure_from-Calm turns (month_of from) (suc n) months calm
