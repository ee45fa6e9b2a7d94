-- ===== src/Db/Provision/Months.antt =====
-- internal/db/partitions.go: which instants the provisioned partitions take.
use tracker.Base.{
  ap, ◌⊎◌, subst, ℕ, zero, suc, ◌+◌, ◌≤◌, ◌<◌, ◌≡◌, arith, refl, true, some, List, [], ◌∷◌, ltb_ℤ,
  leb_ℤ, All, Bool-cases, inl, inr, int_eq, nat_eq, ◌==◌, Option-cases,
}
use tracker.Clock.{Time}
use tracker.Db.Provision.{
  PartitionName, Relation, name_eq, partition_name, ProvisionError, Provisioned, provisioned,
  not_provisioned, Turn, find_relation, covers_instant, has_partition, create_partition,
  check_bounds, ensure_month, ensure_from, ensure_partitions,
}

abbrev pub Attached : List Relation → Type 0
Attached catalog = All (λ r. r.of_fixes ≡ true) catalog

module _ (t : Time) where
  -- A relation that is found by its name and takes the instant.
  find_relation-has_partition :
      (name : PartitionName) (catalog : List Relation) (r : Relation)
      → find_relation name catalog ≡ some r
      → covers_instant t r ≡ true
      → has_partition t catalog ≡ true
  unfolding find_relation has_partition
  find_relation-has_partition name [] r h c = ground arith
  find_relation-has_partition name (x ∷ rest) r h c =
      ground (arith, find_relation-has_partition name rest r)

  pub create_partition-has_partition :
      (turn : Turn) (catalog : List Relation) (name : PartitionName) (start end : Time)
      → has_partition t catalog ≡ true
      → has_partition t (create_partition turn catalog name start end).0 ≡ true
  unfolding create_partition has_partition
  create_partition-has_partition turn catalog name start end h = ground arith

find_relation-of_fixes :
    (name : PartitionName) (catalog : List Relation) (r : Relation)
    → Attached catalog
    → find_relation name catalog ≡ some r
    → r.of_fixes ≡ true
unfolding find_relation
find_relation-of_fixes name [] r all h = ground arith
find_relation-of_fixes name (x ∷ rest) r all h =
    ground (arith, find_relation-of_fixes name rest r all.1)

-- The bounds that a successful check has read.
check_bounds-found :
    (turn : Turn) (catalog : List Relation) (name : PartitionName) (start end : Time)
    (names : List PartitionName)
    → check_bounds turn catalog name start end ≡ provisioned names
    → (r : Relation) × (find_relation name catalog ≡ some r) × (r.bounds ≡ some (start, end))
unfolding check_bounds
check_bounds-found turn catalog name start end names h =
    elim (Option-cases (find_relation name catalog)) [
      | inl missing ↦ ground arith
      | inr (r, here) ↦ (
        r,
        here,
        elim (Option-cases r.bounds) [
          | inl unbounded ↦ ground arith
          | inr ((lower, upper), bounded) ↦
              ground (arith, int_eq.beq_iff lower start, int_eq.beq_iff upper end)
        ],
      )
    ]

pub create_partition-Attached :
    (turn : Turn) (catalog : List Relation) (name : PartitionName) (start end : Time)
    → Attached catalog
    → Attached (create_partition turn catalog name start end).0
unfolding create_partition
create_partition-Attached turn catalog name start end h = ground arith

covers_instant-bounded :
    (t : Time) (r : Relation) (lower upper : Time)
    → r.of_fixes ≡ true
    → r.bounds ≡ some (lower, upper)
    → leb_ℤ lower t ≡ true
    → ltb_ℤ t upper ≡ true
    → covers_instant t r ≡ true
unfolding covers_instant
covers_instant-bounded t r lower upper fixes bounded from to = rw bounded (ground arith)

Provisioned-cases :
    (p : Provisioned)
    → ((names : List PartitionName) × (p ≡ provisioned names))
      ⊎ ((e : ProvisionError) × (p ≡ not_provisioned e))
Provisioned-cases (provisioned names) = inl (names, refl)
Provisioned-cases (not_provisioned e) = inr (e, refl)

module _ (month_of : Time → ℕ) (starts : ℕ → Time) where
  pub ensure_month-Attached :
      (turn : Turn) (catalog : List Relation) (m : ℕ)
      → Attached catalog
      → Attached (ensure_month month_of starts turn catalog m).0
  unfolding ensure_month
  ensure_month-Attached turn catalog m all =
      ground (
        arith,
        create_partition-Attached turn catalog (partition_name m) (starts m) (starts (suc m)),
      )

  ensured :
      (turn : Turn) (catalog : List Relation) (m : ℕ) (names : List PartitionName)
      → (ensure_month month_of starts turn catalog m).1 ≡ provisioned names
      → check_bounds turn
          (ensure_month month_of starts turn catalog m).0
          (partition_name m)
          (starts m)
          (starts (suc m))
        ≡ provisioned names
  unfolding ensure_month
  ensured turn catalog m names h = ground arith

  -- One month that has been provisioned takes its instants.
  pub ensure_month-has_partition :
      (turn : Turn) (catalog : List Relation) (m : ℕ) (names : List PartitionName) (t : Time)
      → Attached catalog
      → (ensure_month month_of starts turn catalog m).1 ≡ provisioned names
      → leb_ℤ (starts m) t ≡ true
      → ltb_ℤ t (starts (suc m)) ≡ true
      → has_partition t (ensure_month month_of starts turn catalog m).0 ≡ true
  ensure_month-has_partition turn catalog m names t all h from to =
      let left = (ensure_month month_of starts turn catalog m).0 in
      let (r, here, bounded) =
        check_bounds-found turn left (partition_name m) (starts m) (starts (suc m)) names
          (ensured turn catalog m names h) in
      let fixes =
        find_relation-of_fixes (partition_name m) left r (ensure_month-Attached turn catalog m all)
          here in
      find_relation-has_partition t (partition_name m) left r here
        (covers_instant-bounded t r (starts m) (starts (suc m)) fixes bounded from to)

  ensure_from-keeps :
      (turns : ℕ → Turn) (catalog : List Relation) (m n : ℕ) (t : Time)
      → has_partition t catalog ≡ true
      → has_partition t (ensure_from month_of starts turns catalog m n).0 ≡ true
  unfolding ensure_from ensure_month
  ensure_from-keeps turns catalog m zero t h = h
  ensure_from-keeps turns catalog m (suc n) t h =
      let made =
        create_partition (turns m) catalog (partition_name m) (starts m) (starts (suc m)) in
      ground (
        arith,
        create_partition-has_partition t (turns m) catalog (partition_name m) (starts m)
            (starts (suc m)),
        ensure_from-keeps turns made.0 (suc m) n t,
      )

  ensured_first :
      (turns : ℕ → Turn) (catalog : List Relation) (m n : ℕ) (names : List PartitionName)
      → (ensure_from month_of starts turns catalog m (suc n)).1 ≡ provisioned names
      → let here = (ensure_month month_of starts (turns m) catalog m).0 in
        (first : List PartitionName) × (rest : List PartitionName) × ((ensure_month month_of starts
            (turns m)
            catalog
            m).1
          ≡ provisioned first)
        × ((ensure_from month_of starts turns here (suc m) n).1 ≡ provisioned rest)
        × ((ensure_from month_of starts turns catalog m (suc n)).0
            ≡ (ensure_from month_of starts turns here (suc m) n).0)
  unfolding ensure_from
  ensured_first turns catalog m n names h =
      let made = ensure_month month_of starts (turns m) catalog m in
      elim (Provisioned-cases made.1) [
        | inr (e, q) ↦ ground arith
        | inl (first, q) ↦
            elim (Provisioned-cases (ensure_from month_of starts turns made.0 (suc m) n).1) [
              | inr (e, k) ↦ ground arith
              | inl (rest, k) ↦ (first, rest, q, k, ground arith)
            ]
      ]

  ensure_from-has_partition :
      (turns : ℕ → Turn) (catalog : List Relation) (m n k : ℕ) (names : List PartitionName)
      (t : Time)
      → Attached catalog
      → (ensure_from month_of starts turns catalog m n).1 ≡ provisioned names
      → m ≤ k
      → k < m + n
      → leb_ℤ (starts k) t ≡ true
      → ltb_ℤ t (starts (suc k)) ≡ true
      → has_partition t (ensure_from month_of starts turns catalog m n).0 ≡ true
  ensure_from-has_partition turns catalog m zero k names t all h low high from to = ground arith
  ensure_from-has_partition turns catalog m (suc n) k names t all h low high from to =
      let here = (ensure_month month_of starts (turns m) catalog m).0 in
      let (first, rest, made, later, same) = ensured_first turns catalog m n names h in
      rw same (elim (Bool-cases (m == k)) [
        | inl this ↦
            let is = (nat_eq.beq_iff m k).0 this in
            ensure_from-keeps turns here (suc m) n t (
              ensure_month-has_partition (turns m) catalog m first t all made (rw is from)
                (rw is to))
        | inr other ↦
            ensure_from-has_partition turns here (suc m) n k rest t
              (ensure_month-Attached (turns m) catalog m all) later
              (ground (arith, nat_eq.beq_iff m k)) (omega arith) from to
      ])

  -- If every relation with a partition's name belongs to the table of fixes, and provisioning
  -- reports success, then every instant of each of the months asked for has a partition that
  -- takes it, whatever relations were there before.
  pub ensure_partitions-has_partition :
      (turns : ℕ → Turn) (catalog left : List Relation) (from : Time) (n k : ℕ)
      (names : List PartitionName) (t : Time)
      → Attached catalog
      → ensure_partitions month_of starts turns catalog from n ≡ (left, provisioned names)
      → month_of from ≤ k
      → k < month_of from + n
      → leb_ℤ (starts k) t ≡ true
      → ltb_ℤ t (starts (suc k)) ≡ true
      → has_partition t left ≡ true
  unfolding ensure_partitions
  ensure_partitions-has_partition turns catalog left from zero k names t all h low high since
        until =
      ground arith
  ensure_partitions-has_partition turns catalog left from (suc n) k names t all h low high since
        until =
      subst (λ c. has_partition t c ≡ true) (ap (λ p. p.0) h)
        (ensure_from-has_partition turns catalog (month_of from) (suc n) k names t all
          (ap (λ p. p.1) h) low high since until)
