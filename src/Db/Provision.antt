-- ===== src/Db/Provision.antt =====
-- internal/db/partitions.go: how the monthly partitions of `fixes` are created. Go's calendar is a
-- parameter: months are counted from January of year 0, `month_of` is the month of an instant in UTC
-- and `starts` the first instant of a month. The catalog is the list of the relations whose names
-- have the form of a partition's; a relation has bounds where the database can state them.
pub mod Months
pub mod Calm
use Prim.Native.String.{◌++◌}
use tracker.Base.{
  ℕ, zero, suc, ◌+◌, ◌/◌, ◌%◌, ◌≡◌, ◌↔◌, arith, refl, Bool, true, false, ◌&&◌, ◌||◌, not, String,
  Option, none, some, List, [], ◌∷◌, if◌then◌else◌, ◌==◌, nat_eq, Eq, ltb_ℤ, leb_ℤ, int_eq,
  contains, string_eq, ℤ, take, drop, length,
}
use tracker.Clock.{Time, before, after}
use tracker.Config.ParseInt.{codes}

-- An error of the database driver: Postgres's, with its SQLSTATE and message, or another.
pub data DbError : Type 0 where
  pg_error : String → String → DbError
  driver_error : DbError

-- `fixes_%04d_%02d`: two names are one exactly when the years and the months are.
pub record PartitionName : Type 0 where
  pub year : ℕ
  pub month : ℕ

abbrev same_name : PartitionName → PartitionName → Bool
same_name a b = a.year == b.year && a.month == b.month

pub same_name_iff : (a b : PartitionName) → (same_name a b ≡ true) ↔ (a ≡ b)
same_name_iff a b = ground (arith, nat_eq.beq_iff a.year b.year, nat_eq.beq_iff a.month b.month)

instance abbrev pub name_eq : Eq PartitionName
name_eq = record { beq = same_name; beq_iff = same_name_iff }

abbrev pub partition_name : ℕ → PartitionName
partition_name m = record { year = m / 12; month = suc (m % 12) }

pub record Relation : Type 0 where
  pub name : PartitionName
  pub of_fixes : Bool
  pub bounds : Option (Time × Time)

-- What ends EnsureMonthlyPartition.
pub data ProvisionError : Type 0 where
  not_created bounds_unread : DbError → ProvisionError
  unrecognized_bounds : PartitionName → ProvisionError
  too_few_months : ProvisionError

pub data Provisioned : Type 0 where
  provisioned : List PartitionName → Provisioned
  not_provisioned : ProvisionError → Provisioned

-- How the two statements of one call fare. `raced`: another process creates the relation at the same
-- instant, so that this one's CREATE meets it although the relation was not there before.
pub record Turn : Type 0 where
  pub raced : Bool
  pub create_fails : Option DbError
  pub read_fails : Option DbError

abbrev pub duplicate_relation : DbError
duplicate_relation = pg_error "42P07" "relation already exists"

abbrev pub would_overlap : DbError
would_overlap = pg_error "42P17" "partition would overlap another partition"

unfoldable pub find_relation : PartitionName → List Relation → Option Relation
find_relation name [] = none
find_relation name (r ∷ rest) = if r.name == name then some r else find_relation name rest

-- Whether a partition of `fixes` takes the instant.
unfoldable pub covers_instant : Time → Relation → Bool
covers_instant t r = elim r.bounds [
  | none ↦ false
  | some (lower, upper) ↦ r.of_fixes && leb_ℤ lower t && ltb_ℤ t upper
]

unfoldable pub has_partition : Time → List Relation → Bool
has_partition t [] = false
has_partition t (r ∷ rest) = if covers_instant t r then true else has_partition t rest

unfoldable pub overlaps : Time → Time → List Relation → Bool
overlaps lower upper [] = false
overlaps lower upper (r ∷ rest) = elim r.bounds [
  | none ↦ overlaps lower upper rest
  | some (l, u) ↦
      if r.of_fixes && ltb_ℤ l upper && ltb_ℤ lower u then true else overlaps lower upper rest
]

abbrev pub new_partition : PartitionName → Time → Time → Relation
new_partition name start end = record { name = name; of_fixes = true; bounds = some (start, end) }

-- CREATE TABLE IF NOT EXISTS ... PARTITION OF fixes: the catalog after it, and its error.
unfoldable pub create_partition :
    Turn → List Relation → PartitionName → Time → Time → List Relation × Option DbError
create_partition turn catalog name start end = elim turn.create_fails [
  | some e ↦ (catalog, some e)
  | none ↦ elim (find_relation name catalog) [
    | some r ↦ (catalog, none)
    | none ↦
        if overlaps start end catalog
        then (catalog, some would_overlap)
        else if turn.raced
        then (new_partition name start end ∷ catalog, some duplicate_relation)
        else (new_partition name start end ∷ catalog, none)
  ]
]

-- The check of the bounds after CREATE: a relation that is not there answers no row.
unfoldable pub check_bounds : Turn → List Relation → PartitionName → Time → Time → Provisioned
check_bounds turn catalog name start end = elim turn.read_fails [
  | some e ↦ not_provisioned (bounds_unread e)
  | none ↦ elim (find_relation name catalog) [
    | none ↦ not_provisioned (bounds_unread driver_error)
    | some r ↦ elim r.bounds [
      | none ↦ not_provisioned (unrecognized_bounds name)
      | some (lower, upper) ↦
          if lower == start && upper == end
          then provisioned (name ∷ [])
          else not_provisioned (unrecognized_bounds name)
    ]
  ]
]

module _ (month_of : Time → ℕ) (starts : ℕ → Time) where
  -- The month is given by its number, whose first instant monthStart is.
  unfoldable pub ensure_month : Turn → List Relation → ℕ → List Relation × Provisioned
  ensure_month turn catalog m =
      let (after_create, error) =
        create_partition turn catalog (partition_name m) (starts m) (starts (suc m)) in
      elim error [
        | some e ↦ (after_create, not_provisioned (not_created e))
        | none ↦ (
          after_create,
          check_bounds turn after_create (partition_name m) (starts m) (starts (suc m)),
        )
      ]

  unfoldable pub ensure_monthly_partition :
      Turn → List Relation → Time → List Relation × Provisioned
  ensure_monthly_partition turn catalog month = ensure_month turn catalog (month_of month)

  abbrev pub and_name : PartitionName → Provisioned → Provisioned
  and_name name (provisioned names) = provisioned (name ∷ names)
  and_name name (not_provisioned e) = not_provisioned e

  -- The loop over `months` months from `m` on, each call with its turn.
  unfoldable pub ensure_from : (ℕ → Turn) → List Relation → ℕ → ℕ → List Relation × Provisioned
  ensure_from turns catalog m zero = (catalog, provisioned [])
  ensure_from turns catalog m (suc months) =
      let (here, result) = ensure_month (turns m) catalog m in
      let (left, rest) = ensure_from turns here (suc m) months in
      elim result [
        | not_provisioned e ↦ (here, not_provisioned e)
        | provisioned names ↦ (left, and_name (partition_name m) rest)
      ]

  unfoldable pub ensure_partitions :
      (ℕ → Turn) → List Relation → Time → ℕ → List Relation × Provisioned
  ensure_partitions turns catalog from zero = (catalog, not_provisioned too_few_months)
  ensure_partitions turns catalog from (suc n) = ensure_from turns catalog (month_of from) (suc n)
