-- ===== src/Store/Ingest.antt =====
-- internal/store/store.go: how one fix reaches the table `fixes`. Go's float64 is the parameter `F`
-- with the operations that the code calls; the calendar is that of Db/Provision. The table is the
-- list of its rows beside the catalog of its partitions. A statement is served or fails with an error
-- of the driver; a row of the table has the instant that the database stamps it with.
pub mod Window
pub mod Replay
pub mod Heal
use tracker.Base.{
  ℕ, zero, suc, ◌*◌, ◌≡◌, ◌↔◌, arith, Bool, true, false, ◌&&◌, ◌||◌, not, String, Option, none,
  some, List, [], ◌∷◌, if◌then◌else◌, ◌==◌, nat_eq, string_eq, int_eq, ℤ, pos, negsuc, ◌+ℤ◌, ◌-ℤ◌,
}
use tracker.Clock.{Time, before, after, hour}
use tracker.Config.ParseInt.{codes}
use tracker.Db.Provision.{
  DbError, pg_error, driver_error, Relation, has_partition, ProvisionError, not_created,
  bounds_unread, Provisioned, provisioned, not_provisioned, Turn, ensure_monthly_partition,
}

-- math.IsNaN, math.IsInf of either sign, `<`, and the conversion of an integer constant.
pub record Floats (F : Type 0) : Type 0 where
  pub is_nan : F → Bool
  pub is_inf : F → Bool
  pub less : F → F → Bool
  pub whole : ℤ → F

pub record Fix (F : Type 0) : Type 0 where
  pub device_id : String
  pub ts : Time
  pub lon : F
  pub lat : F
  pub accuracy_m : Option F
  pub battery_pct : Option ℤ
  pub speed_mps : Option F
  pub trigger_reason : Option String
  pub msg_id : Option String

pub record Stored (F : Type 0) : Type 0 where
  pub fix : Fix F
  pub received_at : Time

pub record Fixes (F : Type 0) : Type 0 where
  pub rows : List (Stored F)
  pub catalog : List Relation

pub data CoordinateError : Type 0 where
  not_finite longitude_out latitude_out : CoordinateError

-- What ends an ingestion.
pub data IngestError : Type 0 where
  coordinate_out_of_range : CoordinateError → IngestError
  timestamp_ahead timestamp_past : IngestError
  not_inserted : DbError → IngestError
  partition_not_provisioned : ProvisionError → IngestError

pub data Ingested : Type 0 where
  ingested : Bool → Ingested
  not_ingested : IngestError → Ingested

-- How the statements of one ingestion fare: the first INSERT, the provisioning, the second INSERT.
pub record Session : Type 0 where
  pub first_fails : Option DbError
  pub provisioning : Turn
  pub second_fails : Option DbError

abbrev pub max_ingest_future_skew : ℕ
max_ingest_future_skew = 24 * hour

abbrev pub max_ingest_backlog : ℕ
max_ingest_backlog = 90 * 24 * hour

-- strings.Contains.
abbrev starts_with : List ℕ → List ℕ → Bool
starts_with [] ys = true
starts_with (x ∷ xs) [] = false
starts_with (x ∷ xs) (y ∷ ys) = x == y && starts_with xs ys

abbrev has_part : List ℕ → List ℕ → Bool
has_part part [] = starts_with part []
has_part part (y ∷ ys) = if starts_with part (y ∷ ys) then true else has_part part ys

unfoldable pub is_missing_partition_err : DbError → Bool
is_missing_partition_err (pg_error code message) =
    has_part (codes "no partition of relation") (codes message)
is_missing_partition_err driver_error = false

-- errors.As reaches the driver's error through what EnsureMonthlyPartition wraps it in.
unfoldable pub is_duplicate_relation_err : ProvisionError → Bool
is_duplicate_relation_err (not_created (pg_error code message)) = code == "42P07"
is_duplicate_relation_err (bounds_unread (pg_error code message)) = code == "42P07"
is_duplicate_relation_err _ = false

abbrev pub no_partition : DbError
no_partition = pg_error "23514" "no partition of relation \"fixes\" found for row"

unfoldable pub validate_fix_timestamp : Time → Time → Option IngestError
validate_fix_timestamp ts now =
    if after ts (now +ℤ pos max_ingest_future_skew)
    then some timestamp_ahead
    else if before ts (now -ℤ pos max_ingest_backlog)
    then some timestamp_past
    else none

module _ {F : Type 0} where
  -- The primary key (device_id, ts).
  unfoldable pub is_stored : String → Time → List (Stored F) → Bool
  is_stored device_id ts [] = false
  is_stored device_id ts (r ∷ rest) =
      if r.fix.device_id == device_id && r.fix.ts == ts then true else is_stored device_id ts rest

  -- INSERT ... ON CONFLICT (device_id, ts) DO NOTHING, and RowsAffected.
  unfoldable pub insert_fix : Option DbError → Time → Fixes F → Fix F → Fixes F × Ingested
  insert_fix (some e) stamp s f = (s, not_ingested (not_inserted e))
  insert_fix none stamp s f =
      if not (has_partition f.ts s.catalog)
      then (s, not_ingested (not_inserted no_partition))
      else if is_stored f.device_id f.ts s.rows
      then (s, ingested false)
      else (record s { rows = record { fix = f; received_at = stamp } ∷ s.rows }, ingested true)

module _ {F : Type 0} (floats : Floats F) where
  unfoldable pub validate_lon_lat : F → F → Option CoordinateError
  validate_lon_lat lon lat =
      if floats.is_nan lon || floats.is_nan lat || floats.is_inf lon || floats.is_inf lat
      then some not_finite
      else if floats.less lon (floats.whole (negsuc 179))
          || floats.less (floats.whole (pos 180)) lon
      then some longitude_out
      else if floats.less lat (floats.whole (negsuc 89)) || floats.less (floats.whole (pos 90)) lat
      then some latitude_out
      else none

  unfoldable pub upsert_fix : Option DbError → Time → Fixes F → Fix F → Fixes F × Ingested
  upsert_fix fails stamp s f = elim (validate_lon_lat f.lon f.lat) [
    | some e ↦ (s, not_ingested (coordinate_out_of_range e))
    | none ↦ insert_fix fails stamp s f
  ]

  module _ (month_of : Time → ℕ) (starts : ℕ → Time) where
    -- The failed INSERT, the month provisioned, and the INSERT again.
    unfoldable pub retry : Session → Time → Fixes F → Fix F → Fixes F × Ingested
    retry session stamp s f =
        let (catalog, result) =
          ensure_monthly_partition month_of starts session.provisioning s.catalog f.ts in
        let again = upsert_fix session.second_fails stamp (record s { catalog = catalog }) f in
        elim result [
          | provisioned names ↦ again
          | not_provisioned e ↦
              if is_duplicate_relation_err e
              then again
              else (record s { catalog = catalog }, not_ingested (partition_not_provisioned e))
        ]

    unfoldable pub ingest_fix : Session → Time → Fixes F → Fix F → Time → Fixes F × Ingested
    ingest_fix session stamp s f now =
        let first = upsert_fix session.first_fails stamp s f in
        let second = retry session stamp first.0 f in
        elim (validate_fix_timestamp f.ts now) [
          | some e ↦ (s, not_ingested e)
          | none ↦ elim first.1 [
            | ingested inserted ↦ first
            | not_ingested (not_inserted e) ↦ if is_missing_partition_err e then second else first
            | not_ingested e ↦ first
          ]
        ]
