-- ===== src/Store/Ingest/Heal.antt =====
-- internal/store/store.go: the month that no partition takes yet.
use tracker.Base.{
  ℕ, suc, ◌≤◌, ◌≡◌, arith, refl, true, false, not, none, List, [], ◌∷◌, if◌then◌else◌, nat_eq,
  string_eq, int_eq, Bool-cases, inl, inr, map, leb_ℤ, ltb_ℤ, contains,
}
use tracker.Clock.{Time}
use tracker.Db.Provision.{
  has_partition, covers_instant, ensure_monthly_partition, not_created, duplicate_relation,
}
use tracker.Db.Provision.Calm.{
  month_relation, with_month, contains-with_month, ensure_month-Calm, ensure_month-raced,
}
use tracker.Store.Ingest.{
  Floats, Fix, Stored, Fixes, not_inserted, ingested, not_ingested, Session,
  is_missing_partition_err, is_duplicate_relation_err, no_partition, validate_fix_timestamp,
  is_stored, insert_fix, validate_lon_lat, upsert_fix, retry, ingest_fix,
}

-- The driver's error for an instant that no partition takes is known as such.
known_missing : is_missing_partition_err no_partition ≡ true
unfolding is_missing_partition_err
known_missing = refl

known_duplicate : is_duplicate_relation_err (not_created duplicate_relation) ≡ true
unfolding is_duplicate_relation_err
known_duplicate = ground (arith, string_eq.beq_iff "42P07" "42P07")

module _ (starts : ℕ → Time) where
  has_partition-months :
      (t : Time) (k : ℕ) (months : List ℕ)
      → leb_ℤ (starts k) t ≡ true
      → ltb_ℤ t (starts (suc k)) ≡ true
      → contains k months ≡ true
      → has_partition t (map (month_relation starts) months) ≡ true
  unfolding has_partition covers_instant contains
  has_partition-months t k [] from to h = ground arith
  has_partition-months t k (m ∷ rest) from to h =
      ground (arith, has_partition-months t k rest from to, nat_eq.beq_iff m k)

  module _ (ordered : (a b : ℕ) → a ≤ b → leb_ℤ (starts a) (starts b) ≡ true) where
    has_partition-new :
        (t : Time) (k : ℕ) (months : List ℕ)
        → leb_ℤ (starts k) t ≡ true
        → ltb_ℤ t (starts (suc k)) ≡ true
        → contains k months ≡ false
        → has_partition t (map (month_relation starts) months) ≡ false
    unfolding has_partition covers_instant contains
    has_partition-new t k [] from to h = refl
    has_partition-new t k (m ∷ rest) from to h = ground (
      arith,
      has_partition-new t k rest from to,
      nat_eq.beq_iff m k,
      ordered (suc m) k,
      ordered (suc k) m,
    )

    has_partition-known :
        (t : Time) (k : ℕ) (months : List ℕ)
        → leb_ℤ (starts k) t ≡ true
        → ltb_ℤ t (starts (suc k)) ≡ true
        → has_partition t (map (month_relation starts) months) ≡ contains k months
    has_partition-known t k months from to = elim (Bool-cases (contains k months)) [
      | inl known ↦ rw known (has_partition-months t k months from to known)
      | inr new ↦ rw new (has_partition-new t k months from to new)
    ]

    module _ {F : Type 0} (floats : Floats F) (month_of : Time → ℕ) (stamp : Time)
        (rows : List (Stored F)) (f : Fix F) where
      -- The table of these months, with the fix in it once.
      abbrev pub table : List ℕ → List (Stored F) → Fixes F
      table months held = record { rows = held; catalog = map (month_relation starts) months }

      abbrev pub with_fix : List (Stored F)
      with_fix =
          if is_stored f.device_id f.ts rows
          then rows
          else record { fix = f; received_at = stamp } ∷ rows

      upsert_fix-table :
          (months : List ℕ)
          → validate_lon_lat floats f.lon f.lat ≡ none
          → leb_ℤ (starts (month_of f.ts)) f.ts ≡ true
          → ltb_ℤ f.ts (starts (suc (month_of f.ts))) ≡ true
          → upsert_fix floats none stamp (table months rows) f ≡ (
              if contains (month_of f.ts) months
              then (table months with_fix, ingested (not (is_stored f.device_id f.ts rows)))
              else (table months rows, not_ingested (not_inserted no_partition)))
      unfolding upsert_fix insert_fix
      upsert_fix-table months legal from to =
          ground (arith, has_partition-known f.ts (month_of f.ts) months from to)

      retry-table :
          (session : Session) (months : List ℕ)
          → validate_lon_lat floats f.lon f.lat ≡ none
          → leb_ℤ (starts (month_of f.ts)) f.ts ≡ true
          → ltb_ℤ f.ts (starts (suc (month_of f.ts))) ≡ true
          → contains (month_of f.ts) months ≡ false
          → session.second_fails ≡ none
          → session.provisioning.create_fails ≡ none
          → session.provisioning.read_fails ≡ none
          → retry floats month_of starts session stamp (table months rows) f ≡ (
            table (month_of f.ts ∷ months) with_fix,
            ingested (not (is_stored f.device_id f.ts rows)),
          )
      unfolding retry ensure_monthly_partition
      retry-table session months legal from to new second create reads =
          let k = month_of f.ts in
          ground (
            arith,
            ensure_month-Calm starts ordered month_of session.provisioning k months,
            known_duplicate,
            ensure_month-raced starts ordered month_of session.provisioning k months,
            upsert_fix-table (k ∷ months) legal from to,
            contains-with_month starts k months,
          )

      -- Over a table whose catalog is the partitions of some months, which come in order, a fix
      -- in the ingest window with a legal coordinate, whose instant lies in its month, is
      -- ingested whether or not its month has a partition, and whether or not another process
      -- creates the partition first, if no other statement fails: afterwards the month has its
      -- partition, and the fix is in the table once.
      pub ingest_fix-heals :
          (session : Session) (months : List ℕ) (now : Time)
          → validate_fix_timestamp f.ts now ≡ none
          → validate_lon_lat floats f.lon f.lat ≡ none
          → leb_ℤ (starts (month_of f.ts)) f.ts ≡ true
          → ltb_ℤ f.ts (starts (suc (month_of f.ts))) ≡ true
          → session.first_fails ≡ none
          → session.second_fails ≡ none
          → session.provisioning.create_fails ≡ none
          → session.provisioning.read_fails ≡ none
          → ingest_fix floats month_of starts session stamp (table months rows) f now ≡ (
            table (with_month (month_of f.ts) months) with_fix,
            ingested (not (is_stored f.device_id f.ts rows)),
          )
      unfolding ingest_fix
      ingest_fix-heals session months now valid legal from to first second create reads = ground (
        arith,
        known_missing,
        upsert_fix-table months legal from to,
        retry-table session months legal from to,
      )
