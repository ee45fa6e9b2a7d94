-- ===== src/Store/Ingest/Window.antt =====
-- internal/store/store.go: the rows that the table can hold.
use tracker.Base.{
  ℕ, suc, ◌≡◌, arith, true, false, Option, none, List, [], ◌∷◌, nat_eq, string_eq, int_eq,
}
use tracker.Clock.{Time}
use tracker.Db.Provision.{
  DbError, Relation, has_partition, ensure_month, ensure_monthly_partition, partition_name, Turn,
}
use tracker.Db.Provision.Months.{create_partition-has_partition}
use tracker.Store.Ingest.{
  Floats, Fix, Stored, Fixes, Session, is_stored, insert_fix, validate_lon_lat, upsert_fix, retry,
  ingest_fix,
}

module _ {F : Type 0} (floats : Floats F) where
  -- No two rows are of one device and instant, and every row has a legal coordinate and a partition.
  abbrev pub SoundRows : List Relation → List (Stored F) → Type 0
  SoundRows catalog [] = Unit
  SoundRows catalog (r ∷ rest) =
      ((validate_lon_lat floats r.fix.lon r.fix.lat ≡ none)
        × (has_partition r.fix.ts catalog ≡ true)
        × (is_stored r.fix.device_id r.fix.ts rest ≡ false))
      × SoundRows catalog rest

  abbrev pub Sound : Fixes F → Type 0
  Sound s = SoundRows s.catalog s.rows

  upsert_fix-Sound :
      (fails : Option DbError) (stamp : Time) (s : Fixes F) (f : Fix F)
      → Sound s
      → Sound (upsert_fix floats fails stamp s f).0
  unfolding upsert_fix insert_fix
  upsert_fix-Sound fails stamp s f h = ground arith

  module _ (month_of : Time → ℕ) (starts : ℕ → Time) where
    -- More partitions take what fewer take.
    provision-SoundRows :
        (turn : Turn) (catalog : List Relation) (t : Time) (rows : List (Stored F))
        → SoundRows catalog rows
        → SoundRows (ensure_monthly_partition month_of starts turn catalog t).0 rows
    unfolding ensure_monthly_partition ensure_month
    provision-SoundRows turn catalog t [] h = tt
    provision-SoundRows turn catalog t (r ∷ rest) h =
        let m = month_of t in
        ground (
          arith,
          provision-SoundRows turn catalog t rest,
          create_partition-has_partition r.fix.ts turn catalog (partition_name m) (starts m)
              (starts (suc m)),
        )

    -- If no two rows are of one device and instant, and every row has a legal coordinate and a
    -- partition that takes it, then an ingestion keeps it so, however its statements fare.
    pub ingest_fix-Sound :
        (session : Session) (stamp : Time) (s : Fixes F) (f : Fix F) (now : Time)
        → Sound s
        → Sound (ingest_fix floats month_of starts session stamp s f now).0
    unfolding ingest_fix retry
    ingest_fix-Sound session stamp s f now h =
        let tried = (upsert_fix floats session.first_fails stamp s f).0 in
        let made =
          ensure_monthly_partition month_of starts session.provisioning tried.catalog f.ts in
        ground (
          arith,
          upsert_fix-Sound session.first_fails stamp s f h,
          provision-SoundRows session.provisioning tried.catalog f.ts tried.rows,
          upsert_fix-Sound session.second_fails stamp (record tried { catalog = made.0 }) f,
        )
