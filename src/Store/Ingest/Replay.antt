-- ===== src/Store/Ingest/Replay.antt =====
-- internal/store/store.go: what an ingestion leaves in the table, and that a replay is absorbed.
use tracker.Base.{
  ap, subst, ℕ, ◌≡◌, arith, Bool, true, false, Option, none, nat_eq, string_eq, int_eq,
}
use tracker.Clock.{Time}
use tracker.Db.Provision.{DbError, has_partition, ensure_monthly_partition}
use tracker.Store.Ingest.{
  Floats, Fix, Fixes, ingested, Session, validate_fix_timestamp, is_stored, insert_fix,
  validate_lon_lat, upsert_fix, retry, ingest_fix,
}

module _ {F : Type 0} (floats : Floats F) where
  -- A fix that is in the table: an INSERT of it would conflict.
  abbrev pub Held : Fixes F → Fix F → Type 0
  Held s f =
      (validate_lon_lat floats f.lon f.lat ≡ none)
      × (has_partition f.ts s.catalog ≡ true)
      × (is_stored f.device_id f.ts s.rows ≡ true)

  insert_fix-Held :
      (fails : Option DbError) (stamp : Time) (s : Fixes F) (f : Fix F) (inserted : Bool)
      → (insert_fix fails stamp s f).1 ≡ ingested inserted
      → (has_partition f.ts (insert_fix fails stamp s f).0.catalog ≡ true)
        × (is_stored f.device_id f.ts (insert_fix fails stamp s f).0.rows ≡ true)
  unfolding insert_fix is_stored
  insert_fix-Held fails stamp s f inserted h =
      ground (arith, string_eq.beq_iff f.device_id f.device_id, int_eq.beq_iff f.ts f.ts)

  upsert_fix-Held :
      (fails : Option DbError) (stamp : Time) (s : Fixes F) (f : Fix F) (inserted : Bool)
      → (upsert_fix floats fails stamp s f).1 ≡ ingested inserted
      → Held (upsert_fix floats fails stamp s f).0 f
  unfolding upsert_fix
  upsert_fix-Held fails stamp s f inserted h =
      ground (arith, insert_fix-Held fails stamp s f inserted)

  upsert_fix-again :
      (stamp : Time) (s : Fixes F) (f : Fix F)
      → Held s f
      → upsert_fix floats none stamp s f ≡ (s, ingested false)
  unfolding upsert_fix insert_fix
  upsert_fix-again stamp s f h = ground arith

  module _ (month_of : Time → ℕ) (starts : ℕ → Time) where
    ingest_fix-Held :
        (session : Session) (stamp : Time) (s : Fixes F) (f : Fix F) (now : Time) (inserted : Bool)
        → (ingest_fix floats month_of starts session stamp s f now).1 ≡ ingested inserted
        → Held (ingest_fix floats month_of starts session stamp s f now).0 f
    unfolding ingest_fix retry
    ingest_fix-Held session stamp s f now inserted h =
        let tried = (upsert_fix floats session.first_fails stamp s f).0 in
        let made =
          ensure_monthly_partition month_of starts session.provisioning tried.catalog f.ts in
        ground (
          arith,
          upsert_fix-Held session.first_fails stamp s f inserted,
          upsert_fix-Held session.second_fails stamp (record tried { catalog = made.0 }) f inserted,
        )

    -- A fix that has been ingested, as new or as known, is absorbed when it is ingested again,
    -- while its instant is still in the window and the insert reaches the database: nothing is
    -- inserted and the table and its catalog stay as they are.
    pub ingest_fix-again :
        (session later : Session) (stamp stamp' : Time) (s left : Fixes F) (f : Fix F)
        (now now' : Time) (inserted : Bool)
        → ingest_fix floats month_of starts session stamp s f now ≡ (left, ingested inserted)
        → later.first_fails ≡ none
        → validate_fix_timestamp f.ts now' ≡ none
        → ingest_fix floats month_of starts later stamp' left f now' ≡ (left, ingested false)
    unfolding ingest_fix
    ingest_fix-again session later stamp stamp' s left f now now' inserted h served valid =
        let held =
          subst (λ t. Held t f) (ap (λ p. p.0) h)
            (ingest_fix-Held session stamp s f now inserted (ap (λ p. p.1) h)) in
        ground (arith, upsert_fix-again stamp' left f held)
