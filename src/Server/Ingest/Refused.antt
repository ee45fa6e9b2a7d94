-- ===== src/Server/Ingest/Refused.antt =====
-- internal/server/server.go: a report that is refused is stored nowhere.
use tracker.Base.{ℕ, ◌≡◌, ◌≢◌, inl, inr, true, Option, arith, Option-cases, string_eq, nat_eq, ℤ}
use tracker.Clock.{Time}
use tracker.Store.{Device}
use tracker.Db.Provision.{DbError, ensure_monthly_partition}
use tracker.Store.Ingest.{
  Floats, Fix, Fixes, ingested, Session, insert_fix, upsert_fix, retry, ingest_fix,
}
use tracker.Server.Ingest.{
  FixRequest, Body, decoded, undecodable, Response, stored, Tracker, World, ingest, fix_of,
  post_valid, post_request, post_fix,
}

module _ {F : Type 0} (floats : Floats F) (month_of : Time → ℕ) (starts : ℕ → Time) where
  upsert_fix-refused :
      (fails : Option DbError) (stamp : Time) (s : Fixes F) (f : Fix F)
      → (upsert_fix floats fails stamp s f).1 ≢ ingested true
      → (upsert_fix floats fails stamp s f).0 ≡ s
  unfolding upsert_fix insert_fix
  upsert_fix-refused fails stamp s f h = ground arith

  -- Whatever is not inserted leaves the rows as they were.
  pub ingest_fix-refused :
      (session : Session) (stamp : Time) (s : Fixes F) (f : Fix F) (now : Time)
      → (ingest_fix floats month_of starts session stamp s f now).1 ≢ ingested true
      → (ingest_fix floats month_of starts session stamp s f now).0.rows ≡ s.rows
  unfolding ingest_fix retry
  ingest_fix-refused session stamp s f now h =
      let tried = (upsert_fix floats session.first_fails stamp s f).0 in
      let made = ensure_monthly_partition month_of starts session.provisioning tried.catalog f.ts in
      ground (
        arith,
        upsert_fix-refused session.first_fails stamp s f,
        upsert_fix-refused session.second_fails stamp (record tried { catalog = made.0 }) f,
      )

  module _ (kmh_to_mps : F → F) where
    abbrev pub Untouched : Tracker F → Tracker F → Type 0
    Untouched left s =
        (left.fixes.rows ≡ s.fixes.rows)
        × (left.events ≡ s.events)
        × (left.dispatcher ≡ s.dispatcher)

    ingest-refused :
        (w : World F) (s : Tracker F) (dev : Device) (f : Fix F)
        → (ingest floats kmh_to_mps month_of starts w s dev f).1 ≢ inl true
        → Untouched (ingest floats kmh_to_mps month_of starts w s dev f).0 s
    unfolding ingest
    ingest-refused w s dev f h =
        ground (arith, ingest_fix-refused w.session w.stamp s.fixes f w.now)

    post_valid-refused :
        (w : World F) (s : Tracker F) (dev : Device) (req : FixRequest F) (lat lon : F) (ts : ℤ)
        → (post_valid floats kmh_to_mps month_of starts w s dev req lat lon ts).1 ≢ stored
        → Untouched (post_valid floats kmh_to_mps month_of starts w s dev req lat lon ts).0 s
    unfolding post_valid
    post_valid-refused w s dev req lat lon ts h =
        let f = fix_of floats kmh_to_mps month_of starts dev req lat lon ts in
        ground (arith, ingest-refused w s dev f)

    -- A request that is not answered as stored has changed no row of the table of fixes, no event
    -- of the log of crossings and nothing of the dispatcher, whatever it holds and whichever
    -- statements fail.
    pub post_fix-refused :
        (w : World F) (s left : Tracker F) (dev : Device) (body : Body (FixRequest F))
        (answer : Response)
        → post_fix floats kmh_to_mps month_of starts w s dev body ≡ (left, answer)
        → answer ≢ stored
        → Untouched left s
    unfolding post_fix post_request
    post_fix-refused w s left dev (undecodable e) answer h other = ground arith
    post_fix-refused w s left dev (decoded req) answer h other = elim (Option-cases req.lat) [
      | inl no_lat ↦ ground arith
      | inr (lat, has_lat) ↦ elim (Option-cases req.lon) [
        | inl no_lon ↦ ground arith
        | inr (lon, has_lon) ↦ elim (Option-cases req.ts) [
          | inl no_ts ↦ ground arith
          | inr (ts, has_ts) ↦ ground (arith, post_valid-refused w s dev req lat lon ts)
        ]
      ]
    ]
