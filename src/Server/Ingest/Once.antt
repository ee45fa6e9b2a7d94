-- ===== src/Server/Ingest/Once.antt =====
-- internal/server/server.go: what a report leaves behind, and that a repeated one leaves nothing more.
use tracker.Base.{
  ℕ, ◌≡◌, ◌≢◌, ◌⊎◌, inl, inr, Bool, false, none, some, arith, refl, Option-cases, string_eq, nat_eq,
  ℤ, ap, subst,
}
use tracker.Clock.{Time, from_unix}
use tracker.Store.{Device}
use tracker.Store.Ingest.{
  Floats, Fix, IngestError, Ingested, ingested, not_ingested, validate_fix_timestamp, ingest_fix,
}
use tracker.Store.Ingest.Replay.{ingest_fix-again}
use tracker.Server.Ingest.{
  FixRequest, decoded, Response, stored, duplicate, Tracker, refusal, World,
  validate_optional_metrics, ingest, fix_of, fix_response, post_valid, post_request, post_fix,
  after_insert,
}

-- A report that was taken, new or known.
abbrev pub Taken : Response → Type 0
Taken r = (r ≡ stored) ⊎ (r ≡ duplicate)

refusal-taken : (e : IngestError) → (refusal e ≢ stored) × (refusal e ≢ duplicate)
unfolding refusal
refusal-taken e = ground arith

Ingested-cases :
    (i : Ingested)
    → ((inserted : Bool) × (i ≡ ingested inserted)) ⊎ ((e : IngestError) × (i ≡ not_ingested e))
Ingested-cases (ingested inserted) = inl (inserted, refl)
Ingested-cases (not_ingested e) = inr (e, refl)

module _ {F : Type 0} (floats : Floats F) (kmh_to_mps : F → F) (month_of : Time → ℕ)
    (starts : ℕ → Time) where
  ingest-ingest_fix :
      (w : World F) (s : Tracker F) (dev : Device) (f : Fix F) (inserted : Bool)
      → (ingest floats kmh_to_mps month_of starts w s dev f).1 ≡ inl inserted
      → ingest_fix floats month_of starts w.session w.stamp s.fixes f w.now
        ≡ ((ingest floats kmh_to_mps month_of starts w s dev f).0.fixes, ingested inserted)
  unfolding ingest after_insert
  ingest-ingest_fix w s dev f inserted h = ground arith

  -- A fix that was known changes nothing.
  ingest-known :
      (w : World F) (s : Tracker F) (dev : Device) (f : Fix F)
      → ingest_fix floats month_of starts w.session w.stamp s.fixes f w.now
        ≡ (s.fixes, ingested false)
      → ingest floats kmh_to_mps month_of starts w s dev f ≡ (s, inl false)
  unfolding ingest
  ingest-known w s dev f h = ground arith

  pub ingest-again :
      (w w' : World F) (s : Tracker F) (dev : Device) (f : Fix F) (inserted : Bool)
      → (ingest floats kmh_to_mps month_of starts w s dev f).1 ≡ inl inserted
      → w'.session.first_fails ≡ none
      → validate_fix_timestamp f.ts w'.now ≡ none
      → let left = (ingest floats kmh_to_mps month_of starts w s dev f).0 in
        ingest floats kmh_to_mps month_of starts w' left dev f ≡ (left, inl false)
  ingest-again w w' s dev f inserted h served valid =
      let left = (ingest floats kmh_to_mps month_of starts w s dev f).0 in
      ingest-known w' left dev f (
        ingest_fix-again floats month_of starts w.session w'.session w.stamp w'.stamp s.fixes
          left.fixes f w.now w'.now inserted (ingest-ingest_fix w s dev f inserted h) served valid)

  -- A fix that was refused is no success.
  ingest-Taken :
      (w : World F) (s : Tracker F) (dev : Device) (f : Fix F)
      → Taken (
          fix_response floats kmh_to_mps month_of starts
            (ingest floats kmh_to_mps month_of starts w s dev f).1)
      → (inserted : Bool) × ((ingest floats kmh_to_mps month_of starts w s dev f).1 ≡ inl inserted)
  unfolding ingest
  ingest-Taken w s dev f taken =
      elim (Ingested-cases
        (ingest_fix floats month_of starts w.session w.stamp s.fixes f w.now).1) [
          | inl (inserted, q) ↦ (inserted, ground arith)
          | inr (e, q) ↦ ground (arith, refusal-taken e)
        ]

  post_valid-again :
      (w w' : World F) (s : Tracker F) (dev : Device) (req : FixRequest F) (lat lon : F) (ts : ℤ)
      → Taken (post_valid floats kmh_to_mps month_of starts w s dev req lat lon ts).1
      → w'.session.first_fails ≡ none
      → validate_fix_timestamp (from_unix ts) w'.now ≡ none
      → let left = (post_valid floats kmh_to_mps month_of starts w s dev req lat lon ts).0 in
        post_valid floats kmh_to_mps month_of starts w' left dev req lat lon ts ≡ (left, duplicate)
  unfolding post_valid
  post_valid-again w w' s dev req lat lon ts taken served valid =
      let f = fix_of floats kmh_to_mps month_of starts dev req lat lon ts in
      elim (Option-cases (
        validate_optional_metrics floats kmh_to_mps month_of starts req.accuracy req.battery
          req.speed)) [
            | inr (e, bad) ↦ ground arith
            | inl good ↦
                let (inserted, done) = ingest-Taken w s dev f (subst Taken (ground arith) taken) in
                let again = ingest-again w w' s dev f inserted done served valid in ground arith
          ]

  -- Once a report has been taken, as new or as known, the same report of the same phone, while
  -- its instant is still in the ingest window and the insert reaches the database, is answered as
  -- a duplicate and changes nothing: neither the table nor the log of crossings nor the
  -- dispatcher of alerts.
  pub post_fix-again :
      (w w' : World F) (s left : Tracker F) (dev : Device) (req : FixRequest F) (ts : ℤ)
      (answer : Response)
      → post_fix floats kmh_to_mps month_of starts w s dev (decoded req) ≡ (left, answer)
      → Taken answer
      → req.ts ≡ some ts
      → w'.session.first_fails ≡ none
      → validate_fix_timestamp (from_unix ts) w'.now ≡ none
      → post_fix floats kmh_to_mps month_of starts w' left dev (decoded req) ≡ (left, duplicate)
  unfolding post_fix post_request
  post_fix-again w w' s left dev req ts answer h taken sent served valid =
      elim (Option-cases req.lat) [
        | inl no_lat ↦ ground arith
        | inr (lat, has_lat) ↦ elim (Option-cases req.lon) [
          | inl no_lon ↦ ground arith
          | inr (lon, has_lon) ↦
              ground (
                arith,
                post_valid-again w w' s dev req lat lon ts,
                ap (λ p. p.0) h,
                ap (λ p. p.1) h,
              )
        ]
      ]
