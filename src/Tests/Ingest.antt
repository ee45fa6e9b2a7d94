-- ===== src/Tests/Ingest.antt =====
-- The properties of the ingestion: one report in a month that has no partition yet, while another
-- process creates it, in the calendar of Tests/Provision.
use tracker.Base.{
  suc, ◌*◌, ◌≡◌, ◌≢◌, refl, arith, true, false, not, none, some, List, [], ◌∷◌, map, ℤ, pos, negsuc,
  ltb_ℤ, leb_ℤ, inl, nat_eq, string_eq, int_eq, ◌+ℤ◌, ◌-ℤ◌, ◌*ℤ◌, int64,
}
use tracker.Clock.{Time, second, from_unix}
use tracker.Store.{Device}
use tracker.Db.Provision.{
  Turn, create_partition, check_bounds, find_relation, overlaps, has_partition, ensure_month,
  ensure_monthly_partition, name_eq, covers_instant,
}
use tracker.Db.Provision.Calm.{month_relation, with_month}
use tracker.Store.Ingest.{
  Floats, Fix, Stored, Fixes, ingested, Session, is_missing_partition_err,
  is_duplicate_relation_err, validate_fix_timestamp, is_stored, insert_fix, validate_lon_lat,
  upsert_fix, retry, ingest_fix, timestamp_past,
}
use tracker.Store.Ingest.Window.{Sound, ingest_fix-Sound}
use tracker.Store.Ingest.Heal.{table, with_fix, ingest_fix-heals}
use tracker.Store.Geofence.Evaluate.{evaluate_device_geofences, evaluate_places}
use tracker.Server.Ingest.{
  FixRequest, decoded, stored, duplicate, invalid_fix, Tracker, World, refusal,
  validate_optional_metrics, ingest, post_valid, post_request, post_fix, notify, after_insert,
}
use tracker.Server.Ingest.Once.{post_fix-again}
use tracker.Server.Ingest.Refused.{Untouched, post_fix-refused}
use tracker.Tests.Provision.{starts, month_of, ordered}
use tracker.Tests.Dispatcher.{idle, format_ts, digest}

-- Whole numbers in place of floats.
abbrev floats : Floats ℤ
floats = record { is_nan = λ x. false; is_inf = λ x. false; less = ltb_ℤ; whole = λ n. n }

abbrev same : ℤ → ℤ
same x = x

abbrev fix : Fix ℤ
fix = record {
  device_id = "d1";
  ts = pos 9_000_000 *ℤ pos second;
  lon = negsuc 121;
  lat = pos 47;
  accuracy_m = none;
  battery_pct = some (pos 80);
  speed_mps = none;
  trigger_reason = none;
  msg_id = none;
}

abbrev now : Time
now = pos (9_000_060 * second)

abbrev raced : Turn
raced = record { raced = true; create_fails = none; read_fails = none }

abbrev session : Session
session = record { first_fails = none; provisioning = raced; second_fails = none }

abbrev no_rows : List (Stored ℤ)
no_rows = []

abbrev empty : Fixes ℤ
empty = record { rows = []; catalog = map (month_relation starts) (2 ∷ []) }

abbrev with_one : Fixes ℤ
with_one = record {
  rows = record { fix = fix; received_at = now } ∷ [];
  catalog = map (month_relation starts) (3 ∷ 2 ∷ []);
}

ingests : ingest_fix floats month_of starts session now empty fix now ≡ (with_one, ingested true)
unfolding ingest_fix validate_fix_timestamp upsert_fix validate_lon_lat insert_fix has_partition
    covers_instant is_missing_partition_err retry is_duplicate_relation_err is_stored
    ensure_monthly_partition ensure_month create_partition check_bounds find_relation overlaps ◌+ℤ◌
    ◌-ℤ◌ ◌*ℤ◌ from_unix int64
ingests = refl

in_window : validate_fix_timestamp fix.ts now ≡ none
unfolding validate_fix_timestamp ◌+ℤ◌ ◌-ℤ◌ ◌*ℤ◌ from_unix int64
in_window = refl

legal : validate_lon_lat floats (negsuc 121) (pos 47) ≡ none
unfolding validate_lon_lat
legal = refl

ingest_fix-Sound_example :
    Sound floats (ingest_fix floats month_of starts session now empty fix now).0
ingest_fix-Sound_example = ingest_fix-Sound floats month_of starts session now empty fix now tt

month_from : leb_ℤ (starts (month_of fix.ts)) fix.ts ≡ true
unfolding ◌*ℤ◌ from_unix int64
month_from = refl

month_to : ltb_ℤ fix.ts (starts (suc (month_of fix.ts))) ≡ true
unfolding ◌*ℤ◌ from_unix int64
month_to = refl

ingest_fix-heals_example : ingest_fix floats month_of starts session now empty fix now ≡ (
  table starts ordered floats month_of now [] fix
      (with_month (month_of fix.ts) (2 ∷ []))
      (with_fix starts ordered floats month_of now [] fix),
  ingested (not (is_stored "d1" fix.ts no_rows)),
)
ingest_fix-heals_example =
    ingest_fix-heals starts ordered floats month_of now [] fix session (2 ∷ []) now in_window legal
      month_from month_to refl refl refl refl

abbrev world : World ℤ
world = record {
  session = session;
  stamp = now;
  now = now;
  covers = λ place location. false;
  answers = λ q. true;
  places = [];
  format_ts = format_ts;
  digest = digest;
  lookup = λ family. none;
}

abbrev alice : Device
alice = record { id = "d1"; family_id = "f"; name = "Alice" }

abbrev report : ℤ → FixRequest ℤ
report ts = record {
  lat = some (pos 47);
  lon = some (negsuc 121);
  ts = some ts;
  accuracy = none;
  battery = some (pos 80);
  speed = none;
  trigger = none;
  msg_id = none;
}

abbrev fresh : Tracker ℤ
fresh = record { fixes = empty; events = []; dispatcher = idle }

abbrev reported : Tracker ℤ
reported = record { fixes = with_one; events = []; dispatcher = idle }

reports :
    post_fix floats same month_of starts world fresh alice (decoded (report (pos 9_000_000)))
    ≡ (reported, stored)
unfolding post_fix post_request post_valid validate_optional_metrics ingest after_insert notify
    evaluate_device_geofences evaluate_places ingest_fix validate_fix_timestamp upsert_fix
    validate_lon_lat insert_fix has_partition covers_instant is_missing_partition_err retry
    is_duplicate_relation_err is_stored ensure_monthly_partition ensure_month create_partition
    check_bounds find_relation overlaps ◌+ℤ◌ ◌-ℤ◌ ◌*ℤ◌ from_unix int64
reports = refl

post_fix-again_example :
    post_fix floats same month_of starts world reported alice (decoded (report (pos 9_000_000)))
    ≡ (reported, duplicate)
unfolding from_unix int64 ◌*ℤ◌ ◌-ℤ◌ ◌+ℤ◌
post_fix-again_example =
    post_fix-again floats same month_of starts world world fresh reported alice
      (report (pos 9_000_000)) (pos 9_000_000) stored reports (inl refl) refl refl in_window

too_old :
    post_fix floats same month_of starts world fresh alice (decoded (report (pos 9)))
    ≡ (fresh, invalid_fix timestamp_past)
unfolding post_fix post_request post_valid validate_optional_metrics ingest refusal ingest_fix
    validate_fix_timestamp ◌+ℤ◌ ◌-ℤ◌ ◌*ℤ◌ from_unix int64
too_old = refl

not_stored : invalid_fix timestamp_past ≢ stored
not_stored = ground arith

post_fix-refused_example : Untouched floats month_of starts same fresh fresh
post_fix-refused_example =
    post_fix-refused floats month_of starts same world fresh fresh alice (decoded (report (pos 9)))
      (invalid_fix timestamp_past) too_old not_stored
