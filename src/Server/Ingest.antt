-- ===== src/Server/Ingest.antt =====
-- internal/server/server.go: the two ingest routes, `POST /v1/fixes` and `POST /owntracks`, as steps
-- on what they change: the table of fixes, the log of crossings and the dispatcher of alerts. The JSON
-- decoders are outside: their answers are arguments. The evaluator's and the notifier's own queries
-- answer as in Store/Geofence/Evaluate and Push/Notify; `kmh_to_mps` is the division by 3.6.
pub mod Once
pub mod Refused
use tracker.Base.{
  ℕ, Bool, true, false, ◌&&◌, ◌||◌, not, String, Option, none, some, List, [], ◌∷◌, map,
  if◌then◌else◌, ◌==◌, string_eq, ℤ, pos, negsuc, ltb_ℤ, ◌⊎◌, inl, inr,
}
use tracker.Clock.{Time, from_unix}
use tracker.Store.{Device, GeofenceEvent, PushSubscription}
use tracker.Store.Geofence.{geofence_debounce}
use tracker.Store.Geofence.Evaluate.{
  EventRow, FixRow, Place, Query, Evaluated, evaluate_device_geofences,
}
use tracker.Push.Dispatcher.{Dispatcher}
use tracker.Push.Notify.{notify_geofence_events}
use tracker.Store.Ingest.{
  Floats, Fix, Stored, Fixes, IngestError, coordinate_out_of_range, timestamp_ahead, timestamp_past,
  not_inserted, partition_not_provisioned, Ingested, ingested, not_ingested, Session, ingest_fix,
}

-- Absent is none.
pub record FixRequest (F : Type 0) : Type 0 where
  pub lat : Option F
  pub lon : Option F
  pub ts : Option ℤ
  pub accuracy : Option F
  pub battery : Option ℤ
  pub speed : Option F
  pub trigger : Option String
  pub msg_id : Option String

pub record OwntracksRequest (F : Type 0) : Type 0 where
  pub type : Option String
  pub lat : Option F
  pub lon : Option F
  pub tst : Option ℤ
  pub acc : Option F
  pub batt : Option ℤ
  pub vel : Option F
  pub t : Option String

pub data Body (A : Type 0) : Type 0 where
  undecodable : String → Body A
  decoded : A → Body A

pub data Response : Type 0 where
  stored duplicate owntracks_ack : Response
  malformed : String → Response
  invalid_fix : IngestError → Response
  internal_error : Response

pub record Tracker (F : Type 0) : Type 0 where
  pub fixes : Fixes F
  pub events : List EventRow
  pub dispatcher : Dispatcher

-- The Go statement `switch` of ingest on the error.
unfoldable pub refusal : IngestError → Response
refusal (coordinate_out_of_range e) = invalid_fix (coordinate_out_of_range e)
refusal timestamp_ahead = invalid_fix timestamp_ahead
refusal timestamp_past = invalid_fix timestamp_past
refusal (not_inserted e) = internal_error
refusal (partition_not_provisioned e) = internal_error

-- What the request meets outside the program: the database of each statement, the clocks, the Places
-- of the family and whether they cover a location, the endpoints of the family, and the renderings.
pub record World (F : Type 0) : Type 0 where
  pub session : Session
  pub stamp : Time
  pub now : Time
  pub covers : String → F × F → Bool
  pub answers : Query → Bool
  pub places : List Place
  pub format_ts : Time → String
  pub digest : String → String
  pub lookup : String → Option (List PushSubscription)

module _ {F : Type 0} where
  abbrev pub location_row : Stored F → FixRow (F × F)
  location_row r = record {
    device_id = r.fix.device_id;
    ts = r.fix.ts;
    location = (r.fix.lon, r.fix.lat);
  }

  -- The alerts of the crossings, if there are any.
  unfoldable pub notify : World F → Dispatcher → Device → List GeofenceEvent → Dispatcher
  notify w d dev [] = d
  notify w d dev (e ∷ events) =
      notify_geofence_events w.format_ts w.digest d dev (e ∷ events) w.lookup

  -- What follows a fix that has been stored.
  unfoldable pub after_insert : World F → Tracker F → Device → Fix F → Tracker F
  after_insert w s dev f =
      let evaluated =
        evaluate_device_geofences w.covers w.answers geofence_debounce
          (map location_row s.fixes.rows) s.events f.device_id w.places f.ts in
      record {
        fixes = s.fixes;
        events = evaluated.events;
        dispatcher = notify w s.dispatcher dev evaluated.appended;
      }

module _ {F : Type 0} (floats : Floats F) (kmh_to_mps : F → F) (month_of : Time → ℕ)
    (starts : ℕ → Time) where
  unfoldable pub is_not_finite : F → Bool
  is_not_finite x = floats.is_nan x || floats.is_inf x

  abbrev pub bad_measure : Option F → Bool
  bad_measure none = false
  bad_measure (some x) = floats.less x (floats.whole (pos 0)) || is_not_finite x

  abbrev pub bad_battery : Option ℤ → Bool
  bad_battery none = false
  bad_battery (some b) = ltb_ℤ b (pos 0) || ltb_ℤ (pos 100) b

  unfoldable pub validate_optional_metrics : Option F → Option ℤ → Option F → Option String
  validate_optional_metrics accuracy battery speed =
      if bad_measure accuracy
      then some "accuracy must be a finite, non-negative number of metres"
      else if bad_measure speed
      then some "speed must be a finite, non-negative number"
      else if bad_battery battery
      then some "battery must be a percentage between 0 and 100"
      else none

  -- Whether the fix was inserted, or the refusal that has been answered.
  unfoldable pub ingest : World F → Tracker F → Device → Fix F → Tracker F × (Bool ⊎ Response)
  ingest w s dev f =
      let (fixes, result) = ingest_fix floats month_of starts w.session w.stamp s.fixes f w.now in
      let left = record s { fixes = fixes } in
      elim result [
        | not_ingested e ↦ (left, inr (refusal e))
        | ingested true ↦ (after_insert w left dev f, inl true)
        | ingested false ↦ (left, inl false)
      ]

  abbrev pub fix_of : Device → FixRequest F → F → F → ℤ → Fix F
  fix_of dev req lat lon ts = record {
    device_id = dev.id;
    ts = from_unix ts;
    lon = lon;
    lat = lat;
    accuracy_m = req.accuracy;
    battery_pct = req.battery;
    speed_mps = req.speed;
    trigger_reason = req.trigger;
    msg_id = req.msg_id;
  }

  -- The success of the first-party route.
  abbrev pub fix_response : Bool ⊎ Response → Response
  fix_response (inl true) = stored
  fix_response (inl false) = duplicate
  fix_response (inr r) = r

  abbrev pub ack_response : Bool ⊎ Response → Response
  ack_response (inl inserted) = owntracks_ack
  ack_response (inr r) = r

  unfoldable pub post_valid :
      World F → Tracker F → Device → FixRequest F → F → F → ℤ → Tracker F × Response
  post_valid w s dev req lat lon ts =
      let (left, result) = ingest w s dev (fix_of dev req lat lon ts) in
      elim (validate_optional_metrics req.accuracy req.battery req.speed) [
        | some e ↦ (s, malformed e)
        | none ↦ (left, fix_response result)
      ]

  unfoldable pub post_request : World F → Tracker F → Device → FixRequest F → Tracker F × Response
  post_request w s dev req = elim (req.lat) [
    | none ↦ (s, malformed "lat, lon and ts are required")
    | some lat ↦ elim (req.lon) [
      | none ↦ (s, malformed "lat, lon and ts are required")
      | some lon ↦ elim (req.ts) [
        | none ↦ (s, malformed "lat, lon and ts are required")
        | some ts ↦ post_valid w s dev req lat lon ts
      ]
    ]
  ]

  unfoldable pub post_fix :
      World F → Tracker F → Device → Body (FixRequest F) → Tracker F × Response
  post_fix w s dev (undecodable e) = (s, malformed e)
  post_fix w s dev (decoded req) = post_request w s dev req

  abbrev pub owntracks_fix : Device → OwntracksRequest F → F → F → ℤ → Option F → Fix F
  owntracks_fix dev req lat lon tst speed = record {
    device_id = dev.id;
    ts = from_unix tst;
    lon = lon;
    lat = lat;
    accuracy_m = req.acc;
    battery_pct = req.batt;
    speed_mps = speed;
    trigger_reason = req.t;
    msg_id = none;
  }

  abbrev pub speed_of : Option F → Option F
  speed_of none = none
  speed_of (some v) = some (kmh_to_mps v)

  unfoldable pub post_location :
      World F → Tracker F → Device → OwntracksRequest F → F → F → ℤ → Tracker F × Response
  post_location w s dev req lat lon tst =
      let (left, result) = ingest w s dev (owntracks_fix dev req lat lon tst (speed_of req.vel)) in
      elim (validate_optional_metrics req.acc req.batt none) [
        | some e ↦ (s, malformed e)
        | none ↦
            if bad_measure req.vel
            then (s, malformed "vel must be a finite, non-negative speed")
            else (left, ack_response result)
      ]

  unfoldable pub post_owntracks_request :
      World F → Tracker F → Device → OwntracksRequest F → Tracker F × Response
  post_owntracks_request w s dev req = elim (req.lat) [
    | none ↦ (s, malformed "an OwnTracks location needs lat, lon and tst")
    | some lat ↦ elim (req.lon) [
      | none ↦ (s, malformed "an OwnTracks location needs lat, lon and tst")
      | some lon ↦ elim (req.tst) [
        | none ↦ (s, malformed "an OwnTracks location needs lat, lon and tst")
        | some tst ↦ post_location w s dev req lat lon tst
      ]
    ]
  ]

  unfoldable pub post_own_tracks :
      World F → Tracker F → Device → Body (OwntracksRequest F) → Tracker F × Response
  post_own_tracks w s dev (undecodable e) = (s, malformed e)
  post_own_tracks w s dev (decoded req) =
      let answer = post_owntracks_request w s dev req in
      elim req.type [
        | none ↦ (s, owntracks_ack)
        | some type ↦ if type == "location" then answer else (s, owntracks_ack)
      ]
