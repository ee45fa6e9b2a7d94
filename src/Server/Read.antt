-- ===== src/Server/Read.antt =====
-- internal/server/read.go and geofence.go: the read routes of a watcher. The query parameters are
-- texts, "" where absent; `is_uuid` is uuid.Parse, `parse_float` strconv.ParseFloat. `answered` says
-- whether the database answers the last query of a route and `looked_up` whether it answers the one
-- before it.
pub mod Family
use Prim.Native.String.{◌++◌}
use tracker.Base.{
  ℕ, Bool, true, false, ◌&&◌, ◌||◌, not, String, Option, none, some, List, [], ◌∷◌, map,
  if◌then◌else◌, ◌==◌, string_eq, ℤ, pos,
}
use tracker.Clock.{Time, unix, from_unix}
use tracker.Config.ParseInt.{Parsed, parsed, syntax, out_of_range, parse_int}
use tracker.Presentation.{Windows}
use tracker.Store.{Device, DeviceState}
use tracker.Store.Credentials.{
  Account, Viewer, Found, device, unknown_device, lookup_failed, device_by_id,
}
use tracker.Store.Geofence.Evaluate.{zero_time}
use tracker.Store.States.{StoredFix, family_device_states}
use tracker.Store.Ingest.{Floats, Stored, CoordinateError}
use tracker.Store.History.{
  HistoryFix, device_history, NearbyFix, Near, near, bad_coordinate, bad_radius, query_failed,
  fixes_near,
}
use tracker.Store.Places.{PlaceRow, list_geofences}
use tracker.Store.Geofence.Evaluate.{EventRow}
use tracker.Store.Crossings.{GeofenceEventRow, list_geofence_events}
use tracker.Server.Presentation.{Payload, entry_for, sort_device_states}

pub record HistoryResponse (F : Type 0) : Type 0 where
  pub ts : ℤ
  pub lat : F
  pub lon : F
  pub accuracy : Option F
  pub battery : Option ℤ
  pub speed : Option F
  pub trigger : Option String
  pub received_at : ℤ

pub record NearbyResponse (F : Type 0) : Type 0 where
  pub device_id : String
  pub device_name : String
  pub lat : F
  pub lon : F
  pub ts : ℤ
  pub distance_m : F

pub record PlaceResponse : Type 0 where
  pub id : String
  pub name : String
  pub area : String

-- What a route answers: a list of entries, or one of the refusals.
pub data Answer (A : Type 0) : Type 0 where
  ok : List A → Answer A
  malformed : String → Answer A
  malformed_point : CoordinateError → Answer A
  not_found forbidden internal_error : Answer A

-- A parameter that could be read, or the text of the refusal.
pub data Read (A : Type 0) : Type 0 where
  value : A → Read A
  unreadable : String → Read A

abbrev pub default_history_limit : ℤ
default_history_limit = pos 100

unfoldable pub epoch_param : String → String → Read Time
epoch_param name s = if s == "" then value zero_time else elim (parse_int s) [
  | parsed secs ↦ value (from_unix secs)
  | syntax ↦ unreadable (name ++ " must be an epoch-seconds integer")
  | out_of_range ↦ unreadable (name ++ " must be an epoch-seconds integer")
]

unfoldable pub parse_window : String → String → Read (Time × Time)
parse_window from to = elim (epoch_param "from" from) [
  | unreadable e ↦ unreadable e
  | value a ↦ elim (epoch_param "to" to) [ unreadable e ↦ unreadable e | value b ↦ value (a, b) ]
]

-- strconv.Atoi of a control that is not absent.
unfoldable pub int_param : String → ℤ → String → Read ℤ
int_param name def s = if s == "" then value def else elim (parse_int s) [
  | parsed n ↦ value n
  | syntax ↦ unreadable (name ++ " must be an integer")
  | out_of_range ↦ unreadable (name ++ " must be an integer")
]

unfoldable pub parse_page : String → String → Read (ℤ × ℤ)
parse_page limit offset = elim (int_param "limit" default_history_limit limit) [
  | unreadable e ↦ unreadable e
  | value l ↦ elim (int_param "offset" (pos 0) offset) [
    | unreadable e ↦ unreadable e
    | value o ↦ value (l, o)
  ]
]

pub record HistoryQuery : Type 0 where
  pub id : String
  pub from : String
  pub to : String
  pub limit : String
  pub offset : String

abbrev pub profiles : List (Account Device) → List Device
profiles accounts = map (λ a. a.profile) accounts

module _ {F : Type 0} where
  abbrev pub history_entry : HistoryFix F → HistoryResponse F
  history_entry f = record {
    ts = unix f.ts;
    lat = f.lat;
    lon = f.lon;
    accuracy = f.accuracy_m;
    battery = f.battery_pct;
    speed = f.speed_mps;
    trigger = f.trigger_reason;
    received_at = unix f.received_at;
  }

  abbrev pub page_answer : Option (List (HistoryFix F)) → Answer (HistoryResponse F)
  page_answer none = internal_error
  page_answer (some fixes) = ok (map history_entry fixes)

  -- The part of getDeviceHistory past the family check.
  unfoldable pub history_page :
      Bool
      → List (Account Device)
      → List (Stored F)
      → String
      → HistoryQuery
      → Answer (HistoryResponse F)
  history_page answered accounts rows family_id q = elim (parse_window q.from q.to) [
    | unreadable e ↦ malformed e
    | value window ↦ elim (parse_page q.limit q.offset) [
      | unreadable e ↦ malformed e
      | value page ↦ page_answer (
          device_history answered (profiles accounts) rows family_id q.id window.0 window.1 page.0
            page.1)
    ]
  ]

  unfoldable pub get_device_history :
      (String → Bool)
      → Bool
      → Bool
      → List (Account Device)
      → List (Stored F)
      → Viewer
      → HistoryQuery
      → Answer (HistoryResponse F)
  get_device_history is_uuid looked_up answered accounts rows v q =
      if not (is_uuid q.id)
      then malformed "device id must be a UUID"
      else elim (device_by_id looked_up accounts q.id) [
        | unknown_device ↦ not_found
        | lookup_failed ↦ internal_error
        | device dev ↦
            if dev.family_id == v.family_id
            then history_page answered accounts rows v.family_id q
            else forbidden
      ]

  abbrev pub nearby_entry : NearbyFix F → NearbyResponse F
  nearby_entry n = record {
    device_id = n.device_id;
    device_name = n.device_name;
    lat = n.lat;
    lon = n.lon;
    ts = unix n.ts;
    distance_m = n.distance_m;
  }

  unfoldable pub float_param : (String → Option F) → String → String → Read F
  float_param parse_float name s =
      if s == "" then unreadable (name ++ " is required") else elim (parse_float s) [
        | some x ↦ value x
        | none ↦ unreadable (name ++ " must be a number")
      ]

  unfoldable pub near_answer : Near F → Answer (NearbyResponse F)
  near_answer (near found) = ok (map nearby_entry found)
  near_answer (bad_coordinate e) = malformed_point e
  near_answer bad_radius = internal_error
  near_answer query_failed = internal_error

  module _ (floats : Floats F) (distance : F × F → F × F → F) (within : F × F → F × F → F → Bool)
      (parse_float : String → Option F) where
    unfoldable pub near_point :
        Bool → List Device → List (Stored F) → Viewer → F → F → F → Answer (NearbyResponse F)
    near_point answered devices rows v lat lon radius =
        if floats.less radius (floats.whole (pos 0)) || floats.is_nan radius || floats.is_inf radius
        then malformed "m must be a finite, non-negative number of metres"
        else near_answer
            (fixes_near floats distance within answered devices rows v.family_id lon lat radius)

    unfoldable pub get_near :
        Bool
        → List Device
        → List (Stored F)
        → Viewer
        → String
        → String
        → String
        → Answer (NearbyResponse F)
    get_near answered devices rows v lat lon m = elim (float_param parse_float "lat" lat) [
      | unreadable e ↦ malformed e
      | value y ↦ elim (float_param parse_float "lon" lon) [
        | unreadable e ↦ malformed e
        | value x ↦ elim (float_param parse_float "m" m) [
          | unreadable e ↦ malformed e
          | value radius ↦ near_point answered devices rows v y x radius
        ]
      ]
    ]

  unfoldable pub get_positions :
      (String → String)
      → (String → String → Bool)
      → Bool
      → List Device
      → List (StoredFix F)
      → Viewer
      → Time
      → Windows
      → Answer (Payload F)
  get_positions to_lower str_lt answered devices fixes v at windows =
      elim (family_device_states answered devices fixes v.family_id) [
        | none ↦ internal_error
        | some states ↦
            ok (map (λ s. entry_for s at windows) (sort_device_states to_lower str_lt states))
      ]

abbrev pub place_entry : PlaceRow → PlaceResponse
place_entry p = record { id = p.id; name = p.name; area = p.area }

-- `geojson` is ST_AsGeoJSON of an area.
unfoldable pub get_places :
    (String → String)
    → (String → String → Bool)
    → Bool
    → List PlaceRow
    → Viewer
    → Answer PlaceResponse
get_places geojson str_lt answered places v =
    elim (list_geofences str_lt answered places v.family_id) [
      | none ↦ internal_error
      | some rows ↦ ok (map (λ p. record (place_entry p) { area = geojson p.area }) rows)
    ]

pub record GeofenceEventResponse : Type 0 where
  pub device_id : String
  pub device_name : String
  pub place_id : String
  pub place_name : String
  pub transition : String
  pub ts : ℤ

abbrev pub default_geofence_events_limit : ℤ
default_geofence_events_limit = pos 100

abbrev pub crossing_entry : GeofenceEventRow → GeofenceEventResponse
crossing_entry e = record {
  device_id = e.event.device_id;
  device_name = e.device_name;
  place_id = e.event.geofence_id;
  place_name = e.event.geofence_name;
  transition = e.event.transition;
  ts = unix e.event.fix_ts;
}

unfoldable pub get_geofence_events :
    Bool
    → List Device
    → List PlaceRow
    → List EventRow
    → Viewer
    → String
    → Answer GeofenceEventResponse
get_geofence_events answered devices places events v limit =
    elim (int_param "limit" default_geofence_events_limit limit) [
      | unreadable e ↦ malformed e
      | value n ↦ elim (list_geofence_events answered devices places events v.family_id n) [
        | none ↦ internal_error
        | some rows ↦ ok (map crossing_entry rows)
      ]
    ]
