-- ===== src/Store/History.antt =====
-- internal/store/read.go and store.go: the family-scoped reads of the table of fixes. `answered` says
-- whether the database answers; `distance` is ST_Distance and `within` ST_DWithin of PostGIS.
pub mod Pages
pub mod Scope
use tracker.Base.{
  ℕ, zero, suc, ◌≡◌, Bool, true, false, ◌&&◌, ◌||◌, not, String, Option, none, some, List, [], ◌∷◌,
  map, keep, take, drop, if◌then◌else◌, ◌==◌, string_eq, int_eq, ℤ, pos, pos_part, ltb_ℤ, leb_ℤ,
}
use tracker.Base.Sort.{slice_stable}
use tracker.Clock.{Time, after, before}
use tracker.Store.{Device}
use tracker.Store.Geofence.Evaluate.{zero_time}
use tracker.Store.Ingest.{Floats, Fix, Stored, CoordinateError, validate_lon_lat}

pub record HistoryFix (F : Type 0) : Type 0 where
  pub ts : Time
  pub lon : F
  pub lat : F
  pub accuracy_m : Option F
  pub battery_pct : Option ℤ
  pub speed_mps : Option F
  pub trigger_reason : Option String
  pub received_at : Time

abbrev pub max_history_limit : ℤ
max_history_limit = pos 1000

unfoldable pub clamp_limit : ℤ → ℕ
clamp_limit limit =
    if ltb_ℤ limit (pos 1)
    then 1
    else if ltb_ℤ max_history_limit limit
    then pos_part max_history_limit
    else pos_part limit

unfoldable pub clamp_offset : ℤ → ℕ
clamp_offset offset = if ltb_ℤ offset (pos 0) then 0 else pos_part offset

-- `IsZero`: an unbounded side.
unfoldable pub bound : Time → Option Time
bound t = if t == zero_time then none else some t

-- The join with the devices of a family, of which the id is the key.
unfoldable pub in_family : String → List Device → String → Bool
in_family family_id [] device_id = false
in_family family_id (d ∷ devices) device_id =
    if d.id == device_id && d.family_id == family_id
    then true
    else in_family family_id devices device_id

abbrev pub not_before : Option Time → Time → Bool
not_before none t = true
not_before (some from) t = leb_ℤ from t

abbrev pub sooner_than : Option Time → Time → Bool
sooner_than none t = true
sooner_than (some to) t = ltb_ℤ t to

pub record NearbyFix (F : Type 0) : Type 0 where
  pub device_id : String
  pub device_name : String
  pub ts : Time
  pub lon : F
  pub lat : F
  pub distance_m : F

pub data Near (F : Type 0) : Type 0 where
  near : List (NearbyFix F) → Near F
  bad_coordinate : CoordinateError → Near F
  bad_radius query_failed : Near F

-- The name of a device.
unfoldable pub name_of : String → List Device → String
name_of device_id [] = ""
name_of device_id (d ∷ devices) = if d.id == device_id then d.name else name_of device_id devices

module _ {F : Type 0} where
  abbrev pub history_fix : Stored F → HistoryFix F
  history_fix r = record {
    ts = r.fix.ts;
    lon = r.fix.lon;
    lat = r.fix.lat;
    accuracy_m = r.fix.accuracy_m;
    battery_pct = r.fix.battery_pct;
    speed_mps = r.fix.speed_mps;
    trigger_reason = r.fix.trigger_reason;
    received_at = r.received_at;
  }

  -- The WHERE of deviceHistorySQL.
  unfoldable pub in_scope :
      List Device → String → String → Option Time → Option Time → Stored F → Bool
  in_scope devices family_id device_id from to r =
      in_family family_id devices r.fix.device_id
      && r.fix.device_id == device_id
      && not_before from r.fix.ts
      && sooner_than to r.fix.ts

  abbrev pub newer : Stored F → Stored F → Bool
  newer a b = after a.fix.ts b.fix.ts

  unfoldable pub selected :
      List Device → List (Stored F) → String → String → Time → Time → List (Stored F)
  selected devices rows family_id device_id from to =
      slice_stable newer (keep (in_scope devices family_id device_id (bound from) (bound to)) rows)

  unfoldable pub device_history :
      Bool
      → List Device
      → List (Stored F)
      → String
      → String
      → Time
      → Time
      → ℤ
      → ℤ
      → Option (List (HistoryFix F))
  device_history answered devices rows family_id device_id from to limit offset =
      if answered
      then some (
          map history_fix (
            take (clamp_limit limit)
              (drop (clamp_offset offset) (selected devices rows family_id device_id from to))))
      else none

  module _ (floats : Floats F) (distance : F × F → F × F → F)
      (within : F × F → F × F → F → Bool) where
    abbrev pub near_rows : List Device → List (Stored F) → String → F × F → F → List (NearbyFix F)
    near_rows devices rows family_id point radius =
        map
          (λ r. record {
            device_id = r.fix.device_id;
            device_name = name_of r.fix.device_id devices;
            ts = r.fix.ts;
            lon = r.fix.lon;
            lat = r.fix.lat;
            distance_m = distance (r.fix.lon, r.fix.lat) point;
          })
          (keep
            (λ r.
              in_family family_id devices r.fix.device_id
              && within (r.fix.lon, r.fix.lat) point radius)
            rows)

    unfoldable pub fixes_near : Bool → List Device → List (Stored F) → String → F → F → F → Near F
    fixes_near answered devices rows family_id lon lat radius =
        elim (validate_lon_lat floats lon lat) [
          | some e ↦ bad_coordinate e
          | none ↦
              if floats.less radius (floats.whole (pos 0))
                || floats.is_nan radius
                || floats.is_inf radius
              then bad_radius
              else if not answered
              then query_failed
              else near (
                  slice_stable (λ a b. floats.less a.distance_m b.distance_m)
                    (near_rows devices rows family_id (lon, lat) radius))
        ]
