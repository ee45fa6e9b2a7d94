-- ===== src/Store/Crossings.antt =====
-- internal/store/geofence.go: the read of the crossing log. The log is in the order of its ids;
-- `answered` says whether the database answers.
use tracker.Base.{
  ℕ, Bool, String, Option, none, some, List, [], ◌∷◌, ◌++◌, take, if◌then◌else◌, ◌==◌, string_eq, ℤ,
  pos, pos_part, ltb_ℤ,
}
use tracker.Base.Sort.{slice_stable, find}
use tracker.Clock.{after}
use tracker.Store.{Device, GeofenceEvent}
use tracker.Store.Geofence.Evaluate.{EventRow}
use tracker.Store.Places.{PlaceRow}

pub record GeofenceEventRow : Type 0 where
  pub event : GeofenceEvent
  pub device_name : String

abbrev pub max_geofence_events_limit : ℤ
max_geofence_events_limit = pos 1000

unfoldable pub clamp_events : ℤ → ℕ
clamp_events limit =
    if ltb_ℤ limit (pos 1)
    then 1
    else if ltb_ℤ max_geofence_events_limit limit
    then pos_part max_geofence_events_limit
    else pos_part limit

-- ORDER BY id DESC.
unfoldable pub latest_first : List EventRow → List EventRow
latest_first [] = []
latest_first (e ∷ events) = latest_first events ++ e ∷ []

abbrev pub event_row : EventRow → Device → PlaceRow → GeofenceEventRow
event_row e d g = record {
  event = record {
    device_id = e.device_id;
    geofence_id = e.geofence_id;
    geofence_name = g.name;
    transition = e.transition;
    fix_ts = e.fix_ts;
  };
  device_name = d.name;
}

-- The two joins, and the WHERE.
unfoldable pub joined : List Device → List PlaceRow → String → List EventRow → List GeofenceEventRow
joined devices places family_id [] = []
joined devices places family_id (e ∷ events) =
    let rest = joined devices places family_id events in
    elim (find (λ (d : Device). d.id) e.device_id devices) [
      | none ↦ rest
      | some d ↦ elim (find (λ (g : PlaceRow). g.id) e.geofence_id places) [
        | none ↦ rest
        | some g ↦ if d.family_id == family_id then event_row e d g ∷ rest else rest
      ]
    ]

unfoldable pub list_geofence_events :
    Bool → List Device → List PlaceRow → List EventRow → String → ℤ → Option (List GeofenceEventRow)
list_geofence_events answered devices places events family_id limit =
    if answered
    then some (
        take (clamp_events limit) (
          slice_stable (λ a b. after a.event.fix_ts b.event.fix_ts)
            (joined devices places family_id (latest_first events))))
    else none
