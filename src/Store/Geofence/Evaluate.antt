-- ===== src/Store/Geofence/Evaluate.antt =====
-- internal/store/geofence.go, EvaluateDeviceGeofences over the tables that it reads and writes. The
-- containment test of PostGIS, ST_Covers, is the parameter `covers`. Each query may fail:
-- `answers` says which of them the database answers.
use tracker.Base.{
  ◌-◌, ℕ, Bool, true, false, not, ◌&&◌, String, Option, none, some, List, [], ◌∷◌, ◌++◌, take, keep,
  map, negsuc, ◌*◌, if◌then◌else◌, ◌==◌, string_eq, int_eq,
}
use tracker.Base.Sort.{slice_stable}
use tracker.Clock.{Time, second, before, after}
use tracker.Store.{GeofenceEvent}
use tracker.Store.Geofence.{Reading, Transition, confirm_transitions}

-- geofenceEvalNeighbours.
abbrev pub geofence_eval_neighbours : ℕ
geofence_eval_neighbours = 128

-- Go's zero time, the first instant of the year 1.
abbrev pub zero_time : Time
zero_time = negsuc (62_135_596_800 * second - 1)

-- A row of geofence_events; its transition is "enter" or "exit".
pub record EventRow : Type 0 where
  pub device_id : String
  pub geofence_id : String
  pub transition : String
  pub fix_ts : Time

-- A row of fixes: a location is known to `covers` alone.
pub record FixRow (Location : Type 0) : Type 0 where
  pub device_id : String
  pub ts : Time
  pub location : Location

pub record Place : Type 0 where
  pub id : String
  pub name : String

pub data Query : Type 0 where
  lists_places reads_last reads_fixes : String → Query
  appends : EventRow → Query

-- The events appended, the table after them, and whether every query was answered.
pub record Evaluated : Type 0 where
  pub events : List EventRow
  pub appended : List GeofenceEvent
  pub complete : Bool

abbrev pub same_key : EventRow → EventRow → Bool
same_key a b = a.device_id == b.device_id && a.geofence_id == b.geofence_id && a.fix_ts == b.fix_ts

unfoldable pub recorded : EventRow → List EventRow → Bool
recorded e [] = false
recorded e (r ∷ rest) = if same_key r e then true else recorded e rest

-- ORDER BY fix_ts DESC LIMIT 1 over one device and Place.
unfoldable pub last_event : String → String → List EventRow → Option EventRow
last_event device_id geofence_id events =
    elim (slice_stable (λ a b. after a.fix_ts b.fix_ts)
      (keep (λ r. r.device_id == device_id && r.geofence_id == geofence_id) events)) [
        | [] ↦ none
        | r ∷ rest ↦ some r
      ]

abbrev pub row_of : String → String → Transition → EventRow
row_of device_id geofence_id tr = record {
  device_id = device_id;
  geofence_id = geofence_id;
  transition = if tr.enter then "enter" else "exit";
  fix_ts = tr.ts;
}

abbrev pub event_of : String → EventRow → GeofenceEvent
event_of geofence_name r = record {
  device_id = r.device_id;
  geofence_id = r.geofence_id;
  geofence_name = geofence_name;
  transition = r.transition;
  fix_ts = r.fix_ts;
}

module _ {Location : Type 0} (covers : String → Location → Bool) (answers : Query → Bool) where
  abbrev pub reading_of : String → FixRow Location → Reading
  reading_of geofence_id f = record { ts = f.ts; inside = covers geofence_id f.location }

  -- The neighbourhood: at most 128 fixes up to `around` and at most 128 after it, all later than
  -- `last_ts`, in the order of their instants.
  unfoldable pub neighbourhood :
      List (FixRow Location) → String → String → Time → Time → List Reading
  neighbourhood fixes device_id geofence_id last_ts around =
      let new = keep (λ f. f.device_id == device_id && after f.ts last_ts) fixes in
      let up_to = keep (λ f. not (after f.ts around)) new in
      let past = keep (λ f. after f.ts around) new in
      map (reading_of geofence_id) (
        slice_stable (λ a b. before a.ts b.ts)
          (take geofence_eval_neighbours (slice_stable (λ a b. after a.ts b.ts) up_to)
            ++ take geofence_eval_neighbours (slice_stable (λ a b. before a.ts b.ts) past)))

  -- The loop over the transitions: INSERT ... ON CONFLICT DO NOTHING.
  unfoldable pub append_transitions :
      String → String → String → List EventRow → List Transition → Evaluated
  append_transitions device_id geofence_id name events [] = record {
    events = events;
    appended = [];
    complete = true;
  }
  append_transitions device_id geofence_id name events (tr ∷ rest) =
      let row = row_of device_id geofence_id tr in
      let absorbed = append_transitions device_id geofence_id name events rest in
      let after_insert = append_transitions device_id geofence_id name (events ++ row ∷ []) rest in
      if not (answers (appends row))
      then record { events = events; appended = []; complete = false }
      else if recorded row events
      then absorbed
      else record after_insert { appended = event_of name row ∷ after_insert.appended }

  unfoldable pub evaluate_one_geofence :
      ℕ → List (FixRow Location) → List EventRow → String → Place → Time → Evaluated
  evaluate_one_geofence debounce fixes events device_id p around =
      if not (answers (reads_last p.id) && answers (reads_fixes p.id))
      then record { events = events; appended = []; complete = false }
      else elim (last_event device_id p.id events) [
        | none ↦ append_transitions device_id p.id p.name events (
            confirm_transitions (neighbourhood fixes device_id p.id zero_time around) false false
              debounce)
        | some last ↦ append_transitions device_id p.id p.name events (
            confirm_transitions (neighbourhood fixes device_id p.id last.fix_ts around)
              (last.transition == "enter") true debounce)
      ]

  -- The loop over the Places; an error ends it with what was appended before.
  unfoldable pub evaluate_places :
      ℕ → List (FixRow Location) → List EventRow → String → List Place → Time → Evaluated
  evaluate_places debounce fixes events device_id [] around = record {
    events = events;
    appended = [];
    complete = true;
  }
  evaluate_places debounce fixes events device_id (p ∷ places) around =
      let here = evaluate_one_geofence debounce fixes events device_id p around in
      let rest = evaluate_places debounce fixes here.events device_id places around in
      if here.complete
      then record rest { appended = here.appended ++ rest.appended }
      else record { events = here.events; appended = []; complete = false }

  unfoldable pub evaluate_device_geofences :
      ℕ → List (FixRow Location) → List EventRow → String → List Place → Time → Evaluated
  evaluate_device_geofences debounce fixes events device_id places around =
      if answers (lists_places device_id)
      then evaluate_places debounce fixes events device_id places around
      else record { events = events; appended = []; complete = false }
