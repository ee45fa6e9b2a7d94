-- ===== src/Store/States.antt =====
-- internal/store/presentation.go: the two reads behind the stream and the positions route, over the
-- tables of devices and fixes. `answered` says whether the database answers the query.
pub mod Contact
use tracker.Base.{
  Bool, true, false, not, ◌&&◌, String, Option, none, some, List, [], ◌∷◌, map, keep, if◌then◌else◌,
  ◌==◌, string_eq,
}
use tracker.Base.Dict.{insert}
use tracker.Base.Sort.{slice_stable}
use tracker.Clock.{Time, after}
use tracker.Store.{Device, Position, DeviceState}

-- A row of fixes, by the columns that these queries read.
pub record StoredFix (Float : Type 0) : Type 0 where
  pub device_id : String
  pub ts : Time
  pub lon : Float
  pub lat : Float
  pub received_at : Time

module _ {Float : Type 0} where
  -- max(received_at), NULL over no row.
  unfoldable pub max_received : List (StoredFix Float) → Option Time
  max_received [] = none
  max_received (f ∷ rest) = elim (max_received rest) [
    | none ↦ some f.received_at
    | some m ↦ some (if after f.received_at m then f.received_at else m)
  ]

  abbrev pub fixes_of : String → List (StoredFix Float) → List (StoredFix Float)
  fixes_of device_id fixes = keep (λ f. f.device_id == device_id) fixes

  -- ORDER BY ts DESC LIMIT 1, and the scan of its columns.
  unfoldable pub position_of : Device → List (StoredFix Float) → Option (Position Float)
  position_of d newest_first = elim newest_first [
    | [] ↦ none
    | f ∷ older ↦ some (record {
      device_id = d.id;
      device_name = d.name;
      ts = f.ts;
      lon = f.lon;
      lat = f.lat;
      received_at = f.received_at;
    })
  ]

  abbrev pub state_of : List (StoredFix Float) → Device → DeviceState Float
  state_of fixes d = record {
    device_id = d.id;
    device_name = d.name;
    current = position_of d (slice_stable (λ a b. after a.ts b.ts) (fixes_of d.id fixes));
    last_contact = max_received (fixes_of d.id fixes);
  }

  -- familyDeviceStatesSQL and FamilyDeviceStates.
  unfoldable pub family_device_states :
      Bool → List Device → List (StoredFix Float) → String → Option (List (DeviceState Float))
  family_device_states answered devices fixes family_id =
      if answered
      then some (map (state_of fixes) (keep (λ d. d.family_id == family_id) devices))
      else none

  -- familyLastContactAsOfSQL, a row for each device with a fix received by then.
  unfoldable pub contacts_as_of :
      List Device → List (StoredFix Float) → String → Time → List (String × Time)
  contacts_as_of [] fixes family_id instant = []
  contacts_as_of (d ∷ devices) fixes family_id instant =
      let rest = contacts_as_of devices fixes family_id instant in
      if d.family_id == family_id
      then elim (max_received
          (keep (λ f. not (after f.received_at instant)) (fixes_of d.id fixes))) [
            | none ↦ rest
            | some last ↦ insert d.id last rest
          ]
      else rest

  unfoldable pub family_last_contact_as_of :
      Bool → List Device → List (StoredFix Float) → String → Time → Option (List (String × Time))
  family_last_contact_as_of answered devices fixes family_id instant =
      if answered then some (contacts_as_of devices fixes family_id instant) else none
