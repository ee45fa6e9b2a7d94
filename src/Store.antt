-- ===== src/Store.antt =====
-- internal/store, the row types that the other packages share. A coordinate is a float64: its type
-- is the parameter `Float` of the rows that hold one.
pub mod Geofence
pub mod Subscriptions
pub mod States
pub mod Credentials
pub mod Ingest
pub mod History
pub mod Places
pub mod Crossings
use tracker.Base.{String, Option}
use tracker.Clock.{Time}

-- entities.go.
pub record Device : Type 0 where
  pub id : String
  pub family_id : String
  pub name : String

-- geofence.go. The transition is the text "enter" or "exit".
pub record GeofenceEvent : Type 0 where
  pub device_id : String
  pub geofence_id : String
  pub geofence_name : String
  pub transition : String
  pub fix_ts : Time

-- push.go.
pub record PushSubscription : Type 0 where
  pub provider : String
  pub token : String

-- read.go.
pub record Position (Float : Type 0) : Type 0 where
  pub device_id : String
  pub device_name : String
  pub ts : Time
  pub lon : Float
  pub lat : Float
  pub received_at : Time

-- presentation.go: absent stays absent.
pub record DeviceState (Float : Type 0) : Type 0 where
  pub device_id : String
  pub device_name : String
  pub current : Option (Position Float)
  pub last_contact : Option Time
