-- ===== src/Push/Notify.antt =====
-- internal/push/notify.go: a family's crossings, fanned out over its endpoints. The subscription
-- lookup is a query against the database: its answer is an argument, `none` where it fails. The
-- rendering of an instant as text, time.Format, is the parameter `format_ts`.
pub mod FanOut
pub mod Pending
use Prim.Native.String.{◌++◌}
use tracker.Base.{
  Bool, String, Option, none, some, List, [], ◌∷◌, ◌++◌ as append, if◌then◌else◌, ◌==◌, string_eq,
}
use tracker.Clock.{Time}
use tracker.Store.{Device, GeofenceEvent, PushSubscription}
use tracker.Push.{Notification, Delivery}
use tracker.Push.Ledger.{Ledger, classify}
use tracker.Push.Ledger
use tracker.Push.Dispatcher.{Dispatcher, enqueue}

-- The inner loop: classify one crossing at each endpoint before anything is handed over.
unfoldable pub classify_at : Ledger → Notification → List PushSubscription → Ledger × List Delivery
classify_at l note [] = (l, [])
classify_at l note (s ∷ subs) =
    let (l', bound) =
      classify l (record { provider = s.provider; token = s.token }) note.collapse_key in
    let (l'', rest) = classify_at l' note subs in
    (
      l'',
      record {
        sub = record { provider = s.provider; token = s.token };
        note = note;
        bound = some bound;
      }
          ∷ rest,
    )

module _ (format_ts : Time → String) where
  unfoldable pub build_notification : Device → GeofenceEvent → Notification
  build_notification dev e =
      let verb = if e.transition == "enter" then "arrived at" else "left" in
      record {
        title = dev.name;
        body = dev.name ++ " " ++ verb ++ " " ++ e.geofence_name;
        collapse_key = "gf:" ++ dev.id ++ ":" ++ e.geofence_id;
        fields =
            ("type", "geofence")
            ∷ ("device_id", dev.id)
            ∷ ("place_id", e.geofence_id)
            ∷ ("place_name", e.geofence_name)
            ∷ ("transition", e.transition)
            ∷ ("ts", format_ts e.fix_ts)
            ∷ [];
      }

  -- The outer loop, over the crossings.
  unfoldable pub fan_out :
      Ledger → Device → List GeofenceEvent → List PushSubscription → Ledger × List Delivery
  fan_out l dev [] subs = (l, [])
  fan_out l dev (e ∷ events) subs =
      let (l', here) = classify_at l (build_notification dev e) subs in
      let (l'', rest) = fan_out l' dev events subs in (l'', append here rest)

  unfoldable pub notify_geofence_events :
      (String → String)
      → Dispatcher
      → Device
      → List GeofenceEvent
      → (String → Option (List PushSubscription))
      → Dispatcher
  notify_geofence_events digest d dev [] lookup = d
  notify_geofence_events digest d dev (e ∷ events) lookup = elim (lookup dev.family_id) [
    | none ↦ d
    | some [] ↦ d
    | some (s ∷ subs) ↦
        let (l, deliveries) = fan_out d.ledger dev (e ∷ events) (s ∷ subs) in
        enqueue digest (record d { ledger = l }) deliveries
  ]

-- EndpointRegistered and EndpointRemoved reach the dispatcher's ledger.
pub endpoint_registered : Dispatcher → String → String → Dispatcher
endpoint_registered d provider token = record d {
  ledger = Ledger.endpoint_registered d.ledger provider token;
}

pub endpoint_removed : Dispatcher → String → String → Dispatcher
endpoint_removed d provider token = record d {
  ledger = Ledger.endpoint_removed d.ledger provider token;
}
