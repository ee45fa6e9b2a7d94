-- ===== src/Tests/Dispatcher.antt =====
-- The properties of the dispatcher and the notifier, with one sender that accepts the second attempt.
use tracker.Base.{
  ◌≡◌, ◌+◌, ◌-◌, ◌*◌, refl, ◌++◌, String, Option, none, some, List, [], ◌∷◌, map, length, leb, take,
  pos, ◌==◌, string_eq, if◌then◌else◌, arith,
}
use tracker.Clock.{Time}
use tracker.Store.{Device, GeofenceEvent, PushSubscription}
use tracker.Push.{EndpointKey, Delivery, Notification, handed_over}
use tracker.Push.Ledger.{new_ledger, max_tracked_endpoints, pending_count}
use tracker.Push.Ledger
use tracker.Push.Ledger.Invariant.{run-new-Inv}
use tracker.Push.Dispatcher.{
  Dispatcher, Sender, offers, works, default_max_pending, default_max_attempts, deliver, run,
}
use tracker.Push.Dispatcher.Outcomes.{drop_reason, dropped_record, owed_to, deliver-dropped}
use tracker.Push.Dispatcher.Accounting.{Accounted, offered, run-Accounted}
use tracker.Push.Notify.{fan_out, notify_geofence_events}
use tracker.Push.Notify.FanOut.{tally, address, addressed}
use tracker.Push.Notify.Pending.{notify-pending}

-- A stand-in that keeps the text.
abbrev pub digest : String → String
digest s = s

abbrev pub format_ts : Time → String
format_ts t = "2026-01-01T00:00:00Z"

abbrev second_time : Sender
second_time del attempt = leb 2 attempt

abbrev senders : String → Option Sender
senders provider = if provider == "fcm" then some second_time else none

abbrev pub idle : Dispatcher
idle = record {
  capacity = default_max_pending;
  max_attempts = default_max_attempts;
  queue = [];
  ledger = new_ledger;
  refused = 0;
  log = [];
}

abbrev note : Notification
note = record { title = "Ada"; body = "Ada left Home"; collapse_key = "gf:a:home"; fields = [] }

abbrev to_phone : Delivery
to_phone = record {
  sub = record { provider = "fcm"; token = "t1" };
  note = note;
  bound = some handed_over;
}

abbrev to_nowhere : Delivery
to_nowhere = record {
  sub = record { provider = "apns"; token = "t2" };
  note = note;
  bound = some handed_over;
}

run-Accounted_example :
    Accounted
      (offered (offers (to_phone ∷ to_nowhere ∷ []) ∷ works ∷ works ∷ []))
      idle
      (run digest senders idle (offers (to_phone ∷ to_nowhere ∷ []) ∷ works ∷ works ∷ []))
run-Accounted_example =
    run-Accounted digest senders idle (offers (to_phone ∷ to_nowhere ∷ []) ∷ works ∷ works ∷ [])
      (omega arith) (omega arith)

deliver-dropped_example :
    let d' = deliver digest senders idle to_nowhere in
    (d' ≡ record idle {
      ledger = d'.ledger;
      log = [] ++ dropped_record digest to_nowhere (drop_reason none) ∷ [];
    })
    × ((i : EndpointKey) (j : String)
        → pending_count d'.ledger i j ≡ pending_count new_ledger i j - owed_to i j to_nowhere)
deliver-dropped_example =
    deliver-dropped digest senders idle to_nowhere (omega arith)
      (λ send i found lo hi. ground arith)

abbrev ada : Device
ada = record { id = "a"; family_id = "f"; name = "Ada" }

abbrev left_home : GeofenceEvent
left_home = record {
  device_id = "a";
  geofence_id = "home";
  geofence_name = "Home";
  transition = "exit";
  fix_ts = pos 0;
}

abbrev sub : PushSubscription
sub = record { provider = "fcm"; token = "t1" }

abbrev subs_of : String → Option (List PushSubscription)
subs_of family = some (sub ∷ [])

notify-pending_example :
    let deliveries = (fan_out format_ts new_ledger ada (left_home ∷ []) (sub ∷ [])).1 in
    let d' = notify_geofence_events format_ts digest idle ada (left_home ∷ []) subs_of in
    (map address deliveries ≡ addressed format_ts ada (left_home ∷ []) (sub ∷ []))
    × (length deliveries ≡ 1 * 1)
    × (d'.queue ≡ [] ++ take (100 - 0) deliveries)
    × (pending_count d'.ledger (record { provider = "fcm"; token = "t1" }) "gf:a:home"
        ≡ pending_count new_ledger (record { provider = "fcm"; token = "t1" }) "gf:a:home"
          + tally
              (record { provider = "fcm"; token = "t1" })
              "gf:a:home"
              (take (100 - 0) deliveries))
unfolding Ledger.run
notify-pending_example =
    notify-pending format_ts digest idle ada left_home [] sub [] subs_of
      (record { provider = "fcm"; token = "t1" }) "gf:a:home" (run-new-Inv []) (omega arith) refl
