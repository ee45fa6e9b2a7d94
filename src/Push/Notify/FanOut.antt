-- ===== src/Push/Notify/FanOut.antt =====
-- The ledger after a fan-out: pending is what was handed to the queue, and nothing else.
use tracker.Base.{
  map, map-append, ◌∙◌, ℕ, zero, suc, ◌+◌, ◌*◌, ◌≤◌, ◌<◌, ◌≡◌, refl, ap, ◌&&◌, String, some, List,
  [], ◌∷◌, ◌++◌, if◌then◌else◌, length, length-append, take, drop, ◌==◌, string_eq, arith,
}
use tracker.Clock.{Time}
use tracker.Store.{Device, GeofenceEvent, PushSubscription}
use tracker.Push.{EndpointKey, endpoint_eq, Subscription, Notification, Delivery, bound_or_default}
use tracker.Push.Ledger.{Ledger, classify, max_tracked_endpoints, pending_count}
use tracker.Push.Ledger.Order.{Inv}
use tracker.Push.Ledger.Invariant.{classify-Inv}
use tracker.Push.Ledger.Growth.{classify-count, classify-length, classify-outcome}
use tracker.Push.Dispatcher.{endpoint_of, was_handed_over}
use tracker.Push.Notify.{build_notification, classify_at, fan_out}

-- One delivery counts for a key of an endpoint if it was classified as handed over.
unfoldable pub weight : EndpointKey → String → Delivery → ℕ
weight i j d =
    if was_handed_over (bound_or_default d) && (endpoint_of d == i && d.note.collapse_key == j)
    then 1
    else 0

unfoldable pub tally : EndpointKey → String → List Delivery → ℕ
tally i j [] = 0
tally i j (d ∷ ds) = weight i j d + tally i j ds

tally-append :
    (i : EndpointKey) (j : String) (xs ys : List Delivery)
    → tally i j (xs ++ ys) ≡ tally i j xs + tally i j ys
unfolding tally
tally-append i j [] ys = omega arith
tally-append i j (x ∷ xs) ys = omega (arith, tally-append i j xs ys)

pub tally-take-drop :
    (i : EndpointKey) (j : String) (n : ℕ) (ds : List Delivery)
    → tally i j ds ≡ tally i j (take n ds) + tally i j (drop n ds)
unfolding tally
tally-take-drop i j zero ds = omega arith
tally-take-drop i j (suc n) [] = omega arith
tally-take-drop i j (suc n) (d ∷ ds) = omega (arith, tally-take-drop i j n ds)

-- Who is sent what: every crossing at every endpoint, in order.
abbrev pub addressed :
    (Time → String)
    → Device
    → List GeofenceEvent
    → List PushSubscription
    → List (Subscription × Notification)
addressed format_ts dev [] subs = []
addressed format_ts dev (e ∷ events) subs =
    map
      (λ s. (record { provider = s.provider; token = s.token }, build_notification format_ts dev e))
      subs
    ++ addressed format_ts dev events subs

abbrev pub address : Delivery → Subscription × Notification
address del = (del.sub, del.note)

classify_at-address :
    (l : Ledger) (note : Notification) (subs : List PushSubscription)
    → map address (classify_at l note subs).1
      ≡ map (λ s. (record { provider = s.provider; token = s.token }, note)) subs
unfolding classify_at
classify_at-address l note [] = refl
classify_at-address l note (s ∷ subs) =
    let e : EndpointKey = record { provider = s.provider; token = s.token } in
    ap (λ rest. (record { provider = s.provider; token = s.token }, note) ∷ rest)
      (classify_at-address (classify l e note.collapse_key).0 note subs)

pub fan_out-addressed :
    (format_ts : Time → String) (l : Ledger) (dev : Device) (events : List GeofenceEvent)
    (subs : List PushSubscription)
    → map address (fan_out format_ts l dev events subs).1 ≡ addressed format_ts dev events subs
unfolding fan_out
fan_out-addressed format_ts l dev [] subs = refl
fan_out-addressed format_ts l dev (e ∷ events) subs =
    let note = build_notification format_ts dev e in
    let (l', here) = classify_at l note subs in
    let rest = (fan_out format_ts l' dev events subs).1 in
    map-append address here rest
    ∙ rw (classify_at-address l note subs, fan_out-addressed format_ts l' dev events subs) refl

-- What a classification loop does: counts grow by the tally, the order by at most `n`.
pub record Classified (n : ℕ) (l : Ledger) (r : Ledger × List Delivery) : Type 0 where
  pub inv : Inv r.0
  pub order_length : length r.0.order ≤ length l.order + n
  pub all_made : length r.1 ≡ n
  pub counts :
      (i : EndpointKey) (j : String) → pending_count r.0 i j ≡ pending_count l i j + tally i j r.1

classify-weight :
    (l : Ledger) (note : Notification) (s : PushSubscription) (i : EndpointKey) (j : String)
    → Inv l
    → length l.order < max_tracked_endpoints
    → let r = classify l (record { provider = s.provider; token = s.token }) note.collapse_key in
      pending_count r.0 i j
      ≡ pending_count l i j
        + weight i j (record {
          sub = record { provider = s.provider; token = s.token };
          note = note;
          bound = some r.1;
        })
unfolding weight bound_or_default
classify-weight l note s i j v room =
    let e : EndpointKey = record { provider = s.provider; token = s.token } in
    ground (
      arith,
      classify-count l e i note.collapse_key j v room,
      classify-outcome l e note.collapse_key,
    )

classify_at-Classified :
    (l : Ledger) (note : Notification) (subs : List PushSubscription)
    → Inv l
    → length l.order + length subs ≤ max_tracked_endpoints
    → Classified (length subs) l (classify_at l note subs)
unfolding classify_at tally
classify_at-Classified l note [] v h = record {
  inv = v;
  order_length = omega arith;
  all_made = refl;
  counts = λ i j. omega arith;
}
classify_at-Classified l note (s ∷ subs) v h =
    let e : EndpointKey = record { provider = s.provider; token = s.token } in
    let longer = classify-length l e note.collapse_key in
    let r =
      classify_at-Classified (classify l e note.collapse_key).0 note subs
        (classify-Inv l e note.collapse_key v) (omega arith) in
    record {
      inv = r.inv;
      order_length = omega arith;
      all_made = ap suc r.all_made;
      counts = λ i j. omega (arith, r.counts i j, classify-weight l note s i j v (omega arith));
    }

-- The whole fan-out: one delivery for each crossing at each endpoint.
pub fan_out-Classified :
    (format_ts : Time → String) (l : Ledger) (dev : Device) (events : List GeofenceEvent)
    (subs : List PushSubscription)
    → Inv l
    → length l.order + length events * length subs ≤ max_tracked_endpoints
    → Classified (length events * length subs) l (fan_out format_ts l dev events subs)
unfolding fan_out tally
fan_out-Classified format_ts l dev [] subs v h = record {
  inv = v;
  order_length = omega arith;
  all_made = omega arith;
  counts = λ i j. omega arith;
}
fan_out-Classified format_ts l dev (e ∷ events) subs v h =
    let note = build_notification format_ts dev e in
    let r = classify_at-Classified l note subs v (omega arith) in
    let (l', here) = classify_at l note subs in
    let more =
      fan_out-Classified format_ts l' dev events subs r.inv (omega (arith, r.order_length)) in
    let rest = (fan_out format_ts l' dev events subs).1 in
    record {
      inv = more.inv;
      order_length = omega (arith, r.order_length, more.order_length);
      all_made = omega (arith, length-append here rest, r.all_made, more.all_made);
      counts = λ i j. omega (arith, r.counts i j, more.counts i j, tally-append i j here rest);
    }
