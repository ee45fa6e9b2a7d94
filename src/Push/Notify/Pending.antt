-- ===== src/Push/Notify/Pending.antt =====
-- The ledger after a notification: what it adds to the pending counts is what the queue took.
use tracker.Base.{
  ℕ, zero, suc, ◌+◌, ◌-◌, ◌*◌, ◌≤◌, ◌≡◌, refl, sym, ◌∙◌, ap, true, false, String, Option, some,
  List, [], ◌∷◌, map, ◌++◌, append_assoc, append-nil, ltb, length, length-append, take, drop,
  string_eq, arith,
}
use tracker.Clock.{Time}
use tracker.Store.{Device, GeofenceEvent, PushSubscription}
use tracker.Push.{EndpointKey, endpoint_eq, Delivery}
use tracker.Push.Ledger.{max_tracked_endpoints, pending_count}
use tracker.Push.Ledger.Order.{Inv}
use tracker.Push.Ledger.Classify.{not_handed_over-counts}
use tracker.Push.Dispatcher.{Dispatcher, endpoint_of, take_back, enqueue_one, enqueue}
use tracker.Push.Notify.{fan_out, notify_geofence_events}
use tracker.Push.Notify.FanOut.{
  weight, tally, tally-take-drop, fan_out-Classified, address, addressed, fan_out-addressed,
}

take-nil : (r : ℕ) → take {A = Delivery} r [] ≡ []
take-nil zero = refl
take-nil (suc r) = refl

drop-nil : (r : ℕ) → drop {A = Delivery} r [] ≡ []
drop-nil zero = refl
drop-nil (suc r) = refl

enqueue_one-room :
    (digest : String → String) (d : Dispatcher) (del : Delivery)
    → ltb (length d.queue) d.capacity ≡ true
    → enqueue_one digest d del ≡ record d { queue = d.queue ++ del ∷ [] }
unfolding enqueue_one
enqueue_one-room digest d del room = rw room

-- A refused delivery is taken back.
refuse-count :
    (digest : String → String) (d : Dispatcher) (del : Delivery) (i : EndpointKey) (j : String)
    → ltb (length d.queue) d.capacity ≡ false
    → let d' = enqueue_one digest d del in
      (d'.queue ≡ d.queue)
      × (d'.capacity ≡ d.capacity)
      × (pending_count d'.ledger i j ≡ pending_count d.ledger i j - weight i j del)
unfolding enqueue_one weight take_back
refuse-count digest d del i j full = rw full (
  refl,
  refl,
  ground (arith, not_handed_over-counts d.ledger (endpoint_of del) i del.note.collapse_key j),
)

-- The queue takes what it has room for, in order, and every delivery past that is taken back.
enqueue-split :
    (digest : String → String) (room : ℕ) (d : Dispatcher) (dels : List Delivery) (i : EndpointKey)
    (j : String)
    → d.capacity - length d.queue ≡ room
    → ((enqueue digest d dels).queue ≡ d.queue ++ take room dels)
      × (pending_count (enqueue digest d dels).ledger i j
          ≡ pending_count d.ledger i j - tally i j (drop room dels))
unfolding enqueue tally
enqueue-split digest room d [] i j e =
    rw (take-nil room, drop-nil room) (sym (append-nil d.queue), omega arith)
enqueue-split digest zero d (del ∷ rest) i j e =
    let (q, c, count) = refuse-count digest d del i j (ground arith) in
    let r =
      enqueue-split digest zero (enqueue_one digest d del) rest i j (omega (arith, ap length q)) in
    (r.0 ∙ ap (λ x. x ++ []) q, omega arith)
enqueue-split digest (suc room) d (del ∷ rest) i j e =
    let d' : Dispatcher = record d { queue = d.queue ++ del ∷ [] } in
    let e' = enqueue_one-room digest d del (ground arith) in
    let r =
      enqueue-split digest room d' rest i j (omega (arith, length-append d.queue (del ∷ []))) in
    rw (e', enqueue) (r.0 ∙ append_assoc d.queue (del ∷ []) (take room rest), r.1)

-- If the ledger satisfies its invariant, the tracked endpoints and the new deliveries together
-- number at most 4096, and the subscription lookup answers at least one endpoint, then a
-- notification of at least one crossing makes one delivery for each crossing at each endpoint, in
-- order, addressed to that endpoint and with the notification of that crossing, queues the first
-- of them that the queue has room for, in order, and leaves pending, at every endpoint and key,
-- what was pending plus the hand-overs among those queued.
pub notify-pending :
    (format_ts : Time → String) (digest : String → String) (d : Dispatcher) (dev : Device)
    (e : GeofenceEvent) (events : List GeofenceEvent) (s : PushSubscription)
    (subs : List PushSubscription) (find : String → Option (List PushSubscription))
    (i : EndpointKey) (j : String)
    → Inv d.ledger
    → length d.ledger.order + length (e ∷ events) * length (s ∷ subs) ≤ max_tracked_endpoints
    → find dev.family_id ≡ some (s ∷ subs)
    → let deliveries = (fan_out format_ts d.ledger dev (e ∷ events) (s ∷ subs)).1 in
      let queued = take (d.capacity - length d.queue) deliveries in
      let d' = notify_geofence_events format_ts digest d dev (e ∷ events) find in
      (map address deliveries ≡ addressed format_ts dev (e ∷ events) (s ∷ subs))
      × (length deliveries ≡ length (e ∷ events) * length (s ∷ subs))
      × (d'.queue ≡ d.queue ++ queued)
      × (pending_count d'.ledger i j ≡ pending_count d.ledger i j + tally i j queued)
unfolding notify_geofence_events
notify-pending format_ts digest d dev e events s subs find i j v h found =
    let c = fan_out-Classified format_ts d.ledger dev (e ∷ events) (s ∷ subs) v h in
    let r = fan_out format_ts d.ledger dev (e ∷ events) (s ∷ subs) in
    let d1 : Dispatcher = record d { ledger = r.0 } in
    let room = d.capacity - length d.queue in
    let q = enqueue-split digest room d1 r.1 i j refl in
    rw (found, notify_geofence_events)
      (
        fan_out-addressed format_ts d.ledger dev (e ∷ events) (s ∷ subs),
        c.all_made,
        q.0,
        omega (arith, q.1, c.counts i j, tally-take-drop i j room r.1),
      )
