-- ===== src/Server/Stream/Events.antt =====
-- What a poll writes while the connection takes every event, as equations, and what a watcher that
-- keeps the latest value of each device then holds.
use tracker.Base.{
  Bool, true, false, ◌≡◌, refl, String, Option, none, some, List, [], ◌∷◌, keep, contains, Unique,
  All, is_some, if◌then◌else◌, not, ◌==◌, string_eq, int_eq, ℤ, pos, arith,
}
use tracker.Base.Sort.{find, keys, contains-find}
use tracker.Clock.{Time, after, unix_micro}
use tracker.Presentation.{Value, no_position, value_eq, Windows, evaluate}
use tracker.Store.{DeviceState}
use tracker.Server.Presentation.{
  Payload, located, unlocated, update, failure, entry_for, presentation_payload_for,
}
use tracker.Server.Stream.{
  EventName, position, presentation, Event, Conn, alive, id_line, write_event, send_positions,
  announce,
}

evaluate-none :
    (at : Time) (l : Option Time) (w : Windows) → (evaluate at l w == no_position) ≡ not (is_some l)
unfolding evaluate
evaluate-none at none w = refl
evaluate-none at (some l) w = ground arith

module _ {Float : Type 0} where
  -- The device and the value that a payload states.
  abbrev pub describes : Payload Float → Option (String × Value)
  describes (located r) = some (r.device_id, r.presentation)
  describes (unlocated r) = some (r.device_id, r.presentation)
  describes (update r) = some (r.device_id, r.presentation)
  describes failure = none

  -- The watcher's view of one device after the events written so far.
  unfoldable pub shown : String → List (Event Float) → Option Value
  shown k [] = none
  shown k (e ∷ earlier) = elim (describes e.payload) [
    | none ↦ shown k earlier
    | some (d, v) ↦ if d == k then some v else shown k earlier
  ]

  -- The two facts that the query reads from the same fixes: there is a current position exactly if
  -- there is a last contact.
  abbrev pub Consistent : DeviceState Float → Type 0
  Consistent s = is_some s.current ≡ is_some s.last_contact

  -- For a device that has a current position exactly if it has a last contact, a position entry
  -- and a presentation event of the same instant name the same device and the same value, the one
  -- evaluated at that instant.
  pub describes-entry_for :
      (s : DeviceState Float) (at : Time) (w : Windows)
      → Consistent s
      → (describes (entry_for s at w) ≡ some (s.device_id, evaluate at s.last_contact w))
        × (describes (presentation_payload_for s at w)
            ≡ some (s.device_id, evaluate at s.last_contact w))
  unfolding entry_for presentation_payload_for
  describes-entry_for s at w h = ground (
    arith,
    evaluate-none at s.last_contact w,
    value_eq.beq_iff (evaluate at s.last_contact w) no_position,
  )

  abbrev pub id_of : DeviceState Float → String
  id_of s = s.device_id

  -- The events of a loop over rows, the newest first.
  pub pushed :
      (DeviceState Float → Event Float)
      → List (DeviceState Float)
      → List (Event Float)
      → List (Event Float)
  pushed f [] es = es
  pushed f (s ∷ rest) es = pushed f rest (f s ∷ es)

  abbrev pub arrived_after : Time → DeviceState Float → Bool
  arrived_after since s = elim s.current [ none ↦ false | some p ↦ after p.received_at since ]

  abbrev pub arrival_of : Time → DeviceState Float → Time
  arrival_of since s = elim s.current [ none ↦ since | some p ↦ p.received_at ]

  abbrev pub position_event : Time → Windows → DeviceState Float → Event Float
  position_event at w s = record {
    name = position;
    id = id_line (unix_micro (arrival_of (pos 0) s));
    payload = entry_for s at w;
  }

  abbrev pub presentation_event : Time → Windows → DeviceState Float → Event Float
  presentation_event at w s = record {
    name = presentation;
    id = none;
    payload = presentation_payload_for s at w;
  }

  unfoldable pub last_arrival : Time → List (DeviceState Float) → Time
  last_arrival since [] = since
  last_arrival since (s ∷ rest) = last_arrival (arrival_of since s) rest

  pub noted : List (DeviceState Float) → List String → List String
  noted [] ids = ids
  noted (s ∷ rest) ids = noted rest (s.device_id ∷ ids)

  module _ (encodes : Payload Float → Bool) (accepts : List (Event Float) → Event Float → Bool)
      (renders : (p : Payload Float) → encodes p ≡ true)
      (open_stream : (es : List (Event Float)) (e : Event Float) → accepts es e ≡ true) where
    pub write_event-open :
        (c : Conn Float) (name : EventName) (id : ℤ) (p : Payload Float)
        → write_event encodes accepts c name id p
          ≡ alive
              (record c { sent = record { name = name; id = id_line id; payload = p } ∷ c.sent })
    unfolding write_event
    write_event-open c name id p = rw (renders p, open_stream)

    pub announce-open :
        (at : Time) (c : Conn Float) (owed : List (DeviceState Float))
        → announce encodes accepts at c owed
          ≡ alive (record c { sent = pushed (presentation_event at c.windows) owed c.sent })
    unfolding announce pushed
    announce-open at c [] = refl
    announce-open at c (s ∷ rest) =
        rw (write_event-open c presentation (pos 0) (presentation_payload_for s at c.windows))
          (announce-open at (record c { sent = presentation_event at c.windows s ∷ c.sent }) rest)

    pub send_positions-open :
        (since at : Time) (c : Conn Float) (states : List (DeviceState Float)) (ids : List String)
        → let fresh = keep (arrived_after since) states in
          send_positions encodes accepts since at c states ids
          ≡ alive (
            record c {
              since = last_arrival c.since fresh;
              sent = pushed (position_event at c.windows) fresh c.sent;
            },
            noted fresh ids,
          )
    unfolding send_positions pushed last_arrival noted
    send_positions-open since at c [] ids = refl
    send_positions-open since at c (s ∷ rest) ids =
        let w =
          write_event-open c position (unix_micro (arrival_of (pos 0) s))
            (entry_for s at c.windows) in
        let skipped = send_positions-open since at c rest ids in
        let sent =
          send_positions-open since at
            (record c {
              since = arrival_of c.since s;
              sent = position_event at c.windows s ∷ c.sent;
            })
            rest (s.device_id ∷ ids) in
        ground (arith, w, skipped, sent)

module _ {Float : Type 0} (f : DeviceState Float → Event Float)
    (value : DeviceState Float → Value) where
  -- After the events of a loop over distinct devices, a device of the loop shows its own value and
  -- any other device what it showed before.
  pub shown-pushed :
      (k : String) (states : List (DeviceState Float)) (es : List (Event Float))
      → All (λ s. describes (f s).payload ≡ some (s.device_id, value s)) states
      → Unique (keys id_of states)
      → shown k (pushed f states es)
        ≡ elim (find id_of k states) [ none ↦ shown k es | some s ↦ some (value s) ]
  unfolding pushed shown find
  shown-pushed k [] es h u = refl
  shown-pushed k (s ∷ rest) es h u = ground (
    arith,
    shown-pushed k rest (f s ∷ es) h.1 u.1,
    contains-find id_of s.device_id rest,
    string_eq.beq_iff s.device_id k,
  )

module _ {Float : Type 0} where
  pub noted-contains :
      (k : String) (states : List (DeviceState Float)) (ids : List String)
      → contains k (noted states ids)
        ≡ (if is_some (find id_of k states) then true else contains k ids)
  unfolding noted find contains
  noted-contains k [] ids = refl
  noted-contains k (s ∷ rest) ids = ground (arith, noted-contains k rest (s.device_id ∷ ids))
