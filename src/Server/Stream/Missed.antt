-- ===== src/Server/Stream/Missed.antt =====
-- internal/server/stream.go: what a resumed watcher holds when the first resume query failed.
use tracker.Base.{
  Bool, true, false, ◌≡◌, String, none, some, List, ◌∷◌, Unique, All, All-imp, string_eq, arith,
  ◌∙◌, pos,
}
use tracker.Base.Dict.{lookup}
use tracker.Base.Sort.{find, keys, find-key, find-keep, keep-Unique}
use tracker.Clock.{Time}
use tracker.Presentation.{value_eq, evaluate}
use tracker.Store.{DeviceState}
use tracker.Server.Presentation.{Payload, failure}
use tracker.Server.Stream.{Event, Conn, alive, error, report_unavailable, poll, sweep, owed}
use tracker.Server.Stream.Events.{
  shown, Consistent, id_of, arrived_after, write_event-open, position_event, pushed, shown-pushed,
  describes-entry_for, last_arrival,
}
use tracker.Server.Stream.View.{
  polled, shown-polled, arrivals, arrivals-Consistent, by_arrival-Unique, find-by_arrival,
}
use tracker.Server.Stream.Poll.{resume_test, poll-resumed, poll-sweep, positioned}

module _ {Float : Type 0} (encodes : Payload Float → Bool)
    (accepts : List (Event Float) → Event Float → Bool)
    (renders : (p : Payload Float) → encodes p ≡ true)
    (open_stream : (es : List (Event Float)) (e : Event Float) → accepts es e ≡ true)
    (to_lower : String → String) (str_lt : String → String → Bool) where
  -- The connection after a poll that sent its positions and could not read the resume query.
  abbrev interrupted : Conn Float → Time → List (DeviceState Float) → Conn Float
  interrupted c at states = record c {
    since = last_arrival c.since (arrivals to_lower str_lt c.since states);
    degraded = true;
    sent =
        record { name = error; id = none; payload = failure }
        ∷ pushed (position_event at c.windows) (arrivals to_lower str_lt c.since states) c.sent;
  }

  owed-failed :
      (recovered : Bool) (at : Time) (states : List (DeviceState Float)) (c : Conn Float)
      (ids : List String)
      → c.swept ≡ false
      → c.resuming ≡ true
      → owed recovered at none states c ids ≡ none
  unfolding owed
  owed-failed recovered at states c ids new resumes = ground arith

  poll-interrupted :
      (c : Conn Float) (at : Time) (states : List (DeviceState Float))
      → c.swept ≡ false
      → c.resuming ≡ true
      → poll encodes accepts to_lower str_lt c at (some states) none
        ≡ alive (interrupted c at states)
  unfolding sweep report_unavailable
  poll-interrupted c at states new resumes =
      poll-sweep encodes accepts renders open_stream to_lower str_lt c at states none
      ∙ rw
          (
            owed-failed c.degraded at _
                (positioned encodes accepts renders open_stream to_lower str_lt c at states) _ new
                resumes,
            sweep,
          )
          (write_event-open encodes accepts renders open_stream
            (record (positioned encodes accepts renders open_stream to_lower str_lt c at states) {
              degraded = true;
            })
            error (pos 0) failure)

  shown-interrupted :
      (c : Conn Float) (at : Time) (states : List (DeviceState Float)) (k : String)
      (s : DeviceState Float)
      → Unique (keys id_of states)
      → All Consistent states
      → find id_of k states ≡ some s
      → arrived_after c.since s ≡ true
      → shown k (interrupted c at states).sent ≡ some (evaluate at s.last_contact c.windows)
  unfolding shown
  shown-interrupted c at states k s u ok held arrived =
      let value = λ (d : DeviceState Float). evaluate at d.last_contact c.windows in
      let view =
        shown-pushed (position_event at c.windows) value k (arrivals to_lower str_lt c.since states)
          c.sent
          (All-imp Consistent _ _ (λ d fine. (describes-entry_for d at c.windows fine).0)
            (arrivals-Consistent to_lower str_lt states u c.since ok))
          (keep-Unique id_of _ _ (by_arrival-Unique to_lower str_lt states u)) in
      let there =
        find-keep id_of k (arrived_after c.since) _ (by_arrival-Unique to_lower str_lt states u) in
      ground (arith, view, there, find-by_arrival to_lower str_lt states u k, held, arrived)

  -- While every payload renders and the stream takes every event, and each answer's rows are
  -- distinct and consistent: if the first poll of a resumed connection sends a device's position
  -- and cannot read the resume query, and at the next poll everything is read, the device has no
  -- later position, and its value at the cursor's instant is its value now, then the watcher
  -- still shows the device by its value at the first poll.
  pub poll-resumed-missed :
      (c : Conn Float) (at1 at2 : Time) (states1 states2 : List (DeviceState Float))
      (rows : List (String × Time)) (k : String) (s1 s2 : DeviceState Float) (l : Time)
      → c.swept ≡ false
      → c.resuming ≡ true
      → Unique (keys id_of states1)
      → All Consistent states1
      → Unique (keys id_of states2)
      → All Consistent states2
      → find id_of k states1 ≡ some s1
      → arrived_after c.since s1 ≡ true
      → find id_of k states2 ≡ some s2
      → arrived_after (last_arrival c.since (arrivals to_lower str_lt c.since states1)) s2 ≡ false
      → lookup k rows ≡ some l
      → evaluate c.cursor_instant (some l) c.windows ≡ evaluate at2 s2.last_contact c.windows
      → (c1 : Conn Float) × (c2 : Conn Float) × (poll encodes accepts to_lower str_lt c at1
            (some states1)
            none
          ≡ alive c1)
        × (poll encodes accepts to_lower str_lt c1 at2 (some states2) (some rows) ≡ alive c2)
        × (shown k c2.sent ≡ some (evaluate at1 s1.last_contact c.windows))
  poll-resumed-missed c at1 at2 states1 states2 rows k s1 s2 l new resumes u1 ok1 u2 ok2 held1
        arrived held2 old row same =
      let c1 : Conn Float = interrupted c at1 states1 in
      (
        c1,
        polled to_lower str_lt c1 at2 states2 (resume_test c1 rows at2),
        poll-interrupted c at1 states1 new resumes,
        poll-resumed encodes accepts renders open_stream to_lower str_lt c1 at2 states2 rows new
            resumes,
        stale,
      )
    where
      stale :
          shown k
            (polled to_lower str_lt
              (interrupted c at1 states1)
              at2
              states2
              (resume_test (interrupted c at1 states1) rows at2)).sent
          ≡ some (evaluate at1 s1.last_contact c.windows)
      stale =
          let c1 : Conn Float = interrupted c at1 states1 in
          let first = shown-interrupted c at1 states1 k s1 u1 ok1 held1 arrived in
          let second =
            shown-polled to_lower str_lt states2 u2 c1 at2 (resume_test c1 rows at2) k ok2 in
          let key = find-key id_of k states2 held2 in
          ground (
            arith,
            first,
            second,
            held2,
            old,
            key,
            row,
            same,
            value_eq.beq_iff (evaluate c.cursor_instant (some l) c.windows)
                (evaluate at2 s2.last_contact c.windows),
          )
