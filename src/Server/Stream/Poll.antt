-- ===== src/Server/Stream/Poll.antt =====
-- The four kinds of successful poll, and what each leaves a watcher with.
use tracker.Base.{
  Bool, true, false, ◌≡◌, refl, String, Option, none, some, List, [], ◌∷◌, keep, contains,
  if◌then◌else◌, not, ◌==◌, string_eq, arith, ◌∙◌,
}
use tracker.Base.Dict.{lookup}
use tracker.Clock.{Time}
use tracker.Presentation.{no_position, value_eq, evaluate}
use tracker.Store.{DeviceState}
use tracker.Server.Presentation.{Payload, sort_by_arrival}
use tracker.Server.Stream.{
  owed, Event, Conn, alive, snapshot_unlocated, resume_sweep, reannounce, diff, finish, sweep, poll,
}
use tracker.Server.Stream.Events.{
  announce-open, send_positions-open, noted, pushed, last_arrival, position_event,
}
use tracker.Server.Stream.View.{polled, arrivals, listed, owed_by}

module _ {Float : Type 0} where
  -- Which rows each kind of poll owes an event.
  abbrev pub fresh_test : Conn Float → Time → DeviceState Float → Bool
  fresh_test c at s = evaluate at s.last_contact c.windows == no_position

  abbrev pub diff_test : Conn Float → Time → DeviceState Float → Bool
  diff_test c at s = elim (lookup s.device_id c.prev) [
    | none ↦ false
    | some last_contact ↦
        not (evaluate c.prev_at last_contact c.windows == evaluate at s.last_contact c.windows)
  ]

  abbrev pub resume_test : Conn Float → List (String × Time) → Time → DeviceState Float → Bool
  resume_test c as_of at s = elim (lookup s.device_id as_of) [
    | none ↦ true
    | some then_contact ↦ not (
        evaluate c.cursor_instant (some then_contact) c.windows
        == evaluate at s.last_contact c.windows)
  ]

  -- A filter that leaves out the positioned devices, by either reading of its test.
  abbrev owed_if :
      (DeviceState Float → Bool) → List (DeviceState Float) → List String → List (DeviceState Float)
  owed_if q states ids = keep (λ s. if contains s.device_id ids then false else q s) states

  reannounce-owed :
      (states : List (DeviceState Float)) (ids : List String)
      → reannounce states ids ≡ owed_if (λ s. true) states ids
  unfolding reannounce
  reannounce-owed [] ids = refl
  reannounce-owed (s ∷ rest) ids = ground (arith, reannounce-owed rest ids)

  module _ (recovered : Bool) (at : Time) (as_of : Option (List (String × Time)))
      (states : List (DeviceState Float)) (c : Conn Float) (ids : List String) where
    owed-steady :
        c.swept ≡ true
        → recovered ≡ false
        → owed recovered at as_of states c ids ≡ some (owed_if (diff_test c at) states ids)
    unfolding owed diff
    owed-steady h k = ground arith

    owed-recovered :
        c.swept ≡ true
        → recovered ≡ true
        → owed recovered at as_of states c ids ≡ some (owed_if (λ s. true) states ids)
    unfolding owed
    owed-recovered h k = let same = reannounce-owed states ids in ground arith

    owed-fresh :
        c.swept ≡ false
        → c.resuming ≡ false
        → owed recovered at as_of states c ids ≡ some (owed_if (fresh_test c at) states ids)
    unfolding owed snapshot_unlocated
    owed-fresh h k = ground arith

  owed-resumed :
      (recovered : Bool) (at : Time) (rows : List (String × Time))
      (states : List (DeviceState Float)) (c : Conn Float) (ids : List String)
      → c.swept ≡ false
      → c.resuming ≡ true
      → owed recovered at (some rows) states c ids
        ≡ some (owed_if (resume_test c rows at) states ids)
  unfolding owed resume_sweep
  owed-resumed recovered at rows states c ids h k = ground arith

  module _ (encodes : Payload Float → Bool) (accepts : List (Event Float) → Event Float → Bool)
      (renders : (p : Payload Float) → encodes p ≡ true)
      (open_stream : (es : List (Event Float)) (e : Event Float) → accepts es e ≡ true)
      (to_lower : String → String) (str_lt : String → String → Bool) where
    -- The connection once the positions are out.
    abbrev pub positioned : Conn Float → Time → List (DeviceState Float) → Conn Float
    positioned c at states = record c {
      since = last_arrival c.since (arrivals to_lower str_lt c.since states);
      degraded = false;
      sent = pushed (position_event at c.windows) (arrivals to_lower str_lt c.since states) c.sent;
    }

    pub poll-sweep :
        (c : Conn Float) (at : Time) (states : List (DeviceState Float))
        (as_of : Option (List (String × Time)))
        → poll encodes accepts to_lower str_lt c at (some states) as_of
          ≡ sweep encodes accepts to_lower str_lt c.degraded at as_of
              (listed to_lower str_lt states)
              (positioned c at states, noted (arrivals to_lower str_lt c.since states) [])
    unfolding poll
    poll-sweep c at states as_of = rw (
        send_positions-open encodes accepts renders open_stream c.since at
          (record c { degraded = false }) (sort_by_arrival str_lt states) [])

    finish-open :
        (c : Conn Float) (at : Time) (states : List (DeviceState Float))
        (q : DeviceState Float → Bool)
        → finish encodes accepts at
            (positioned c at states)
            (listed to_lower str_lt states)
            (owed_by to_lower str_lt q c.since states)
          ≡ alive (polled to_lower str_lt c at states q)
    unfolding finish
    finish-open c at states q = rw (
        announce-open encodes accepts renders open_stream at
          (record (positioned c at states) { swept = true })
          (owed_by to_lower str_lt q c.since states))

    -- A poll that owes by the test `q` ends in `polled`.
    poll-owed :
        (c : Conn Float) (at : Time) (states : List (DeviceState Float))
        (as_of : Option (List (String × Time))) (q : DeviceState Float → Bool)
        → owed c.degraded at as_of
            (listed to_lower str_lt states)
            (positioned c at states)
            (noted (arrivals to_lower str_lt c.since states) [])
          ≡ some (owed_by to_lower str_lt q c.since states)
        → poll encodes accepts to_lower str_lt c at (some states) as_of
          ≡ alive (polled to_lower str_lt c at states q)
    unfolding sweep
    poll-owed c at states as_of q e =
        poll-sweep c at states as_of ∙ rw (e, sweep) (finish-open c at states q)

    module _ (c : Conn Float) (at : Time) (states : List (DeviceState Float)) where
      pub poll-steady :
          (as_of : Option (List (String × Time)))
          → c.swept ≡ true
          → c.degraded ≡ false
          → poll encodes accepts to_lower str_lt c at (some states) as_of
            ≡ alive (polled to_lower str_lt c at states (diff_test c at))
      poll-steady as_of swept calm =
          poll-owed c at states as_of (diff_test c at)
            (owed-steady c.degraded at as_of _ (positioned c at states) _ swept calm)

      pub poll-recovered :
          (as_of : Option (List (String × Time)))
          → c.swept ≡ true
          → c.degraded ≡ true
          → poll encodes accepts to_lower str_lt c at (some states) as_of
            ≡ alive (polled to_lower str_lt c at states (λ s. true))
      poll-recovered as_of swept bad =
          poll-owed c at states as_of (λ s. true)
            (owed-recovered c.degraded at as_of _ (positioned c at states) _ swept bad)

      pub poll-fresh :
          (as_of : Option (List (String × Time)))
          → c.swept ≡ false
          → c.resuming ≡ false
          → poll encodes accepts to_lower str_lt c at (some states) as_of
            ≡ alive (polled to_lower str_lt c at states (fresh_test c at))
      poll-fresh as_of new fresh =
          poll-owed c at states as_of (fresh_test c at)
            (owed-fresh c.degraded at as_of _ (positioned c at states) _ new fresh)

      pub poll-resumed :
          (rows : List (String × Time))
          → c.swept ≡ false
          → c.resuming ≡ true
          → poll encodes accepts to_lower str_lt c at (some states) (some rows)
            ≡ alive (polled to_lower str_lt c at states (resume_test c rows at))
      poll-resumed rows new resumes =
          poll-owed c at states (some rows) (resume_test c rows at)
            (owed-resumed c.degraded at rows _ (positioned c at states) _ new resumes)
