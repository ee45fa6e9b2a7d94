-- ===== src/Server/Stream/Watcher.antt =====
-- What a watcher of GET /v1/stream may rely on, poll by poll, while the stream takes every event.
use tracker.Base.{
  Bool, true, false, ◌≡◌, refl, String, Option, none, some, List, [], ◌∷◌, Unique, All, string_eq,
  arith, ◌∙◌, inl, inr, Option-cases, Bool-cases, pos,
}
use tracker.Base.Dict.{lookup}
use tracker.Base.Sort.{find, keys, find-key}
use tracker.Clock.{Time}
use tracker.Presentation.{Value, value_eq, evaluate}
use tracker.Store.{DeviceState}
use tracker.Server.Presentation.{Payload, failure}
use tracker.Server.Stream.{Event, Conn, alive, error, report_unavailable, poll}
use tracker.Server.Stream.Events.{shown, Consistent, id_of, arrived_after, write_event-open}
use tracker.Server.Stream.View.{polled, shown-polled}
use tracker.Server.Stream.Poll.{
  fresh_test, diff_test, resume_test, poll-steady, poll-recovered, poll-fresh, poll-resumed,
}
use tracker.Server.Stream.InStep.{InStep, Readable, diff-InStep, all-InStep}

module _ {Float : Type 0} where
  -- The watcher shows every device of the answer by its value at this instant.
  abbrev pub Shows : Conn Float → Time → List (DeviceState Float) → List (Event Float) → Type 0
  Shows c at states es =
      (k : String) (s : DeviceState Float)
      → find id_of k states ≡ some s
      → shown k es ≡ some (evaluate at s.last_contact c.windows)

  -- Every device of the answer that has a fix has one that arrived after the cursor.
  abbrev pub Unsent : Conn Float → List (DeviceState Float) → Type 0
  Unsent c states =
      (k : String) (s : DeviceState Float) (l : Time)
      → find id_of k states ≡ some s
      → s.last_contact ≡ some l
      → arrived_after c.since s ≡ true

  -- A client that came with `held` and applies the events on top shows every device of the answer by
  -- its value at this instant.
  abbrev pub Holds :
      Conn Float
      → Time
      → List (DeviceState Float)
      → (String → Option Value)
      → List (Event Float)
      → Type 0
  Holds c at states held es =
      (k : String) (s : DeviceState Float)
      → find id_of k states ≡ some s
      → elim (shown k es) [ none ↦ held k | some v ↦ some v ]
        ≡ some (evaluate at s.last_contact c.windows)

  module _ (encodes : Payload Float → Bool) (accepts : List (Event Float) → Event Float → Bool)
      (renders : (p : Payload Float) → encodes p ≡ true)
      (open_stream : (es : List (Event Float)) (e : Event Float) → accepts es e ≡ true)
      (to_lower : String → String) (str_lt : String → String → Bool) where
    failed-InStep :
        (c : Conn Float)
        → InStep c
        → (c' : Conn Float) × (report_unavailable encodes accepts c ≡ alive c') × InStep c'
    unfolding report_unavailable shown
    failed-InStep c h = elim (Bool-cases c.degraded) [
      | inl told ↦ (c, rw told refl, h)
      | inr new ↦ (
        record c {
          degraded = true;
          sent = record { name = error; id = none; payload = failure } ∷ c.sent;
        },
        rw new (
            write_event-open encodes accepts renders open_stream (record c { degraded = true })
              error (pos 0) failure),
        h,
      )
    ]

    -- While every payload renders and the stream takes every event, a poll of a connection past
    -- its first sweep, whether its query fails or answers rows of distinct devices, each with a
    -- current position exactly if it has a last contact, and with every device of the previous
    -- reading still among them, keeps the watcher in step with the connection: the watcher shows
    -- nothing of a device that the last reading does not hold, and of any other either nothing or
    -- the value of that reading at its instant.
    pub poll-InStep :
        (c : Conn Float) (at : Time) (answer : Option (List (DeviceState Float)))
        (as_of : Option (List (String × Time)))
        → c.swept ≡ true
        → ((states : List (DeviceState Float)) → answer ≡ some states → Readable c states)
        → InStep c
        → (c' : Conn Float) × (poll encodes accepts to_lower str_lt c at answer as_of ≡ alive c')
          × InStep c'
    unfolding poll
    poll-InStep c at none as_of swept r h = failed-InStep c h
    poll-InStep c at (some states) as_of swept r h = elim (Bool-cases c.degraded) [
      | inl bad ↦ (
        polled to_lower str_lt c at states (λ s. true),
        poll-recovered encodes accepts renders open_stream to_lower str_lt c at states as_of swept
            bad,
        all-InStep to_lower str_lt c at states (r states refl) h,
      )
      | inr calm ↦ (
        polled to_lower str_lt c at states (diff_test c at),
        poll-steady encodes accepts renders open_stream to_lower str_lt c at states as_of swept
            calm,
        diff-InStep to_lower str_lt c at states (r states refl) h,
      )
    ]

    module _ (c : Conn Float) (at : Time) (states : List (DeviceState Float))
        (u : Unique (keys id_of states)) (ok : All Consistent states) where
      all-Shows : Shows c at states (polled to_lower str_lt c at states (λ s. true)).sent
      all-Shows k s held =
          shown-polled to_lower str_lt states u c at (λ d. true) k ok
          ∙ rw held (elim (Bool-cases (arrived_after c.since s)) [
            | inl e ↦ rw e refl
            | inr e ↦ rw e refl
          ])

      fresh-Shows :
          Unsent c states
          → Shows c at states (polled to_lower str_lt c at states (fresh_test c at)).sent
      unfolding evaluate
      fresh-Shows all_new k s held =
          shown-polled to_lower str_lt states u c at (fresh_test c at) k ok
          ∙ rw held (elim (Option-cases s.last_contact) [
            | inl no_fix ↦ rw no_fix (ground arith)
            | inr (l, fix) ↦ rw (all_new k s l held fix) refl
          ])

      -- While every payload renders and the stream takes every event, a swept connection's first
      -- successful poll after a failed one, over distinct and consistent rows, shows the watcher
      -- every device of the answer by its value at the poll's instant.
      pub poll-recovered-Shows :
          (as_of : Option (List (String × Time)))
          → c.swept ≡ true
          → c.degraded ≡ true
          → (c' : Conn Float) × (poll encodes accepts to_lower str_lt c at (some states) as_of
              ≡ alive c')
            × Shows c at states c'.sent
      poll-recovered-Shows as_of swept bad = (
        polled to_lower str_lt c at states (λ s. true),
        poll-recovered encodes accepts renders open_stream to_lower str_lt c at states as_of swept
            bad,
        all-Shows,
      )

      -- While every payload renders and the stream takes every event, the first successful poll
      -- of a fresh connection is a complete snapshot: if the rows read are distinct and
      -- consistent and every device with a fix has a current position later than the cursor, then
      -- the watcher shows every device of the answer by its value at the poll's instant.
      pub poll-fresh-Shows :
          (as_of : Option (List (String × Time)))
          → c.swept ≡ false
          → c.resuming ≡ false
          → Unsent c states
          → (c' : Conn Float) × (poll encodes accepts to_lower str_lt c at (some states) as_of
              ≡ alive c')
            × Shows c at states c'.sent
      poll-fresh-Shows as_of new fresh all_new = (
        polled to_lower str_lt c at states (fresh_test c at),
        poll-fresh encodes accepts renders open_stream to_lower str_lt c at states as_of new fresh,
        fresh-Shows all_new,
      )

      -- While every payload renders and the stream takes every event, the first successful poll
      -- of a resumed connection that has sent nothing brings its client up to date: if the client
      -- came with the value at the cursor's instant of each device that the resume query answers,
      -- and the rows read are distinct and consistent, then with the events applied it shows
      -- every device of the answer by its value now.
      pub poll-resumed-Held :
          (rows : List (String × Time)) (held : String → Option Value)
          → c.swept ≡ false
          → c.resuming ≡ true
          → c.sent ≡ []
          → ((k : String) (l : Time)
              → lookup k rows ≡ some l
              → held k ≡ some (evaluate c.cursor_instant (some l) c.windows))
          → (c' : Conn Float) × (poll encodes accepts to_lower str_lt c at (some states) (some rows)
              ≡ alive c')
            × Holds c at states held c'.sent
      unfolding shown
      poll-resumed-Held rows held new resumes first was = (
        polled to_lower str_lt c at states (resume_test c rows at),
        poll-resumed encodes accepts renders open_stream to_lower str_lt c at states rows new
            resumes,
        resumed-Held,
      )
        where
          resumed-Held :
              Holds c at states held
                (polled to_lower str_lt c at states (resume_test c rows at)).sent
          resumed-Held k s found =
              let view = shown-polled to_lower str_lt states u c at (resume_test c rows at) k ok in
              let same = find-key id_of k states found in
              elim (Option-cases (lookup k rows)) [
                | inl unknown ↦ ground (arith, view, found, same, unknown, first)
                | inr (l, row) ↦ ground (
                  arith,
                  view,
                  found,
                  same,
                  row,
                  first,
                  was k l row,
                  value_eq.beq_iff (evaluate c.cursor_instant (some l) c.windows)
                      (evaluate at s.last_contact c.windows),
                )
              ]
