-- ===== src/Server/Stream.antt =====
-- internal/server/stream.go: one open watcher of GET /v1/stream, poll by poll. What the outside
-- answers enters as arguments: `states` and `as_of` are the two queries' rows, `none` where a query
-- fails; `at` is the clock; `encodes` says which payloads json.Marshal renders, and `accepts` which
-- events the connection still takes. Every write is kept in `sent`, the newest first; the heartbeat
-- comments, which carry no event, are left out.
pub mod Events
pub mod View
pub mod Poll
pub mod InStep
pub mod Watcher
pub mod Missed
use tracker.Base.{
  ℕ, Bool, true, false, String, Option, none, some, List, [], ◌∷◌, keep, contains, if◌then◌else◌,
  not, ◌==◌, ◌&&◌, string_eq, int_eq, ℤ, pos, ◌*ℤ◌, ltb_ℤ, int64, quot,
}
use mathlib.Core.Option
use tracker.Base.Dict.{lookup, insert}
use tracker.Clock.{Time, second, after, unix_micro}
use tracker.Presentation.{Value, no_position, value_eq, Windows, evaluate, sweep_bound}
use tracker.Store.{Position, DeviceState}
use tracker.Server.Presentation.{
  Payload, failure, entry_for, presentation_payload_for, sort_device_states, sort_by_arrival,
}

-- streamPollInterval, in nanoseconds, and streamPollTick; a Duration is an int64.
abbrev pub stream_poll_interval : ℤ
stream_poll_interval = pos second

unfoldable pub stream_poll_tick : Windows → ℤ
stream_poll_tick w =
    let half = quot (int64 (sweep_bound w *ℤ pos second)) 2 in
    if ltb_ℤ (pos 0) half && ltb_ℤ half stream_poll_interval then half else stream_poll_interval

pub data EventName : Type 0 where
  position presentation error : EventName

pub record Event (Float : Type 0) : Type 0 where
  pub name : EventName
  pub id : Option ℤ
  pub payload : Payload Float

pub record Conn (Float : Type 0) : Type 0 where
  pub windows : Windows
  pub since : Time
  pub cursor_instant : Time
  pub resuming : Bool
  pub swept : Bool
  pub prev : List (String × Option Time)
  pub prev_at : Time
  pub degraded : Bool
  pub sent : List (Event Float)

-- A failed write ends the stream.
pub data Outcome (Float : Type 0) (A : Type 0) : Type 0 where
  alive : A → Outcome Float A
  gone : Conn Float → Outcome Float A

infixl 5 ◌>>=◌
abbrev pub ◌>>=◌ : {Float A B : Type 0} → Outcome Float A → (A → Outcome Float B) → Outcome Float B
alive a >>= f = f a
gone c >>= f = gone c

-- An id of 0 means no id line.
abbrev pub id_line : ℤ → Option ℤ
id_line id = if id == pos 0 then none else some id

module _ {Float : Type 0} where
  unfoldable pub snapshot_unlocated :
      Conn Float → List (DeviceState Float) → Time → List String → List (DeviceState Float)
  snapshot_unlocated c states at positioned =
      keep
        (λ s.
          if contains s.device_id positioned
          then false
          else evaluate at s.last_contact c.windows == no_position)
        states

  -- The body of resumeSweep once the cursor-instant contacts are read.
  unfoldable pub resume_sweep :
      Conn Float
      → List (String × Time)
      → List (DeviceState Float)
      → Time
      → List String
      → List (DeviceState Float)
  resume_sweep c as_of states at positioned =
      keep
        (λ s. if contains s.device_id positioned then false else elim (lookup s.device_id as_of) [
          | none ↦ true
          | some last_contact_then ↦ not (
              evaluate c.cursor_instant (some last_contact_then) c.windows
              == evaluate at s.last_contact c.windows)
        ])
        states

  unfoldable pub reannounce : List (DeviceState Float) → List String → List (DeviceState Float)
  reannounce states positioned = keep (λ s. not (contains s.device_id positioned)) states

  unfoldable pub diff :
      Conn Float → List (DeviceState Float) → Time → List String → List (DeviceState Float)
  diff c states at positioned =
      keep
        (λ s. if contains s.device_id positioned then false else elim (lookup s.device_id c.prev) [
          | none ↦ false
          | some last_contact ↦
              not
                (evaluate c.prev_at last_contact c.windows == evaluate at s.last_contact c.windows)
        ])
        states

  -- The switch on the kind of poll: the rows that are owed a `presentation` event, or `none` where
  -- the resume query fails.
  unfoldable pub owed :
      Bool
      → Time
      → Option (List (String × Time))
      → List (DeviceState Float)
      → Conn Float
      → List String
      → Option (List (DeviceState Float))
  owed recovered at as_of states c positioned =
      if not c.swept && c.resuming
      then Option.map (λ rows. resume_sweep c rows states at positioned) as_of
      else if not c.swept
      then some (snapshot_unlocated c states at positioned)
      else if recovered
      then some (reannounce states positioned)
      else some (diff c states at positioned)

  -- The loop that remembers what the poll saw.
  unfoldable pub observe :
      List (DeviceState Float) → List (String × Option Time) → List (String × Option Time)
  observe [] seen = seen
  observe (s ∷ rest) seen = observe rest (insert s.device_id s.last_contact seen)

  module _ (encodes : Payload Float → Bool)
      (accepts : List (Event Float) → Event Float → Bool) where
    unfoldable pub write_event :
        Conn Float → EventName → ℤ → Payload Float → Outcome Float (Conn Float)
    write_event c name id payload =
        let event : Event Float = record { name = name; id = id_line id; payload = payload } in
        if not (encodes payload)
        then alive c
        else if accepts c.sent event
        then alive (record c { sent = event ∷ c.sent })
        else gone c

    unfoldable pub report_unavailable : Conn Float → Outcome Float (Conn Float)
    unfolding write_event
    report_unavailable c =
        if c.degraded
        then alive c
        else write_event (record c { degraded = true }) error (pos 0) failure

    -- The loop over the positions: `since` is the cursor as the poll began.
    unfoldable pub send_positions :
        Time
        → Time
        → Conn Float
        → List (DeviceState Float)
        → List String
        → Outcome Float (Conn Float × List String)
    send_positions since at c [] positioned = alive (c, positioned)
    send_positions since at c (s ∷ rest) positioned =
        let continue = send_positions since at c rest positioned in
        elim s.current [
          | none ↦ continue
          | some p ↦
              if not (after p.received_at since)
              then continue
              else (write_event c position (unix_micro p.received_at) (entry_for s at c.windows)
                  >>= λ c'.
                      send_positions since at (record c' { since = p.received_at }) rest
                        (s.device_id ∷ positioned))
        ]

    unfoldable pub announce :
        Time → Conn Float → List (DeviceState Float) → Outcome Float (Conn Float)
    announce at c [] = alive c
    announce at c (s ∷ rest) =
        write_event c presentation (pos 0) (presentation_payload_for s at c.windows) >>= λ c'.
        announce at c' rest

    -- The end of a poll: announce what is owed and remember what was seen.
    unfoldable pub finish :
        Time
        → Conn Float
        → List (DeviceState Float)
        → List (DeviceState Float)
        → Outcome Float (Conn Float)
    finish at c states owed = do
      c' ← announce at (record c { swept = true }) owed
      alive (record c' { prev = observe states []; prev_at = at })

    module _ (to_lower : String → String) (str_lt : String → String → Bool) where
      -- Part 2 and 3 of poll, after the positions.
      unfoldable pub sweep :
          Bool
          → Time
          → Option (List (String × Time))
          → List (DeviceState Float)
          → Conn Float × List String
          → Outcome Float (Conn Float)
      sweep recovered at as_of states (c, positioned) =
          elim (owed recovered at as_of states c positioned) [
            | none ↦ report_unavailable c
            | some rows ↦ finish at c states rows
          ]

      unfoldable pub poll :
          Conn Float
          → Time
          → Option (List (DeviceState Float))
          → Option (List (String × Time))
          → Outcome Float (Conn Float)
      poll c at none as_of = report_unavailable c
      poll c at (some states) as_of =
          let by_arrival = sort_by_arrival str_lt states in
          send_positions c.since at (record c { degraded = false }) by_arrival []
          >>= sweep c.degraded at as_of (sort_device_states to_lower str_lt by_arrival)
