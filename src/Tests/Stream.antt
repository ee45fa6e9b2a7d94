-- ===== src/Tests/Stream.antt =====
-- The properties of a watcher's connection in a family of one device.
use tracker.Base.{
  ℕ, ◌*◌, Bool, true, false, ◌≡◌, refl, String, Option, none, some, List, [], ◌∷◌, Unique, pos,
  ◌==◌, string_eq, if◌then◌else◌, arith, contains, ◌-ℤ◌, int64, subst, ◌∙◌, sym,
}
use tracker.Base.Dict.{lookup}
use tracker.Base.Sort.{find, keys, slice_stable, insert_stable}
use tracker.Clock.{Time, second, unix, nanosecond}
use tracker.Presentation.{Value, live, stale, age_seconds, evaluate}
use tracker.Presentation.States.{windows}
use tracker.Store.{DeviceState}
use tracker.Server.Presentation.{Payload, sort_by_arrival}
use tracker.Server.Stream.{Event, Conn, alive, poll}
use tracker.Server.Stream.Events.{shown, id_of, arrived_after, last_arrival}
use tracker.Server.Stream.View.{arrivals}
use tracker.Server.Stream.InStep.{InStep, Readable}
use tracker.Server.Stream.Watcher.{
  Shows, Unsent, Holds, poll-InStep, poll-fresh-Shows, poll-recovered-Shows, poll-resumed-Held,
}
use tracker.Server.Stream.Missed.{poll-resumed-missed}

abbrev encodes : Payload ℕ → Bool
encodes p = true

abbrev accepts : List (Event ℕ) → Event ℕ → Bool
accepts es e = true

abbrev to_lower : String → String
to_lower s = s

abbrev str_lt : String → String → Bool
str_lt a b = false

-- A tablet whose newest fix arrived at the given second.
abbrev tablet : ℕ → DeviceState ℕ
tablet n = record {
  device_id = "t";
  device_name = "Tablet";
  current = some (record {
    device_id = "t";
    device_name = "Tablet";
    ts = pos (n * second);
    lon = 1;
    lat = 2;
    received_at = pos (n * second);
  });
  last_contact = some (pos (n * second));
}

abbrev family : List (DeviceState ℕ)
family = tablet 1000 ∷ []

abbrev opened : Bool → ℕ → Conn ℕ
opened resuming cursor = record {
  windows = windows 300 3600;
  since = pos (cursor * second);
  cursor_instant = pos (cursor * second);
  resuming = resuming;
  swept = false;
  prev = [];
  prev_at = pos 0;
  degraded = false;
  sent = [];
}

family-Unique : Unique (keys id_of family)
unfolding contains
family-Unique = (refl, tt)

abbrev swept : Bool → Conn ℕ
swept degraded = record {
  windows = windows 300 3600;
  since = pos 0;
  cursor_instant = pos 0;
  resuming = false;
  swept = true;
  prev = ("t", none) ∷ [];
  prev_at = pos 0;
  degraded = degraded;
  sent = [];
}

swept-InStep : InStep (swept false)
unfolding lookup shown
swept-InStep k = ground (arith)

family-Readable_here : Readable (swept false) family
unfolding lookup find contains
family-Readable_here = record {
  distinct = family-Unique;
  consistent = (refl, tt);
  persists = λ k missing. ground arith;
}

family-Readable :
    (states : List (DeviceState ℕ)) → some family ≡ some states → Readable (swept false) states
family-Readable states e =
    let same : family ≡ states = cc in subst (Readable (swept false)) same family-Readable_here

poll-InStep_example :
    (c' : Conn ℕ) × (poll encodes accepts to_lower str_lt
        (swept false)
        (pos (1500 * second))
        (some family)
        none
      ≡ alive c')
    × InStep c'
poll-InStep_example =
    poll-InStep encodes accepts (λ p. refl) (λ es e. refl) to_lower str_lt (swept false)
      (pos (1500 * second)) (some family) none refl family-Readable swept-InStep

poll-recovered-Shows_example :
    (c' : Conn ℕ) × (poll encodes accepts to_lower str_lt
        (swept true)
        (pos (1500 * second))
        (some family)
        none
      ≡ alive c')
    × Shows (swept true) (pos (1500 * second)) family c'.sent
poll-recovered-Shows_example =
    poll-recovered-Shows encodes accepts (λ p. refl) (λ es e. refl) to_lower str_lt (swept true)
      (pos (1500 * second)) family family-Unique (refl, tt) none refl refl

family-Unsent : Unsent (opened false 0) family
unfolding find
family-Unsent k s l held fix = ground arith

poll-fresh-Shows_example :
    (c' : Conn ℕ) × (poll encodes accepts to_lower str_lt
        (opened false 0)
        (pos (1500 * second))
        (some family)
        none
      ≡ alive c')
    × Shows (opened false 0) (pos (1500 * second)) family c'.sent
poll-fresh-Shows_example =
    poll-fresh-Shows encodes accepts (λ p. refl) (λ es e. refl) to_lower str_lt (opened false 0)
      (pos (1500 * second)) family family-Unique (refl, tt) none refl refl family-Unsent

-- What the client of the cursor at 5000 seconds holds of the tablet.
abbrev held_then : String → Option Value
held_then k = if "t" == k then some stale else none

abbrev rows_then : List (String × Time)
rows_then = ("t", pos (1000 * second)) ∷ []

stale-then : evaluate (pos (5000 * second)) (some (pos (1000 * second))) (windows 300 3600) ≡ stale
unfolding evaluate age_seconds nanosecond unix int64 ◌-ℤ◌
stale-then = refl

held-rows :
    (k : String) (l : Time)
    → lookup k rows_then ≡ some l
    → held_then k ≡ some (evaluate (pos (5000 * second)) (some l) (windows 300 3600))
unfolding lookup
held-rows k l row = ground (arith, stale-then)

poll-resumed-Held_example :
    (c' : Conn ℕ) × (poll encodes accepts to_lower str_lt
        (opened true 5000)
        (pos (6000 * second))
        (some family)
        (some rows_then)
      ≡ alive c')
    × Holds (opened true 5000) (pos (6000 * second)) family held_then c'.sent
poll-resumed-Held_example =
    poll-resumed-Held encodes accepts (λ p. refl) (λ es e. refl) to_lower str_lt (opened true 5000)
      (pos (6000 * second)) family family-Unique (refl, tt) rows_then held_then refl refl refl
      held-rows

abbrev reported : List (DeviceState ℕ)
reported = tablet 6000 ∷ []

reported-Unique : Unique (keys id_of reported)
unfolding contains
reported-Unique = (refl, tt)

reported-found : find id_of "t" reported ≡ some (tablet 6000)
unfolding find
reported-found = refl

live-before : evaluate (pos (6001 * second)) (some (pos (6000 * second))) (windows 300 3600) ≡ live
unfolding evaluate age_seconds nanosecond unix int64 ◌-ℤ◌
live-before = refl

stale-now : evaluate (pos (20_000 * second)) (some (pos (6000 * second))) (windows 300 3600) ≡ stale
unfolding evaluate age_seconds nanosecond unix int64 ◌-ℤ◌
stale-now = refl

row-then : lookup "t" rows_then ≡ some (pos (1000 * second))
unfolding lookup
row-then = refl

sent-once :
    arrived_after
      (last_arrival (pos (5000 * second)) (arrivals to_lower str_lt (pos (5000 * second)) reported))
      (tablet 6000)
    ≡ false
unfolding sort_by_arrival slice_stable insert_stable last_arrival
sent-once = refl

-- The first poll shows the tablet as live. Hours later, with the datastore back, the tablet is stale
-- and the watcher still has it as live.
poll-resumed-missed_example :
    (c1 : Conn ℕ) × (c2 : Conn ℕ) × (poll encodes accepts to_lower str_lt
        (opened true 5000)
        (pos (6001 * second))
        (some reported)
        none
      ≡ alive c1)
    × (poll encodes accepts to_lower str_lt c1
          (pos (20_000 * second))
          (some reported)
          (some rows_then)
        ≡ alive c2)
    × (shown "t" c2.sent
        ≡ some (evaluate (pos (6001 * second)) (some (pos (6000 * second))) (windows 300 3600)))
poll-resumed-missed_example =
    poll-resumed-missed encodes accepts (λ p. refl) (λ es e. refl) to_lower str_lt
      (opened true 5000) (pos (6001 * second)) (pos (20_000 * second)) reported reported rows_then
      "t" (tablet 6000) (tablet 6000) (pos (1000 * second)) refl refl reported-Unique (refl, tt)
      reported-Unique (refl, tt) reported-found refl reported-found sent-once row-then
      (stale-then ∙ sym stale-now)
