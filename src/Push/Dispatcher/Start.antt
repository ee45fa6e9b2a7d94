-- ===== src/Push/Dispatcher/Start.antt =====
-- internal/push/push.go: NewDispatcher and its options. The pause between attempts, WithRetryBackoff,
-- is not part of the state.
use tracker.Base.{
  ℕ, ◌≤◌, ◌+◌, ◌≡◌, refl, String, Option, List, [], ◌∷◌, length, ℤ, pos, ltb_ℤ, pos_part,
  if◌then◌else◌, arith,
}
use tracker.Push.Ledger.{new_ledger}
use tracker.Push.Dispatcher.{
  Dispatcher, Sender, Event, run, default_max_pending, default_max_attempts,
}
use tracker.Push.Dispatcher.Accounting.{offered, run-Accounted}

pub data DispatcherOption : Type 0 where
  with_max_pending with_max_attempts : ℤ → DispatcherOption

-- `n < 1` is treated as 1.
abbrev at_least_one : ℤ → ℕ
at_least_one n = if ltb_ℤ n (pos 1) then 1 else pos_part n

-- WithMaxPending makes a new, empty channel.
unfoldable pub apply_option : Dispatcher → DispatcherOption → Dispatcher
apply_option d (with_max_pending n) = record d { capacity = at_least_one n; queue = [] }
apply_option d (with_max_attempts n) = record d { max_attempts = at_least_one n }

unfoldable pub apply_options : Dispatcher → List DispatcherOption → Dispatcher
apply_options d [] = d
apply_options d (o ∷ opts) = apply_options (apply_option d o) opts

unfoldable pub new_dispatcher : List DispatcherOption → Dispatcher
unfolding apply_options
new_dispatcher opts =
    apply_options
      (record {
        capacity = default_max_pending;
        max_attempts = default_max_attempts;
        queue = [];
        ledger = new_ledger;
        refused = 0;
        log = [];
      })
      opts

-- A dispatcher that has not run yet.
pub record Idle (d : Dispatcher) : Type 0 where
  pub some_room : 1 ≤ d.capacity
  pub some_attempt : 1 ≤ d.max_attempts
  pub no_queue : d.queue ≡ []
  pub no_log : d.log ≡ []

apply_options-Idle :
    (d : Dispatcher) (opts : List DispatcherOption) → Idle d → Idle (apply_options d opts)
unfolding apply_options apply_option
apply_options-Idle d [] i = i
apply_options-Idle d (with_max_pending n ∷ opts) i =
    apply_options-Idle (apply_option d (with_max_pending n)) opts (record {
      some_room = ground arith;
      some_attempt = i.some_attempt;
      no_queue = refl;
      no_log = i.no_log;
    })
apply_options-Idle d (with_max_attempts n ∷ opts) i =
    apply_options-Idle (apply_option d (with_max_attempts n)) opts (record {
      some_room = i.some_room;
      some_attempt = ground arith;
      no_queue = i.no_queue;
      no_log = i.no_log;
    })

new_dispatcher-Idle : (opts : List DispatcherOption) → Idle (new_dispatcher opts)
unfolding new_dispatcher
new_dispatcher-Idle opts =
    apply_options-Idle _ opts (record {
      some_room = omega arith;
      some_attempt = omega arith;
      no_queue = refl;
      no_log = refl;
    })

module _ (digest : String → String) (senders : String → Option Sender) where
  -- A new dispatcher, whatever its options, makes at least one attempt at a delivery, and after
  -- any offers and worker rounds the outcomes recorded and the deliveries queued are together as
  -- many as the deliveries offered, with the queue within its capacity.
  pub new_dispatcher-run :
      (opts : List DispatcherOption) (es : List Event)
      → let d = run digest senders (new_dispatcher opts) es in
        (length d.log + length d.queue ≡ offered es)
        × (length d.queue ≤ d.capacity)
        × (1 ≤ d.max_attempts)
  new_dispatcher-run opts es =
      let i = new_dispatcher-Idle opts in
      let a =
        run-Accounted digest senders (new_dispatcher opts) es i.some_attempt
          (ground (arith, i.no_queue)) in
      (
        ground (arith, a.total, i.no_queue, i.no_log),
        a.within,
        omega (arith, a.same_attempts, i.some_attempt),
      )
