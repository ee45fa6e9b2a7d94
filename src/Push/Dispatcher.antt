-- ===== src/Push/Dispatcher.antt =====
-- internal/push/push.go: the bounded, retrying queue in front of the senders, and the outcome record
-- of ledger.go. The senders reach other machines: `senders` says, for each provider that has one,
-- which attempt of a delivery its backend accepts. SHA-256 in hexadecimal is the parameter `digest`.
pub mod Outcomes
pub mod Accounting
pub mod Start
use Prim.Native.String.{◌++◌}
use tracker.Base.{
  false, true, ℕ, zero, suc, ◌+◌, Bool, String, Option, none, some, List, [], ◌∷◌, ◌++◌ as append,
  ltb, if◌then◌else◌, length, ◌==◌, nat_eq, string_eq,
}
use tracker.Base.Dict.{lookup}
use tracker.Push.{
  DeliveryOutcome, handed_over, beyond_collapse_bound, dropped, EndpointKey, Subscription,
  Notification, Delivery, bound_or_default,
}
use tracker.Push.Ledger.{Ledger, not_handed_over}

-- DefaultMaxPending and defaultMaxAttempts.
abbrev pub default_max_pending : ℕ
default_max_pending = 100

abbrev pub default_max_attempts : ℕ
default_max_attempts = 3

-- One structured log record, `push.delivery.outcome`; `reason` is empty but for `dropped`.
pub record OutcomeRecord : Type 0 where
  pub outcome : DeliveryOutcome
  pub provider : String
  pub endpoint : String
  pub collapse_key : String
  pub device_id : String
  pub place_id : String
  pub transition : String
  pub ts : String
  pub reason : String

pub record Dispatcher : Type 0 where
  pub capacity : ℕ
  pub max_attempts : ℕ
  pub queue : List Delivery
  pub ledger : Ledger
  -- The counter of deliveries refused because the queue was full.
  pub refused : ℕ
  pub log : List OutcomeRecord

abbrev pub Sender : Type 0
Sender = Delivery → ℕ → Bool

-- A read of a missing key of a Go map of strings is the empty string.
abbrev field_or_empty : Option String → String
field_or_empty none = ""
field_or_empty (some s) = s

abbrev pub endpoint_of : Delivery → EndpointKey
endpoint_of del = record { provider = del.sub.provider; token = del.sub.token }

-- The guard of Dispatcher.notHandedOver.
abbrev pub was_handed_over : DeliveryOutcome → Bool
was_handed_over handed_over = true
was_handed_over _ = false

unfoldable pub take_back : Ledger → Delivery → Ledger
take_back l del =
    if was_handed_over (bound_or_default del)
    then not_handed_over l (endpoint_of del) del.note.collapse_key
    else l

pub data Event : Type 0 where
  offers : List Delivery → Event
  works : Event

module _ (digest : String → String) where
  unfoldable pub endpoint_digest : String → String → String
  endpoint_digest provider token = if token == "" then "" else digest (provider ++ ":" ++ token)

  unfoldable pub outcome_record : Delivery → DeliveryOutcome → String → OutcomeRecord
  outcome_record d outcome reason = record {
    outcome = outcome;
    provider = d.sub.provider;
    endpoint = endpoint_digest d.sub.provider d.sub.token;
    collapse_key = d.note.collapse_key;
    device_id = field_or_empty (lookup "device_id" d.note.fields);
    place_id = field_or_empty (lookup "place_id" d.note.fields);
    transition = field_or_empty (lookup "transition" d.note.fields);
    ts = field_or_empty (lookup "ts" d.note.fields);
    reason = reason;
  }

  -- DeliveryLedger.Record appends to the log.
  abbrev pub record_outcome : Dispatcher → Delivery → DeliveryOutcome → String → Dispatcher
  record_outcome d del outcome reason = record d {
    log = append d.log (outcome_record del outcome reason ∷ []);
  }

  -- The `default` branch of Enqueue's select: the queue is full.
  refuse : Dispatcher → Delivery → Dispatcher
  refuse d del =
      record_outcome (record d { refused = d.refused + 1; ledger = take_back d.ledger del }) del
        dropped "queue full (pending cap reached)"

  unfoldable pub enqueue_one : Dispatcher → Delivery → Dispatcher
  unfolding refuse
  enqueue_one d del =
      if ltb (length d.queue) d.capacity
      then record d { queue = append d.queue (del ∷ []) }
      else refuse d del

  unfoldable pub enqueue : Dispatcher → List Delivery → Dispatcher
  enqueue d [] = d
  enqueue d (del ∷ rest) = enqueue (enqueue_one d del) rest

  -- The end of a delivery that reached no backend.
  abbrev pub give_up : Dispatcher → Delivery → String → Dispatcher
  give_up d del reason =
      record_outcome (record d { ledger = take_back d.ledger del }) del dropped reason

  -- The loop of deliver, `remaining` rounds from attempt number `attempt` on.
  unfoldable pub try_send : Sender → Delivery → ℕ → ℕ → Dispatcher → Dispatcher
  try_send send del zero attempt d = d
  try_send send del (suc remaining) attempt d =
      let again = try_send send del remaining (attempt + 1) d in
      if send del attempt
      then record_outcome d del (bound_or_default del) ""
      else if attempt == d.max_attempts
      then give_up d del "retries exhausted"
      else again

  module _ (senders : String → Option Sender) where
    unfoldable pub deliver : Dispatcher → Delivery → Dispatcher
    deliver d del = elim (senders del.sub.provider) [
      | none ↦ give_up d del "no sender configured for provider"
      | some send ↦ try_send send del d.max_attempts 1 d
    ]

    -- One round of the worker: take the oldest delivery off the channel, and deliver it.
    unfoldable pub work : Dispatcher → Dispatcher
    work d = elim d.queue [ [] ↦ d | del ∷ rest ↦ deliver (record d { queue = rest }) del ]

    -- Close: no more deliveries are offered, and the worker drains what is queued.
    unfoldable pub drain : List Delivery → Dispatcher → Dispatcher
    drain [] d = d
    drain (del ∷ rest) d = drain rest (work d)

    unfoldable pub close : Dispatcher → Dispatcher
    unfolding drain
    close d = drain d.queue d

    -- What happens to a dispatcher: its callers offer deliveries while the worker runs.
    unfoldable pub step : Dispatcher → Event → Dispatcher
    step d (offers dels) = enqueue d dels
    step d works = work d

    unfoldable pub run : Dispatcher → List Event → Dispatcher
    run d [] = d
    run d (e ∷ es) = run (step d e) es
