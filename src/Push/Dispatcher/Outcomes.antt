-- ===== src/Push/Dispatcher/Outcomes.antt =====
-- What the dispatcher records of a delivery, and that every delivery is accounted for.
use Prim.Native.String.{◌++◌}
use tracker.Base.{
  ℕ, zero, suc, ◌+◌, ◌≤◌, ◌<◌, ◌≡◌, refl, true, false, String, Option, none, some, List, [], ◌∷◌,
  ◌++◌ as append, ◌-◌, ◌&&◌, if◌then◌else◌, string_eq, length, length-append, ◌==◌, nat_eq,
  Bool-cases, inl, inr, Option-cases, arith,
}
use tracker.Base.Dict.{lookup}
use tracker.Push.{
  Delivery, DeliveryOutcome, handed_over, beyond_collapse_bound, dropped, EndpointKey, endpoint_eq,
  bound_or_default,
}
use tracker.Push.Ledger.{Ledger, pending_count}
use tracker.Push.Ledger.Classify.{not_handed_over-counts}
use tracker.Push.Dispatcher.{
  OutcomeRecord, Dispatcher, Sender, endpoint_of, endpoint_digest, take_back, outcome_record,
  record_outcome, give_up, try_send, deliver,
}

-- The two ways to reach no backend.
abbrev pub drop_reason : Option Sender → String
drop_reason none = "no sender configured for provider"
drop_reason (some send) = "retries exhausted"

-- A hand-over that was counted when the delivery was queued.
abbrev charged : Option DeliveryOutcome → ℕ
charged none = 1
charged (some handed_over) = 1
charged (some beyond_collapse_bound) = 0
charged (some dropped) = 0

-- What taking a delivery back owes to a key of an endpoint.
abbrev pub owed_to : EndpointKey → String → Delivery → ℕ
owed_to i j del =
    if del.sub.provider == i.provider && del.sub.token == i.token && del.note.collapse_key == j
    then charged del.bound
    else 0

abbrev text_or_empty : Option String → String
text_or_empty none = ""
text_or_empty (some s) = s

-- The record of a delivery that is dropped, field by field.
abbrev pub dropped_record : (String → String) → Delivery → String → OutcomeRecord
dropped_record digest del reason = record {
  outcome = dropped;
  provider = del.sub.provider;
  endpoint = if del.sub.token == "" then "" else digest (del.sub.provider ++ ":" ++ del.sub.token);
  collapse_key = del.note.collapse_key;
  device_id = text_or_empty (lookup "device_id" del.note.fields);
  place_id = text_or_empty (lookup "place_id" del.note.fields);
  transition = text_or_empty (lookup "transition" del.note.fields);
  ts = text_or_empty (lookup "ts" del.note.fields);
  reason = reason;
}

-- One more outcome is recorded, and the queue is left alone.
abbrev pub Recorded : Dispatcher → Dispatcher → Type 0
Recorded d d' =
    (length d'.log ≡ length d.log + 1)
    × (d'.queue ≡ d.queue)
    × (d'.capacity ≡ d.capacity)
    × (d'.max_attempts ≡ d.max_attempts)

pub one_more :
    (log : List OutcomeRecord) (r : OutcomeRecord) → length (append log (r ∷ [])) ≡ length log + 1
one_more log r = length-append log (r ∷ [])

take_back-counts :
    (l : Ledger) (del : Delivery) (i : EndpointKey) (j : String)
    → pending_count (take_back l del) i j ≡ pending_count l i j - owed_to i j del
unfolding take_back bound_or_default
take_back-counts l del i j =
    ground (arith, not_handed_over-counts l (endpoint_of del) i del.note.collapse_key j)

module _ (digest : String → String) where
  outcome_record-dropped :
      (del : Delivery) (reason : String)
      → outcome_record digest del dropped reason ≡ dropped_record digest del reason
  unfolding outcome_record endpoint_digest
  outcome_record-dropped del reason = refl

  try_send-accepted :
      (send : Sender) (del : Delivery) (remaining attempt : ℕ) (d : Dispatcher) (i : ℕ)
      → attempt + remaining ≡ d.max_attempts + 1
      → attempt ≤ i
      → i ≤ d.max_attempts
      → send del i ≡ true
      → try_send digest send del remaining attempt d
        ≡ record_outcome digest d del (bound_or_default del) ""
  unfolding try_send
  try_send-accepted send del zero attempt d i e lo hi ok = absurd (omega arith)
  try_send-accepted send del (suc remaining) attempt d i e lo hi ok =
      elim (Bool-cases (send del attempt)) [
        | inl yes' ↦ rw yes'
        | inr failed ↦ elim (Bool-cases (attempt == i)) [
          | inl same ↦ absurd (ground arith)
          | inr later ↦
              ground (arith, failed, try_send-accepted send del remaining (attempt + 1) d i)
        ]
      ]

  try_send-exhausted :
      (send : Sender) (del : Delivery) (remaining attempt : ℕ) (d : Dispatcher)
      → attempt + remaining ≡ d.max_attempts + 1
      → 0 < remaining
      → ((i : ℕ) → attempt ≤ i → i ≤ d.max_attempts → send del i ≡ false)
      → try_send digest send del remaining attempt d ≡ give_up digest d del "retries exhausted"
  unfolding try_send
  try_send-exhausted send del zero attempt d e pos fails = absurd (omega arith)
  try_send-exhausted send del (suc zero) attempt d e pos fails =
      let f = fails attempt (omega arith) (omega arith) in ground arith
  try_send-exhausted send del (suc (suc remaining)) attempt d e pos fails =
      let f = fails attempt (omega arith) (omega arith) in
      let later =
        try_send-exhausted send del (suc remaining) (attempt + 1) d (omega arith) (omega arith)
          (λ i lo hi. fails i (omega arith) hi) in
      ground arith

  try_send-Recorded :
      (send : Sender) (del : Delivery) (remaining attempt : ℕ) (d : Dispatcher)
      → attempt + remaining ≡ d.max_attempts + 1
      → 0 < remaining
      → Recorded d (try_send digest send del remaining attempt d)
  unfolding try_send
  try_send-Recorded send del zero attempt d e pos = absurd (omega arith)
  try_send-Recorded send del (suc zero) attempt d e pos = ground (
    arith,
    one_more d.log (outcome_record digest del (bound_or_default del) ""),
    one_more d.log (outcome_record digest del dropped "retries exhausted"),
  )
  try_send-Recorded send del (suc (suc remaining)) attempt d e pos =
      let later =
        try_send-Recorded send del (suc remaining) (attempt + 1) d (omega arith) (omega arith) in
      ground (arith, later, one_more d.log (outcome_record digest del (bound_or_default del) ""))

  module _ (senders : String → Option Sender) where
    -- If the provider has a sender whose backend accepts one of the attempts that the dispatcher
    -- may make, then the delivery is recorded with the classification that it was queued with,
    -- and nothing else changes.
    pub deliver-accepted :
        (d : Dispatcher) (del : Delivery) {send : Sender} (i : ℕ)
        → senders del.sub.provider ≡ some send
        → 1 ≤ i
        → i ≤ d.max_attempts
        → send del i ≡ true
        → deliver digest senders d del ≡ record d {
          log = append d.log (outcome_record digest del (bound_or_default del) "" ∷ []);
        }
    unfolding deliver
    deliver-accepted d del {send} i found lo hi ok =
        rw (found, deliver) (try_send-accepted send del d.max_attempts 1 d i (omega arith) lo hi ok)

    deliver-given_up :
        (d : Dispatcher) (del : Delivery)
        → 1 ≤ d.max_attempts
        → ((send : Sender) (i : ℕ)
            → senders del.sub.provider ≡ some send
            → 1 ≤ i
            → i ≤ d.max_attempts
            → send del i ≡ false)
        → deliver digest senders d del
          ≡ give_up digest d del (drop_reason (senders del.sub.provider))
    unfolding deliver
    deliver-given_up d del pos fails = elim (Option-cases (senders del.sub.provider)) [
      | inl missing ↦ rw (missing, deliver)
      | inr (send, found) ↦
          rw (found, deliver)
            (try_send-exhausted send del d.max_attempts 1 d (omega arith) pos
              (λ i lo hi. fails send i found lo hi))
    ]

    -- With at least one attempt to make, if the provider has no sender, or its backend refuses
    -- every attempt, then one record is added to the log, of the delivery's endpoint, key and
    -- fields, with the outcome dropped and the reason, and the pending count of its key at its
    -- endpoint is one less, or zero, if it was queued as a hand-over; every other count, the
    -- queue and the rest of the dispatcher stay as they were.
    pub deliver-dropped :
        (d : Dispatcher) (del : Delivery)
        → 1 ≤ d.max_attempts
        → ((send : Sender) (i : ℕ)
            → senders del.sub.provider ≡ some send
            → 1 ≤ i
            → i ≤ d.max_attempts
            → send del i ≡ false)
        → let d' = deliver digest senders d del in
          (d' ≡ record d {
            ledger = d'.ledger;
            log =
                append d.log
                  (dropped_record digest del (drop_reason (senders del.sub.provider)) ∷ []);
          })
          × ((i : EndpointKey) (j : String)
              → pending_count d'.ledger i j ≡ pending_count d.ledger i j - owed_to i j del)
    deliver-dropped d del pos fails =
        rw (deliver-given_up d del pos fails, outcome_record-dropped)
          (refl, take_back-counts d.ledger del)

    pub deliver-Recorded :
        (d : Dispatcher) (del : Delivery)
        → 1 ≤ d.max_attempts
        → Recorded d (deliver digest senders d del)
    unfolding deliver
    deliver-Recorded d del pos = elim (Option-cases (senders del.sub.provider)) [
      | inl missing ↦ rw (missing, deliver) (one_more d.log _, refl, refl, refl)
      | inr (send, found) ↦
          rw (found, deliver) (try_send-Recorded send del d.max_attempts 1 d (omega arith) pos)
    ]
