-- ===== src/Push/Ledger.antt =====
-- internal/push/ledger.go: the collapse keys pending at each endpoint. The mutex makes each method
-- one step. `map[endpointKey]map[string]int` is a dictionary of dictionaries; the inner map that
-- Classify holds is the one that `pending` holds, unless the eviction has just dropped it.
pub mod Order
pub mod Invariant
pub mod Classify
pub mod Growth
pub mod Book
use tracker.Base.{
  ℕ, suc, ◌+◌, ◌-◌, ◌≤◌, ◌<◌, ◌≡◌, Bool, true, false, String, Option, none, some, List, [], ◌∷◌,
  ◌++◌, ltb, leb, if◌then◌else◌, length, erase, string_eq, arith,
}
use tracker.Base.Dict.{lookup, insert, delete}
use tracker.Push.{EndpointKey, endpoint_eq, DeliveryOutcome, handed_over, beyond_collapse_bound}

-- CollapseKeyBound.
abbrev pub collapse_key_bound : ℕ
collapse_key_bound = 4

-- maxTrackedEndpoints.
abbrev pub max_tracked_endpoints : ℕ
max_tracked_endpoints = 4096

abbrev pub Keys : Type 0
Keys = List (String × ℕ)

pub record Ledger : Type 0 where
  pub pending : List (EndpointKey × Keys)
  pub order : List EndpointKey

-- NewDeliveryLedger, and Reset.
abbrev pub new_ledger : Ledger
new_ledger = record { pending = []; order = [] }

-- The loop of evictLocked, under any bound.
unfoldable pub evict : ℕ → List EndpointKey → List (EndpointKey × Keys) → Ledger
evict cap [] pending = record { pending = pending; order = [] }
evict cap (oldest ∷ rest) pending =
    if ltb cap (length (oldest ∷ rest))
    then evict cap rest (delete oldest pending)
    else record { pending = pending; order = oldest ∷ rest }

evict_locked : Ledger → Ledger
evict_locked l = evict max_tracked_endpoints l.order l.pending

-- `keys` where the endpoint is tracked, a fresh map where it is not.
abbrev pub keys_or_new : Option Keys → Keys
keys_or_new none = []
keys_or_new (some keys) = keys

abbrev pub count_or_zero : Option ℕ → ℕ
count_or_zero none = 0
count_or_zero (some n) = n

-- The first part of Classify: start to track an endpoint that is not tracked.
unfoldable pub track : Ledger → EndpointKey → Ledger
unfolding evict_locked
track l e = elim (lookup e l.pending) [
  | none ↦ evict_locked (record { pending = insert e [] l.pending; order = l.order ++ e ∷ [] })
  | some keys ↦ l
]

-- A write to the inner map of an endpoint is seen in `pending` if the endpoint is still there.
unfoldable pub write_keys : Ledger → EndpointKey → Keys → Ledger
write_keys l e keys = elim (lookup e l.pending) [
  | none ↦ l
  | some _ ↦ record l { pending = insert e keys l.pending }
]

unfoldable pub classify : Ledger → EndpointKey → String → Ledger × DeliveryOutcome
classify l e collapse_key =
    let keys = keys_or_new (lookup e l.pending) in
    let l' = track l e in
    if leb collapse_key_bound (length keys) then (l', beyond_collapse_bound) else (
      write_keys l' e (insert collapse_key (count_or_zero (lookup collapse_key keys) + 1) keys),
      handed_over,
    )

unfoldable pub not_handed_over : Ledger → EndpointKey → String → Ledger
not_handed_over l e collapse_key = elim (lookup e l.pending) [
  | none ↦ l
  | some keys ↦ elim (lookup collapse_key keys) [
    | none ↦ l
    | some n ↦
        if leb n 1
        then record l { pending = insert e (delete collapse_key keys) l.pending }
        else record l { pending = insert e (insert collapse_key (n - 1) keys) l.pending }
  ]
]

unfoldable pub forget : Ledger → EndpointKey → Ledger
forget l e = elim (lookup e l.pending) [
  | none ↦ l
  | some _ ↦ record { pending = delete e l.pending; order = erase e l.order }
]

pub endpoint_registered : Ledger → String → String → Ledger
unfolding forget
endpoint_registered l provider token = forget l (record { provider = provider; token = token })

pub endpoint_removed : Ledger → String → String → Ledger
unfolding forget
endpoint_removed l provider token = forget l (record { provider = provider; token = token })

-- PendingKeys; a missing endpoint has the length 0 of a nil map.
unfoldable pub pending_keys : Ledger → EndpointKey → ℕ
pending_keys l e = length (keys_or_new (lookup e l.pending))

unfoldable pub pending_count : Ledger → EndpointKey → String → ℕ
pending_count l e k = count_or_zero (lookup k (keys_or_new (lookup e l.pending)))

-- The calls that the dispatcher, the notifier and the registration route make.
pub data Call : Type 0 where
  classifies takes_back : EndpointKey → String → Call
  registers removes : String → String → Call
  resets : Call

unfoldable pub step : Ledger → Call → Ledger
step l (classifies e k) = (classify l e k).0
step l (takes_back e k) = not_handed_over l e k
step l (registers p t) = endpoint_registered l p t
step l (removes p t) = endpoint_removed l p t
step l resets = new_ledger

unfoldable pub run : Ledger → List Call → Ledger
run l [] = l
run l (c ∷ cs) = run (step l c) cs
