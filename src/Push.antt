-- ===== src/Push.antt =====
-- internal/push/push.go, the types: what is sent where, and what becomes of it.
pub mod Ledger
pub mod Dispatcher
pub mod Notify
pub mod Senders
use tracker.Base.{
  ◌≡◌, ◌↔◌, Bool, true, false, ◌&&◌, String, List, Option, none, some, Eq, ◌==◌, string_eq, arith,
}

-- DeliveryOutcome: three of them, and none that asserts arrival.
pub data DeliveryOutcome : Type 0 where
  handed_over beyond_collapse_bound dropped : DeliveryOutcome

pub record EndpointKey : Type 0 where
  pub provider : String
  pub token : String

abbrev endpoint_beq : EndpointKey → EndpointKey → Bool
endpoint_beq a b = a.provider == b.provider && a.token == b.token

pub endpoint_beq_iff : (a b : EndpointKey) → (endpoint_beq a b ≡ true) ↔ (a ≡ b)
endpoint_beq_iff a b =
    ground (arith, string_eq.beq_iff a.provider b.provider, string_eq.beq_iff a.token b.token)

instance abbrev pub endpoint_eq : Eq EndpointKey
endpoint_eq = record { beq = endpoint_beq; beq_iff = endpoint_beq_iff }

pub record Subscription : Type 0 where
  pub provider : String
  pub token : String

pub record Notification : Type 0 where
  pub title : String
  pub body : String
  pub collapse_key : String
  -- Data, the `map[string]string`.
  pub fields : List (String × String)

-- `none` is the zero value of Bound, the empty string.
pub record Delivery : Type 0 where
  pub sub : Subscription
  pub note : Notification
  pub bound : Option DeliveryOutcome

unfoldable pub bound_or_default : Delivery → DeliveryOutcome
bound_or_default d = elim d.bound [ none ↦ handed_over | some b ↦ b ]
