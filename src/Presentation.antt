-- ===== src/Presentation.antt =====
-- internal/presentation/presentation.go: the one word that every surface publishes for a device.
pub mod Age
pub mod States
pub mod Sweep
use tracker.Base.{
  ℕ, suc, ◌+◌, ◌-◌, ◌*◌, ◌/◌, ◌≤◌, ◌<◌, ◌≡◌, refl, Bool, true, false, Option, none, some, List, [],
  ◌∷◌, ltb, leb, if◌then◌else◌, ℤ, pos, negsuc, pos_part, neg_part, ◌-ℤ◌, ltb_ℤ, leb_ℤ, int64, quot,
  Eq, ◌==◌, ◌↔◌, arith,
}
use tracker.Clock.{Time, unix, nanosecond}

pub data Value : Type 0 where
  no_position live recent stale : Value

pub Value-discrete : Discrete Value
Value-discrete = hlevel

-- `Values`, the vocabulary in precedence order.
abbrev pub values : List Value
values = no_position ∷ live ∷ recent ∷ stale ∷ []

abbrev pub value_beq : Value → Value → Bool
value_beq no_position no_position = true
value_beq live live = true
value_beq recent recent = true
value_beq stale stale = true
value_beq _ _ = false

pub value_beq_iff : (a b : Value) → (value_beq a b ≡ true) ↔ (a ≡ b)
value_beq_iff a b = ground arith

instance abbrev pub value_eq : Eq Value
value_eq = record { beq = value_beq; beq_iff = value_beq_iff }

known_among : Value → List Value → Bool
known_among v [] = false
known_among v (known ∷ rest) = if v == known then true else known_among v rest

valid : Value → Bool
unfolding known_among
valid v = known_among v values

-- The operator's pair, in seconds (int64).
pub record Windows : Type 0 where
  pub live_seconds : ℤ
  pub stale_seconds : ℤ

unfoldable pub age_seconds : Time → Time → ℤ
age_seconds evaluation_instant last_contact =
    let secs = int64 (unix evaluation_instant -ℤ unix last_contact) in
    let secs' =
      if ltb (nanosecond evaluation_instant) (nanosecond last_contact)
      then int64 (secs -ℤ pos 1)
      else secs in
    if ltb_ℤ secs' (pos 0) then pos 0 else secs'

unfoldable pub evaluate : Time → Option Time → Windows → Value
evaluate evaluation_instant none w = no_position
evaluate evaluation_instant (some last_contact) w =
    let age = age_seconds evaluation_instant last_contact in
    if leb_ℤ age w.live_seconds then live else if leb_ℤ age w.stale_seconds then recent else stale

unfoldable pub sweep_bound : Windows → ℤ
sweep_bound w =
    let band = int64 (w.stale_seconds -ℤ w.live_seconds) in
    let smaller = if ltb_ℤ band w.live_seconds then band else w.live_seconds in
    let b = quot smaller 2 in if ltb_ℤ (pos 1) b then b else pos 1
