-- ===== src/Store/Geofence.antt =====
-- internal/store/geofence.go, the debounced enter and exit state machine of the stream evaluator.
pub mod Alternation
pub mod Quiet
pub mod Resume
pub mod Evaluate
pub mod Log
use tracker.Base.{ℕ, Bool, true, false, not, List, [], ◌∷◌, pos, ◌+ℤ◌, if◌then◌else◌, ◌==◌, bool_eq}
use Prim.Native.Nat.{◌*◌}
use tracker.Clock.{Time, second, before}

-- GeofenceDebounce, in nanoseconds.
abbrev pub geofence_debounce : ℕ
geofence_debounce = 90 * second

-- One fix's containment for one Place.
pub record Reading : Type 0 where
  pub ts : Time
  pub inside : Bool

pub record Transition : Type 0 where
  pub ts : Time
  pub enter : Bool

-- The inner loop: while the readings stay in the new state, does one reach onset + debounce?
unfoldable pub dwells : Time → Bool → List Reading → Bool
dwells limit new_state [] = false
dwells limit new_state (r ∷ rest) =
    if r.inside == new_state
    then if not (before r.ts limit) then true else dwells limit new_state rest
    else false

-- The outer loop over the readings; `state` and `observed` are its variables.
unfoldable pub confirm_from : ℕ → Bool → Bool → List Reading → List Transition
confirm_from debounce state observed [] = []
confirm_from debounce state observed (r ∷ rest) =
    let witnessed = confirm_from debounce state true rest in
    let deferred = confirm_from debounce state observed rest in
    let crossed =
      record { ts = r.ts; enter = r.inside } ∷ confirm_from debounce r.inside true rest in
    if r.inside == state
    then witnessed
    else if not observed
    then deferred
    else if dwells (r.ts +ℤ pos debounce) r.inside (r ∷ rest)
    then crossed
    else deferred

unfoldable pub confirm_transitions : List Reading → Bool → Bool → ℕ → List Transition
unfolding confirm_from
confirm_transitions readings seed_inside have_seed_evidence debounce =
    confirm_from debounce seed_inside have_seed_evidence readings
