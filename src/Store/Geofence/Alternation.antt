-- ===== src/Store/Geofence/Alternation.antt =====
-- What the state machine emits: crossings that alternate, each at a reading that was seen to dwell.
use tracker.Base.{
  ap, inl, inr, ◌↔◌, Bool-cases, ◌⊎◌, ℕ, Bool, true, false, not, ◌≡◌, refl, List, [], ◌∷◌, All, pos,
  ◌+ℤ◌, ◌≤ℤ◌, ◌==◌, bool_eq, arith,
}
use tracker.Clock.{Time}
use tracker.Store.Geofence.{Reading, Transition, dwells, confirm_from, confirm_transitions}

-- The three ways that one reading is taken.
pub confirm_cases {ℓ} :
    (P : List Transition → Type ℓ) (debounce : ℕ) (state observed : Bool) (r : Reading)
    (rest : List Reading)
    → (r.inside ≡ state → P (confirm_from debounce state true rest))
    → (r.inside ≡ not state
        → (observed ≡ false) ⊎ (dwells (r.ts +ℤ pos debounce) r.inside (r ∷ rest) ≡ false)
        → P (confirm_from debounce state observed rest))
    → (r.inside ≡ not state
        → observed ≡ true
        → dwells (r.ts +ℤ pos debounce) r.inside (r ∷ rest) ≡ true
        → P (record { ts = r.ts; enter = r.inside } ∷ confirm_from debounce r.inside true rest))
    → P (confirm_from debounce state observed (r ∷ rest))
unfolding confirm_from
confirm_cases P debounce state observed r rest witnessed deferred crossed =
    elim (Bool-cases (r.inside == state)) [
      | inl same ↦ rw same (witnessed ((bool_eq.beq_iff _ _).0 same))
      | inr flip ↦
          let other : r.inside ≡ not state = ground arith in
          elim (Bool-cases observed) [
            | inr never ↦ rw (flip, ap not never) (deferred other (inl never))
            | inl seen ↦ elim (Bool-cases (dwells (r.ts +ℤ pos debounce) r.inside (r ∷ rest))) [
              | inl dwelt ↦ rw (flip, ap not seen, dwelt) (crossed other seen dwelt)
              | inr jitter ↦ rw (flip, ap not seen, jitter) (deferred other (inr jitter))
            ]
          ]
    ]

-- Each crossing leaves the state that the one before it entered.
abbrev pub Alternates : Bool → List Transition → Type 0
Alternates state [] = Unit {0}
Alternates state (t ∷ rest) = (t.enter ≡ not state) × Alternates t.enter rest

confirm_from-Alternates :
    (debounce : ℕ) (state observed : Bool) (readings : List Reading)
    → Alternates state (confirm_from debounce state observed readings)
unfolding confirm_from
confirm_from-Alternates debounce state observed [] = tt
confirm_from-Alternates debounce state observed (r ∷ rest) = ground (
  arith,
  confirm_from-Alternates debounce state true rest,
  confirm_from-Alternates debounce state observed rest,
  confirm_from-Alternates debounce r.inside true rest,
)

-- From the head on, the readings stay in one state until one at or past the limit.
abbrev pub Stays : Time → Bool → List Reading → Type 0
Stays limit state [] = ⊥
Stays limit state (r ∷ rest) = (r.inside ≡ state) × ((limit ≤ℤ r.ts) ⊎ Stays limit state rest)

pub dwells_iff :
    (limit : Time) (state : Bool) (readings : List Reading)
    → (dwells limit state readings ≡ true) ↔ Stays limit state readings
unfolding dwells
dwells_iff limit state [] = (λ h. cc, λ h. absurd h)
dwells_iff limit state (r ∷ rest) = (
  λ h. ground (arith, dwells_iff limit state rest),
  λ h. ground (arith, dwells_iff limit state rest),
)

-- A crossing is backed by a reading with its instant and direction from which the device stays in
-- the new state for the debounce.
abbrev pub Backed : ℕ → List Reading → Transition → Type 0
Backed debounce [] t = ⊥
Backed debounce (r ∷ rest) t =
    ((r.ts ≡ t.ts) × (r.inside ≡ t.enter) × Stays (r.ts +ℤ pos debounce) t.enter (r ∷ rest))
    ⊎ Backed debounce rest t

later-Backed :
    (debounce : ℕ) (r : Reading) (rest : List Reading) (ts : List Transition)
    → All (Backed debounce rest) ts
    → All (Backed debounce (r ∷ rest)) ts
later-Backed debounce r rest [] h = tt
later-Backed debounce r rest (t ∷ ts) h = (inr h.0, later-Backed debounce r rest ts h.1)

confirm_from-Backed :
    (debounce : ℕ) (state observed : Bool) (readings : List Reading)
    → All (Backed debounce readings) (confirm_from debounce state observed readings)
unfolding confirm_from
confirm_from-Backed debounce state observed [] = tt
confirm_from-Backed debounce state observed (r ∷ rest) =
    let witnessed =
      later-Backed debounce r rest (confirm_from debounce state true rest)
        (confirm_from-Backed debounce state true rest) in
    let deferred =
      later-Backed debounce r rest (confirm_from debounce state observed rest)
        (confirm_from-Backed debounce state observed rest) in
    let crossed =
      later-Backed debounce r rest (confirm_from debounce r.inside true rest)
        (confirm_from-Backed debounce r.inside true rest) in
    confirm_cases (λ ts. All (Backed debounce (r ∷ rest)) ts) debounce state observed r rest
      (λ same. witnessed) (λ flip held. deferred)
      (λ flip seen dwelt. (inl (refl, refl, (dwells_iff _ r.inside (r ∷ rest)).0 dwelt), crossed))

-- The state machine emits crossings that alternate, the first out of the state that it was seeded
-- with, and each at a reading with its instant and direction from which the readings stay in the
-- new state until one at least the debounce later.
pub confirm_transitions-Alternates :
    (readings : List Reading) (seed_inside have_seed_evidence : Bool) (debounce : ℕ)
    → let ts = confirm_transitions readings seed_inside have_seed_evidence debounce in
      Alternates seed_inside ts × All (Backed debounce readings) ts
unfolding confirm_transitions
confirm_transitions-Alternates readings seed_inside have_seed_evidence debounce = (
  confirm_from-Alternates debounce seed_inside have_seed_evidence readings,
  confirm_from-Backed debounce seed_inside have_seed_evidence readings,
)
