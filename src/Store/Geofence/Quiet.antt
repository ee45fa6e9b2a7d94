-- ===== src/Store/Geofence/Quiet.antt =====
-- When the state machine is silent: jitter, pending onsets and a device first seen inside.
use tracker.Base.{
  ap, inl, inr, ◌↔◌, ◌⊎◌, ℕ, Bool, true, false, not, ◌≡◌, refl, List, [], ◌∷◌, All, pos, ◌+ℤ◌,
  bool_eq, arith, sym, ◌∙◌,
}
use tracker.Store.Geofence.{Reading, dwells, confirm_from, confirm_transitions}
use tracker.Store.Geofence.Alternation.{Stays, dwells_iff, confirm_cases}

-- No reading starts a stay out of `state` that lasts for the debounce.
abbrev pub NoDwell : ℕ → Bool → List Reading → Type 0
NoDwell debounce state [] = Unit {0}
NoDwell debounce state (r ∷ rest) =
    ((r.inside ≡ state) ⊎ (¬ Stays (r.ts +ℤ pos debounce) (not state) (r ∷ rest)))
    × NoDwell debounce state rest

quiet-if :
    (debounce : ℕ) (state observed : Bool) (readings : List Reading)
    → NoDwell debounce state readings
    → confirm_from debounce state observed readings ≡ []
unfolding confirm_from
quiet-if debounce state observed [] h = refl
quiet-if debounce state observed (r ∷ rest) h =
    confirm_cases (λ ts. ts ≡ []) debounce state observed r rest
      (λ same. quiet-if debounce state true rest h.1)
      (λ flip held. quiet-if debounce state observed rest h.1)
      (λ flip seen dwelt. absurd (contradict flip dwelt h.0))
  where
    contradict :
        r.inside ≡ not state
        → dwells (r.ts +ℤ pos debounce) r.inside (r ∷ rest) ≡ true
        → ((r.inside ≡ state) ⊎ (¬ Stays (r.ts +ℤ pos debounce) (not state) (r ∷ rest)))
        → ⊥
    contradict flip dwelt (inl same) = ground arith
    contradict flip dwelt (inr brief) = brief (
        (dwells_iff _ (not state) (r ∷ rest)).0
          (ap (λ b. dwells (r.ts +ℤ pos debounce) b (r ∷ rest)) (sym flip) ∙ dwelt))

quiet-only :
    (debounce : ℕ) (state : Bool) (readings : List Reading)
    → confirm_from debounce state true readings ≡ []
    → NoDwell debounce state readings
quiet-only debounce state [] h = tt
quiet-only debounce state (r ∷ rest) h =
    let ih = quiet-only debounce state rest in
    confirm_cases (λ ts. ts ≡ [] → NoDwell debounce state (r ∷ rest)) debounce state true r rest
      (λ same e. (inl same, ih e)) (λ flip held e. (inr (λ stays. jitter flip held stays), ih e))
      (λ flip seen dwelt e. cc) h
  where
    jitter :
        r.inside ≡ not state
        → (true ≡ false) ⊎ (dwells (r.ts +ℤ pos debounce) r.inside (r ∷ rest) ≡ false)
        → Stays (r.ts +ℤ pos debounce) (not state) (r ∷ rest)
        → ⊥
    jitter flip (inl absent) stays = cc
    jitter flip (inr short) stays =
        let dwelt = (dwells_iff _ (not state) (r ∷ rest)).1 stays in
        cc (ap (λ b. dwells (r.ts +ℤ pos debounce) b (r ∷ rest)) flip)

-- From a state that a recorded event witnesses, nothing is emitted exactly if no reading starts a
-- stay out of that state that lasts for the debounce: jitter and pending onsets emit nothing, and
-- where a dwell starts something is emitted.
pub confirm_transitions-quiet_iff :
    (debounce : ℕ) (state : Bool) (readings : List Reading)
    → (confirm_transitions readings state true debounce ≡ []) ↔ NoDwell debounce state readings
unfolding confirm_transitions
confirm_transitions-quiet_iff debounce state readings =
    (quiet-only debounce state readings, quiet-if debounce state true readings)

-- A device with no recorded event, of which every reading is inside, gets no enter: the state
-- that it would cross from was never seen.
pub confirm_transitions-unseen :
    (debounce : ℕ) (readings : List Reading)
    → All (λ r. r.inside ≡ true) readings
    → confirm_transitions readings false false debounce ≡ []
unfolding confirm_transitions
confirm_transitions-unseen debounce [] h = unfold confirm_from in refl
confirm_transitions-unseen debounce (r ∷ rest) h =
    confirm_cases (λ ts. ts ≡ []) debounce false false r rest (λ same. ground arith)
      (λ flip held. confirm_transitions-unseen debounce rest h.1) (λ flip seen dwelt. cc)
