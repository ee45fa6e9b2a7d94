-- ===== src/Store/Geofence/Resume.antt =====
-- Onsets in ascending order, and evaluation again from the last crossing.
use tracker.Base.{
  pos_part, neg_part, sym, ◌∙◌, subst, ap, ℕ, Bool, true, ◌≡◌, refl, List, [], ◌∷◌, ◌++◌, keep,
  ◌<ℤ◌, ◌≤ℤ◌, arith,
}
use tracker.Clock.{Time, after}
use tracker.Store.Geofence.{Reading, Transition, confirm_from}
use tracker.Store.Geofence.Alternation.{confirm_cases}

-- Readings in strictly ascending order, all later than `floor`: the rows that the query returns.
abbrev pub Ascending : Time → List Reading → Type 0
Ascending floor [] = Unit {0}
Ascending floor (r ∷ rest) = (floor <ℤ r.ts) × Ascending r.ts rest

abbrev pub Onsets : Time → List Transition → Type 0
Onsets floor [] = Unit {0}
Onsets floor (t ∷ rest) = (floor <ℤ t.ts) × Onsets t.ts rest

Onsets-weaken : (a b : Time) (ts : List Transition) → a ≤ℤ b → Onsets b ts → Onsets a ts
Onsets-weaken a b [] h k = tt
Onsets-weaken a b (t ∷ ts) h k = (omega arith, k.1)

-- Over readings in strictly ascending order later than a floor, crossings are emitted in strictly
-- ascending order of their onsets, all later than the floor.
pub confirm_from-Onsets :
    (debounce : ℕ) (state observed : Bool) (floor : Time) (readings : List Reading)
    → Ascending floor readings
    → Onsets floor (confirm_from debounce state observed readings)
confirm_from-Onsets debounce state observed floor [] h = unfold confirm_from in tt
confirm_from-Onsets debounce state observed floor (r ∷ rest) h =
    let w = confirm_from-Onsets debounce state true r.ts rest h.1 in
    let d = confirm_from-Onsets debounce state observed r.ts rest h.1 in
    let c = confirm_from-Onsets debounce r.inside true r.ts rest h.1 in
    confirm_cases (Onsets floor) debounce state observed r rest
      (λ same. Onsets-weaken floor r.ts _ (omega arith) w)
      (λ flip held. Onsets-weaken floor r.ts _ (omega arith) d) (λ flip seen dwelt. (h.0, c))

-- The readings later than the last crossing, which the next evaluation sees.
abbrev pub after_last : Time → List Reading → List Reading
after_last floor = keep (λ r. after r.ts floor)

after_last-all :
    (t floor : Time) (readings : List Reading)
    → t ≤ℤ floor
    → Ascending floor readings
    → after_last t readings ≡ readings
after_last-all t floor [] h k = refl
after_last-all t floor (r ∷ rest) h k = ground (arith, after_last-all t r.ts rest, k)

Onsets-last :
    (floor : Time) (ts : List Transition) (t : Transition)
    → Onsets floor (ts ++ t ∷ [])
    → floor <ℤ t.ts
Onsets-last floor [] t h = h.0
Onsets-last floor (s ∷ ts) t h = let later = Onsets-last s.ts ts t h.1 in omega arith

after_last-skip :
    (t : Time) (r : Reading) (rest : List Reading)
    → r.ts ≤ℤ t
    → after_last t (r ∷ rest) ≡ after_last t rest
after_last-skip t r rest h = ground arith

-- A crossing among later readings is later.
below :
    (debounce : ℕ) (state observed : Bool) (r : Reading) (rest : List Reading)
    (ts : List Transition) (t : Transition)
    → Ascending r.ts rest
    → confirm_from debounce state observed rest ≡ ts ++ t ∷ []
    → r.ts ≤ℤ t.ts
below debounce state observed r rest ts t up e =
    let later =
      Onsets-last r.ts ts t
        (subst (Onsets r.ts) e (confirm_from-Onsets debounce state observed r.ts rest up)) in
    omega arith

-- The step past a crossing, given the claim for what follows it.
resume_crossed :
    (debounce : ℕ) (r : Reading) (rest : List Reading) (ts : List Transition) (t : Transition)
    → Ascending r.ts rest
    → ((ts' : List Transition)
        → confirm_from debounce r.inside true rest ≡ ts' ++ t ∷ []
        → confirm_from debounce t.enter true (after_last t.ts rest) ≡ [])
    → record { ts = r.ts; enter = r.inside } ∷ confirm_from debounce r.inside true rest
      ≡ ts ++ t ∷ []
    → confirm_from debounce t.enter true (after_last t.ts (r ∷ rest)) ≡ []
resume_crossed debounce r rest [] t up ih e =
    let ts_eq : r.ts ≡ t.ts = cc in
    let enter_eq : r.inside ≡ t.enter = cc in
    let done : confirm_from debounce r.inside true rest ≡ [] = cc in
    let same_ns = ap pos_part ts_eq in
    let same_ns' = ap neg_part ts_eq in
    let later : after_last t.ts (r ∷ rest) ≡ rest =
      after_last-skip t.ts r rest (omega arith) ∙ after_last-all t.ts r.ts rest (omega arith) up in
    ap (λ rs. confirm_from debounce t.enter true rs) later
    ∙ ap (λ b. confirm_from debounce b true rest) (sym enter_eq)
    ∙ done
resume_crossed debounce r rest (s ∷ ts) t up ih e =
    let tail_eq : confirm_from debounce r.inside true rest ≡ ts ++ t ∷ [] = cc in
    rw (after_last-skip t.ts r rest (below debounce r.inside true r rest ts t up tail_eq))
      (ih ts tail_eq)

-- Over readings in strictly ascending order, once the crossings of an evaluation are recorded, an
-- evaluation of the readings later than the last of them, seeded with its direction, emits
-- nothing more.
pub confirm_from-resume :
    (debounce : ℕ) (state observed : Bool) (floor : Time) (readings : List Reading)
    (ts : List Transition) (t : Transition)
    → Ascending floor readings
    → confirm_from debounce state observed readings ≡ ts ++ t ∷ []
    → confirm_from debounce t.enter true (after_last t.ts readings) ≡ []
confirm_from-resume debounce state observed floor [] ts t h e = unfold confirm_from in refl
confirm_from-resume debounce state observed floor (r ∷ rest) ts t h e =
    let w = confirm_from-resume debounce state true r.ts rest ts t h.1 in
    let d = confirm_from-resume debounce state observed r.ts rest ts t h.1 in
    let c =
      λ (ts' : List Transition). confirm_from-resume debounce r.inside true r.ts rest ts' t h.1 in
    confirm_cases
      (λ out.
        out ≡ ts ++ t ∷ [] → confirm_from debounce t.enter true (after_last t.ts (r ∷ rest)) ≡ [])
      debounce state observed r rest
      (λ same out.
        rw (after_last-skip t.ts r rest (below debounce state true r rest ts t h.1 out)) (w out))
      (λ flip held out.
        rw (after_last-skip t.ts r rest (below debounce state observed r rest ts t h.1 out))
          (d out))
      (λ flip seen dwelt out. resume_crossed debounce r rest ts t h.1 c out) e
