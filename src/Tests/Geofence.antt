-- ===== src/Tests/Geofence.antt =====
-- The properties of the geofence state machine on one commute.
use tracker.Base.{ℕ, Bool, true, false, ◌≡◌, ◌↔◌, refl, List, [], ◌∷◌, All, pos, ◌*◌, arith, ◌+ℤ◌}
use tracker.Clock.{second}
use tracker.Store.Geofence.{
  Reading, Transition, geofence_debounce, dwells, confirm_from, confirm_transitions,
}
use tracker.Store.Geofence.Alternation.{Alternates, Backed, confirm_transitions-Alternates}
use tracker.Store.Geofence.Quiet.{NoDwell, confirm_transitions-quiet_iff}
use tracker.Store.Geofence.Resume.{Ascending, after_last, confirm_from-resume}

abbrev at_second : ℕ → Bool → Reading
at_second n inside = record { ts = pos (n * second); inside = inside }

-- Outside, a blip inside, then inside for good.
abbrev commute : List Reading
commute =
    at_second 10 false
    ∷ at_second 20 true
    ∷ at_second 30 false
    ∷ at_second 40 true
    ∷ at_second 100 true
    ∷ at_second 130 true
    ∷ []

abbrev arrival : Transition
arrival = record { ts = pos (40 * second); enter = true }

commute-crossing : confirm_from geofence_debounce false false commute ≡ arrival ∷ []
unfolding confirm_from dwells ◌+ℤ◌
commute-crossing = refl

commute-Ascending : Ascending (pos 0) commute
commute-Ascending =
    (omega arith, (omega arith, (omega arith, (omega arith, (omega arith, (omega arith, tt))))))

confirm_transitions-Alternates_example :
    Alternates false (confirm_transitions commute false false geofence_debounce)
    × All
        (Backed geofence_debounce commute)
        (confirm_transitions commute false false geofence_debounce)
confirm_transitions-Alternates_example =
    confirm_transitions-Alternates commute false false geofence_debounce

confirm_transitions-quiet_iff_example :
    (confirm_transitions commute true true geofence_debounce ≡ [])
    ↔ NoDwell geofence_debounce true commute
confirm_transitions-quiet_iff_example = confirm_transitions-quiet_iff geofence_debounce true commute

confirm_from-resume_example :
    confirm_from geofence_debounce true true (after_last (pos (40 * second)) commute) ≡ []
confirm_from-resume_example =
    confirm_from-resume geofence_debounce false false (pos 0) commute [] arrival commute-Ascending
      commute-crossing
