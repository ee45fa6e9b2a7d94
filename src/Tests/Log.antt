-- ===== src/Tests/Log.antt =====
-- The properties of the log of crossings, for one phone at one Place.
use tracker.Base.{
  ℕ, Bool, true, false, ◌≡◌, refl, String, List, [], ◌∷◌, ◌++◌, map, pos, ◌*◌, ◌==◌, string_eq,
  ◌+ℤ◌,
}
use tracker.Base.Sort.{slice_stable, insert_stable}
use tracker.Clock.{Time, second}
use tracker.Store.Geofence.{geofence_debounce, confirm_transitions, confirm_from, dwells}
use tracker.Store.Geofence.Evaluate.{
  FixRow, Place, Query, appends, evaluate_one_geofence, evaluate_device_geofences, last_event,
  recorded, append_transitions, neighbourhood, evaluate_places,
}
use tracker.Store.Geofence.Log.{
  Keyed, to_row, evaluate_device_geofences-Keyed, evaluate_device_geofences-evaluate_one_geofence,
}

-- A location is whether it is at home.
abbrev covers : String → Bool → Bool
covers place location = location

abbrev always : Query → Bool
always q = true

-- The database refuses exits.
abbrev no_exits : Query → Bool
no_exits (appends e) = e.transition == "enter"
no_exits _ = true

abbrev fix_at : ℕ → Bool → FixRow Bool
fix_at n home = record { device_id = "a"; ts = pos (n * second); location = home }

-- Home from 100 to 300 seconds, and away again.
abbrev fixes : List (FixRow Bool)
fixes =
    fix_at 10 false ∷ fix_at 100 true ∷ fix_at 200 true ∷ fix_at 300 false ∷ fix_at 400 false ∷ []

abbrev home : Place
home = record { id = "h"; name = "Home" }

abbrev around : Time
around = pos (400 * second)

both-complete :
    (evaluate_device_geofences covers always geofence_debounce fixes [] "a"
      (home ∷ [])
      around).complete
    ≡ true
unfolding evaluate_device_geofences evaluate_places evaluate_one_geofence append_transitions
    neighbourhood last_event recorded confirm_transitions confirm_from dwells slice_stable
    insert_stable ◌+ℤ◌
both-complete = refl

evaluate_device_geofences-Keyed_example :
    Keyed
      (evaluate_device_geofences covers always geofence_debounce fixes [] "a"
        (home ∷ [])
        around).events
evaluate_device_geofences-Keyed_example =
    evaluate_device_geofences-Keyed covers always geofence_debounce fixes "a" around [] (home ∷ [])
      tt

exit-failed :
    (evaluate_one_geofence covers no_exits geofence_debounce fixes [] "a" home around).complete
    ≡ false
unfolding evaluate_one_geofence append_transitions neighbourhood last_event recorded
    confirm_transitions confirm_from dwells slice_stable insert_stable ◌+ℤ◌
exit-failed = refl

-- The enter is in the log and is not returned.
evaluate_device_geofences-evaluate_one_geofence_example :
    let one = evaluate_one_geofence covers no_exits geofence_debounce fixes [] "a" home around in
    let e =
      evaluate_device_geofences covers no_exits geofence_debounce fixes [] "a" (home ∷ []) around in
    (e.events ≡ [] ++ map to_row one.appended) × (e.appended ≡ [])
evaluate_device_geofences-evaluate_one_geofence_example =
    evaluate_device_geofences-evaluate_one_geofence covers no_exits geofence_debounce fixes "a"
      around [] home [] refl exit-failed
