-- ===== src/Tests/Places.antt =====
-- The properties of the Places: a triangle, and three commands of an operator.
use tracker.Base.{
  ℕ, ◌≡◌, refl, Bool, true, false, String, Option, some, List, [], ◌∷◌, ℤ, pos, ltb_ℤ, string_eq,
  int_eq, contains, nat_eq,
}
use tracker.Store.Ingest.{Floats, validate_lon_lat}
use tracker.Store.Places.{
  Point, PlaceRow, drawn, draw, corners, open_ring, closed_ring, bad_point_of, point_eq,
}
use tracker.Store.Places.Owned.{
  creates, updates, deletes, Command, commands, others, commands-others,
}

-- Whole numbers in place of floats.
abbrev floats : Floats ℤ
floats = record { is_nan = λ x. false; is_inf = λ x. false; less = ltb_ℤ; whole = λ n. n }

abbrev corner : ℕ → ℕ → Point ℤ
corner x y = record { lon = pos x; lat = pos y }

abbrev triangle : List (Point ℤ)
triangle = corner 0 0 ∷ corner 4 0 ∷ corner 0 3 ∷ []

abbrev closed_triangle : List (Point ℤ)
closed_triangle = corner 0 0 ∷ corner 4 0 ∷ corner 0 3 ∷ corner 0 0 ∷ []

draws : draw floats triangle ≡ drawn closed_triangle
unfolding draw bad_point_of validate_lon_lat corners open_ring closed_ring contains
draws = refl

abbrev render : ℤ → String
render x = "0"

abbrev valid : String → Option Bool
valid area = some true

abbrev elsewhere : List PlaceRow
elsewhere = record { id = "p9"; family_id = "g"; name = "Work"; area = "a" } ∷ []

abbrev operator : List ((String → Option Bool) × Bool × Command floats render)
operator =
    (valid, true, creates "p1" "Home" triangle)
    ∷ (valid, true, updates "p9" "Ours" triangle)
    ∷ (valid, true, deletes "p9")
    ∷ []

commands-others_example :
    others "f" (commands floats render "f" elsewhere operator) ≡ others "f" elsewhere
commands-others_example = commands-others floats render "f" elsewhere operator
