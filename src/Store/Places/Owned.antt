-- ===== src/Store/Places/Owned.antt =====
-- internal/store/geofence.go and entities.go: a change to a family's Places leaves the others alone.
use tracker.Base.{
  ◌≡◌, arith, refl, Bool, ◌&&◌, not, Option, List, [], ◌∷◌, keep, ◌==◌, string_eq, String, Eq, inl,
  inr, ◌∙◌, ◌⊎◌,
}
use tracker.Store.Ingest.{Floats}
use tracker.Store.Places.{
  Point, RingError, PlaceRow, set_place, create_geofence, update_geofence, delete_geofence,
  render_ring, draw, Drawn, drawn, not_drawn,
}

-- The Places of the other families.
abbrev pub others : String → List PlaceRow → List PlaceRow
others family_id places = keep (λ p. not (p.family_id == family_id)) places

others-keep :
    (family_id id : String) (places : List PlaceRow)
    → others family_id (keep (λ p. not (p.id == id && p.family_id == family_id)) places)
      ≡ others family_id places
others-keep family_id id [] = refl
others-keep family_id id (p ∷ places) = ground (arith, others-keep family_id id places)

set_place-others :
    (family_id id name area : String) (places : List PlaceRow)
    → others family_id (set_place family_id id name area places) ≡ others family_id places
unfolding set_place
set_place-others family_id id name area [] = refl
set_place-others family_id id name area (p ∷ places) =
    ground (arith, set_place-others family_id id name area places)

Drawn-cases :
    {F : Type 0} (d : Drawn F)
    → ((e : RingError) × (d ≡ not_drawn e)) ⊎ ((closed : List (Point F)) × (d ≡ drawn closed))
Drawn-cases (not_drawn e) = inl (e, refl)
Drawn-cases (drawn closed) = inr (closed, refl)

module _ {F : Type 0} ⦃same : Eq F⦄ (floats : Floats F) (format_float : F → String) where
  create_geofence-others :
      (valid : String → Option Bool) (answered : Bool) (new_id : String) (places : List PlaceRow)
      (family_id name : String) (ring : List (Point F))
      → others family_id
          (create_geofence floats format_float valid answered new_id places family_id name ring).0
        ≡ others family_id places
  unfolding create_geofence
  create_geofence-others valid answered new_id places family_id name ring =
      ground (arith, string_eq.beq_iff family_id family_id)

  update_geofence-others :
      (valid : String → Option Bool) (answered : Bool) (places : List PlaceRow)
      (family_id id name : String) (ring : List (Point F))
      → others family_id
          (update_geofence floats format_float valid answered places family_id id name ring).0
        ≡ others family_id places
  unfolding update_geofence
  update_geofence-others valid answered places family_id id name ring =
      elim (Drawn-cases (draw floats ring)) [
        | inl (e, q) ↦ ground arith
        | inr (closed, q) ↦ ground (
          arith,
          set_place-others family_id id name (render_ring floats format_float closed) places,
        )
      ]

  delete_geofence-others :
      (answered : Bool) (places : List PlaceRow) (family_id id : String)
      → others family_id (delete_geofence answered places family_id id).0 ≡ others family_id places
  unfolding delete_geofence
  delete_geofence-others answered places family_id id =
      ground (arith, others-keep family_id id places)

  -- The operations of an operator on one family.
  pub data Command : Type 0 where
    creates : String → String → List (Point F) → Command
    updates : String → String → List (Point F) → Command
    deletes : String → Command

  unfoldable pub command :
      (String → Option Bool) → Bool → String → List PlaceRow → Command → List PlaceRow
  command valid answered family_id places (creates new_id name ring) =
      (create_geofence floats format_float valid answered new_id places family_id name ring).0
  command valid answered family_id places (updates id name ring) =
      (update_geofence floats format_float valid answered places family_id id name ring).0
  command valid answered family_id places (deletes id) =
      (delete_geofence answered places family_id id).0

  -- The commands in order, each with what PostGIS answers of its area and whether the database answers.
  unfoldable pub commands :
      String → List PlaceRow → List ((String → Option Bool) × Bool × Command) → List PlaceRow
  commands family_id places [] = places
  commands family_id places ((valid, answered, c) ∷ rest) =
      commands family_id (command valid answered family_id places c) rest

  command-others :
      (valid : String → Option Bool) (answered : Bool) (family_id : String) (places : List PlaceRow)
      (c : Command)
      → others family_id (command valid answered family_id places c) ≡ others family_id places
  unfolding command
  command-others valid answered family_id places (creates new_id name ring) =
      create_geofence-others valid answered new_id places family_id name ring
  command-others valid answered family_id places (updates id name ring) =
      update_geofence-others valid answered places family_id id name ring
  command-others valid answered family_id places (deletes id) =
      delete_geofence-others answered places family_id id

  -- Whatever creations, updates and deletions are run for a family, with whatever ids, and
  -- whatever the database answers, the Places of the other families stay as they are.
  pub commands-others :
      (family_id : String) (places : List PlaceRow)
      (cs : List ((String → Option Bool) × Bool × Command))
      → others family_id (commands family_id places cs) ≡ others family_id places
  unfolding commands
  commands-others family_id places [] = refl
  commands-others family_id places ((valid, answered, c) ∷ rest) =
      commands-others family_id (command valid answered family_id places c) rest
      ∙ command-others valid answered family_id places c
