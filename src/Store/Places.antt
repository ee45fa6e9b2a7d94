-- ===== src/Store/Places.antt =====
-- internal/store/entities.go and geofence.go: the Places of a family and the rings that bound them.
-- An area is kept as the text that its INSERT or UPDATE carries; `format_float` is
-- strconv.FormatFloat, and `valid` is what PostGIS answers of a text: whether it is a valid polygon,
-- `none` where the query fails. The equality of coordinates is Go's, in which the two zeros are one.
pub mod Ring
pub mod Owned
use Prim.Native.String.{◌++◌}
use tracker.Base.{
  ℕ, zero, suc, ◌≡◌, ◌↔◌, arith, Bool, true, false, ◌&&◌, ◌||◌, not, String, Option, none, some,
  List, [], ◌∷◌, ◌++◌ as append, map, keep, contains, length, if◌then◌else◌, ◌==◌, string_eq, Eq,
  nat_eq, ltb, leb, ◌-◌, take,
}
use tracker.Base.Sort.{slice_stable, find}
use tracker.Store.Ingest.{Floats, CoordinateError, validate_lon_lat}

pub record Point (F : Type 0) : Type 0 where
  pub lon : F
  pub lat : F

-- A text in WKT, or what is wrong with the ring; `bad_point` names its place in the ring.
pub data RingError : Type 0 where
  bad_point : ℕ → CoordinateError → RingError
  too_few_corners : ℕ → RingError

pub data Drawn (F : Type 0) : Type 0 where
  drawn : List (Point F) → Drawn F
  not_drawn : RingError → Drawn F

pub record PlaceRow : Type 0 where
  pub id : String
  pub family_id : String
  pub name : String
  pub area : String

pub data PlaceError : Type 0 where
  bad_ring : RingError → PlaceError
  unchecked invalid_area unanswered : PlaceError

pub data Created : Type 0 where
  created : String → Created
  not_created : PlaceError → Created

pub data Changed : Type 0 where
  changed : Bool → Changed
  not_changed : PlaceError → Changed

-- strings.Join of the coordinates.
unfoldable pub join : List String → String
join [] = ""
join (s ∷ []) = s
join (s ∷ t ∷ rest) = s ++ ", " ++ join (t ∷ rest)

abbrev pub last_or : {A : Type 0} → A → List A → A
last_or x [] = x
last_or x (y ∷ ys) = last_or y ys

-- All but the last of a list.
abbrev pub butlast : {A : Type 0} → List A → List A
butlast [] = []
butlast (x ∷ []) = []
butlast (x ∷ y ∷ ys) = x ∷ butlast (y ∷ ys)

-- The UPDATE of the rows with the id in the family.
unfoldable pub set_place : String → String → String → String → List PlaceRow → List PlaceRow
set_place family_id id name area [] = []
set_place family_id id name area (p ∷ places) =
    (if p.id == id && p.family_id == family_id then record p { name = name; area = area } else p)
    ∷ set_place family_id id name area places

unfoldable pub owned_rows : String → String → List PlaceRow → ℕ
owned_rows family_id id [] = 0
owned_rows family_id id (p ∷ places) =
    if p.id == id && p.family_id == family_id
    then suc (owned_rows family_id id places)
    else owned_rows family_id id places

unfoldable pub delete_geofence : Bool → List PlaceRow → String → String → List PlaceRow × Changed
delete_geofence answered places family_id id =
    if answered
    then (
      keep (λ p. not (p.id == id && p.family_id == family_id)) places,
      changed (owned_rows family_id id places == 1),
    )
    else (places, not_changed unanswered)

module _ {F : Type 0} ⦃same : Eq F⦄ where
  abbrev pub same_point : Point F → Point F → Bool
  same_point p q = p.lon == q.lon && p.lat == q.lat

  pub same_point_iff : (p q : Point F) → (same_point p q ≡ true) ↔ (p ≡ q)
  same_point_iff p q = ground (arith, same.beq_iff p.lon q.lon, same.beq_iff p.lat q.lat)

  instance abbrev pub point_eq : Eq (Point F)
  point_eq = record { beq = same_point; beq_iff = same_point_iff }

  -- The keys of the map of corners.
  unfoldable pub corners : List (Point F) → List (Point F)
  corners [] = []
  corners (p ∷ rest) = if contains p (corners rest) then corners rest else p ∷ corners rest

  -- The ring without an explicit closing point.
  unfoldable pub open_ring : List (Point F) → List (Point F)
  open_ring [] = []
  open_ring (p ∷ []) = p ∷ []
  open_ring (p ∷ q ∷ rest) = if p == last_or q rest then butlast (p ∷ q ∷ rest) else p ∷ q ∷ rest

  -- The ring with its closing point.
  unfoldable pub closed_ring : List (Point F) → List (Point F)
  closed_ring [] = []
  closed_ring (p ∷ rest) = if p == last_or p rest then p ∷ rest else append (p ∷ rest) (p ∷ [])

module _ {F : Type 0} ⦃same : Eq F⦄ (floats : Floats F) where
  -- The first point that is refused, with its place.
  unfoldable pub bad_point_of : ℕ → List (Point F) → Option RingError
  bad_point_of i [] = none
  bad_point_of i (p ∷ rest) = elim (validate_lon_lat floats p.lon p.lat) [
    | some e ↦ some (bad_point i e)
    | none ↦ bad_point_of (suc i) rest
  ]

  -- The part of polygonWKT before the rendering.
  unfoldable pub draw : List (Point F) → Drawn F
  draw ring = elim (bad_point_of 0 ring) [
    | some e ↦ not_drawn e
    | none ↦
        let n = length (corners (open_ring ring)) in
        if ltb n 3 then not_drawn (too_few_corners n) else drawn (closed_ring ring)
  ]

  module _ (format_float : F → String) where
    abbrev pub render_point : Point F → String
    render_point p = format_float p.lon ++ " " ++ format_float p.lat

    unfoldable pub render_ring : List (Point F) → String
    render_ring ring = "SRID=4326;POLYGON((" ++ join (map render_point ring) ++ "))"

    -- The INSERT, with the id that the database gives.
    unfoldable pub create_geofence :
        (String → Option Bool)
        → Bool
        → String
        → List PlaceRow
        → String
        → String
        → List (Point F)
        → List PlaceRow × Created
    create_geofence valid answered new_id places family_id name ring = elim (draw ring) [
      | not_drawn e ↦ (places, not_created (bad_ring e))
      | drawn closed ↦ elim (valid (render_ring closed)) [
        | none ↦ (places, not_created unchecked)
        | some false ↦ (places, not_created invalid_area)
        | some true ↦
            if answered
            then (
              record { id = new_id; family_id = family_id; name = name; area = render_ring closed }
                  ∷ places,
              created new_id,
            )
            else (places, not_created unanswered)
      ]
    ]

    unfoldable pub update_geofence :
        (String → Option Bool)
        → Bool
        → List PlaceRow
        → String
        → String
        → String
        → List (Point F)
        → List PlaceRow × Changed
    update_geofence valid answered places family_id id name ring = elim (draw ring) [
      | not_drawn e ↦ (places, not_changed (bad_ring e))
      | drawn closed ↦ elim (valid (render_ring closed)) [
        | none ↦ (places, not_changed unchecked)
        | some false ↦ (places, not_changed invalid_area)
        | some true ↦
            if answered
            then (
              set_place family_id id name (render_ring closed) places,
              changed (owned_rows family_id id places == 1),
            )
            else (places, not_changed unanswered)
      ]
    ]

-- ORDER BY name, id.
abbrev pub name_before : (String → String → Bool) → PlaceRow → PlaceRow → Bool
name_before str_lt p q = if p.name == q.name then str_lt p.id q.id else str_lt p.name q.name

unfoldable pub list_geofences :
    (String → String → Bool) → Bool → List PlaceRow → String → Option (List PlaceRow)
list_geofences str_lt answered places family_id =
    if answered
    then some (slice_stable (name_before str_lt) (keep (λ p. p.family_id == family_id) places))
    else none

pub data FoundPlace : Type 0 where
  place : PlaceRow → FoundPlace
  unknown_geofence lookup_failed : FoundPlace

unfoldable pub geofence_by_id : Bool → List PlaceRow → String → FoundPlace
geofence_by_id answered places id =
    if answered
    then elim (find (λ p. p.id) id places) [ none ↦ unknown_geofence | some p ↦ place p ]
    else lookup_failed
