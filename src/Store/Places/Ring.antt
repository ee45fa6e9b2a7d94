-- ===== src/Store/Places/Ring.antt =====
-- internal/store/entities.go: the ring that polygonWKT renders.
use tracker.Base.{
  subst, ℕ, suc, ◌≤◌, ◌≡◌, ◌⊎◌, inl, inr, arith, refl, sym, none, List, [], ◌∷◌, ◌++◌, length, All,
  All-append, if◌then◌else◌, contains, contains-snoc, Eq, ◌==◌, Bool-cases, nat_eq,
}
use tracker.Store.Ingest.{Floats, validate_lon_lat}
use tracker.Store.Places.{
  Point, drawn, last_or, butlast, point_eq, same_point_iff, corners, open_ring, closed_ring,
  bad_point_of, draw,
}

module _ {F : Type 0} ⦃same : Eq F⦄ where
  contains-corners : (x : Point F) (xs : List (Point F)) → contains x (corners xs) ≡ contains x xs
  unfolding corners contains
  contains-corners x [] = refl
  contains-corners x (p ∷ rest) =
      ground (arith, contains-corners x rest, contains-corners p rest, same_point_iff p x)

  -- One more point at the end is one more corner, unless it was there.
  corners-snoc :
      (p : Point F) (xs : List (Point F))
      → length (corners (xs ++ p ∷ []))
        ≡ (if contains p xs then length (corners xs) else suc (length (corners xs)))
  unfolding corners contains
  corners-snoc p [] = refl
  corners-snoc p (x ∷ xs) = ground (
    arith,
    corners-snoc p xs,
    contains-corners x xs,
    contains-corners x (xs ++ p ∷ []),
    contains-snoc x p xs,
    same_point_iff x p,
    same_point_iff p x,
  )

  last_or-snoc : (x p : Point F) (xs : List (Point F)) → last_or x (xs ++ p ∷ []) ≡ p
  last_or-snoc x p [] = refl
  last_or-snoc x p (y ∷ xs) = last_or-snoc y p xs

  butlast-snoc :
      (p : Point F) (xs : List (Point F)) → butlast (p ∷ xs) ++ last_or p xs ∷ [] ≡ p ∷ xs
  butlast-snoc p [] = refl
  butlast-snoc p (q ∷ rest) = rw (butlast-snoc q rest) refl

  -- The closing point adds no corner to the open ring.
  corners-closed_ring :
      (ring : List (Point F))
      → length (corners (closed_ring ring)) ≡ length (corners (open_ring ring))
  unfolding closed_ring open_ring contains
  corners-closed_ring [] = refl
  corners-closed_ring (p ∷ []) = ground (arith, same_point_iff p p)
  corners-closed_ring (p ∷ q ∷ rest) = elim (Bool-cases (p == last_or q rest)) [
    | inl explicit ↦
        let inner = butlast (p ∷ q ∷ rest) in
        let whole =
          subst (λ z. inner ++ z ∷ [] ≡ p ∷ q ∷ rest)
            (sym ((same_point_iff p (last_or q rest)).0 explicit)) (butlast-snoc p (q ∷ rest)) in
        let counted : length (corners (inner ++ p ∷ [])) ≡ length (corners inner) =
          ground (arith, corners-snoc p inner, same_point_iff p p) in
        rw explicit (subst (λ r. length (corners r) ≡ length (corners inner)) whole counted)
    | inr unclosed ↦ ground (arith, corners-snoc p (p ∷ q ∷ rest), same_point_iff p p)
  ]

  -- A ring that returns to its first point.
  abbrev pub Closed : List (Point F) → Type 0
  Closed [] = ⊥
  Closed (p ∷ rest) = last_or p rest ≡ p

  closed_ring-Closed : (p : Point F) (rest : List (Point F)) → Closed (closed_ring (p ∷ rest))
  unfolding closed_ring
  closed_ring-Closed p rest = elim (Bool-cases (p == last_or p rest)) [
    | inl explicit ↦ rw explicit (sym ((same_point_iff p (last_or p rest)).0 explicit))
    | inr unclosed ↦ rw unclosed (last_or-snoc p p rest)
  ]

  -- The ring itself, or the ring and its first point again.
  abbrev pub Continues : List (Point F) → List (Point F) → Type 0
  Continues [] closed = ⊥
  Continues (p ∷ rest) closed = (closed ≡ p ∷ rest) ⊎ (closed ≡ (p ∷ rest) ++ p ∷ [])

  closed_ring-Continues :
      (p : Point F) (rest : List (Point F)) → Continues (p ∷ rest) (closed_ring (p ∷ rest))
  unfolding closed_ring
  closed_ring-Continues p rest = elim (Bool-cases (p == last_or p rest)) [
    | inl explicit ↦ inl (rw explicit refl)
    | inr unclosed ↦ inr (rw unclosed refl)
  ]

  module _ (floats : Floats F) where
    abbrev pub Legal : Point F → Type 0
    Legal p = validate_lon_lat floats p.lon p.lat ≡ none

    bad_point_of-Legal :
        (i : ℕ) (ring : List (Point F)) → bad_point_of floats i ring ≡ none → All Legal ring
    unfolding bad_point_of
    bad_point_of-Legal i [] h = tt
    bad_point_of-Legal i (p ∷ rest) h = ground (arith, bad_point_of-Legal (suc i) rest)

    closed_ring-Legal : (ring : List (Point F)) → All Legal ring → All Legal (closed_ring ring)
    unfolding closed_ring
    closed_ring-Legal [] h = tt
    closed_ring-Legal (p ∷ rest) h =
        ground (arith, All-append Legal (p ∷ rest) (p ∷ []) h (h.0, tt))

    drawn-parts :
        (ring closed : List (Point F))
        → draw floats ring ≡ drawn closed
        → (bad_point_of floats 0 ring ≡ none)
          × (closed ≡ closed_ring ring)
          × (3 ≤ length (corners (open_ring ring)))
    unfolding draw
    drawn-parts ring closed h = ground arith

    -- A ring that is drawn returns to its first point, has only legal coordinates and at least
    -- three distinct corners, and is the ring that was given or that ring with its first point
    -- again.
    pub draw-Closed :
        (ring closed : List (Point F))
        → draw floats ring ≡ drawn closed
        → Closed closed × All Legal closed × (3 ≤ length (corners closed)) × Continues ring closed
    unfolding corners open_ring
    draw-Closed [] closed h =
        let (legal, same_ring, three) = drawn-parts [] closed h in ground (arith, three)
    draw-Closed (p ∷ rest) closed h =
        let (legal, same_ring, three) = drawn-parts (p ∷ rest) closed h in
        let made : Closed (closed_ring (p ∷ rest))
            × All Legal (closed_ring (p ∷ rest))
            × (3 ≤ length (corners (closed_ring (p ∷ rest))))
            × Continues (p ∷ rest) (closed_ring (p ∷ rest)) =
          (
            closed_ring-Closed p rest,
            closed_ring-Legal (p ∷ rest) (bad_point_of-Legal 0 (p ∷ rest) legal),
            omega (arith, three, corners-closed_ring (p ∷ rest)),
            closed_ring-Continues p rest,
          ) in
        subst (λ c. Closed c × All Legal c × (3 ≤ length (corners c)) × Continues (p ∷ rest) c)
          (sym same_ring) made
