-- ===== src/Store/History/Scope.antt =====
-- internal/store/read.go and store.go: whose fixes a read answers, and in which order.
use mathlib.Core.List.{Perm}
use mathlib.Core.List.Perm
use tracker.Base.{
  ◌≤ℤ◌, refl, subst, Bool-cases, inl, inr, ℕ, zero, suc, ◌≤◌, ◌≡◌, arith, Bool, true, List, [], ◌∷◌,
  keep, take, drop, length, All, String,
}
use tracker.Base.Sort.{slice_stable, insert_stable}
use tracker.Clock.{Time}
use tracker.Store.{Device}
use tracker.Store.Ingest.{Stored}
use tracker.Store.History.{selected, newer, in_scope, bound}

module _ {A : Type 0} (P : A → Type 0) where
  take-All : (n : ℕ) (xs : List A) → All P xs → All P (take n xs)
  take-All zero xs h = tt
  take-All (suc n) [] h = tt
  take-All (suc n) (x ∷ xs) h = (h.0, take-All n xs h.1)

  drop-All : (n : ℕ) (xs : List A) → All P xs → All P (drop n xs)
  drop-All zero xs h = h
  drop-All (suc n) [] h = tt
  drop-All (suc n) (x ∷ xs) h = drop-All n xs h.1

  length-take : (n : ℕ) (xs : List A) → length (take n xs) ≤ n
  length-take zero xs = omega arith
  length-take (suc n) [] = omega arith
  length-take (suc n) (x ∷ xs) = omega (arith, length-take n xs)

keep-passed : {A : Type 0} (p : A → Bool) (xs : List A) → All (λ x. p x ≡ true) (keep p xs)
keep-passed p [] = tt
keep-passed p (x ∷ xs) = ground (arith, keep-passed p xs)

module _ {F : Type 0} where
  -- Newest first: no later row has a later instant.
  abbrev pub NewestFirst : List (Stored F) → Type 0
  NewestFirst [] = Unit
  NewestFirst (r ∷ rest) = All (λ q. q.fix.ts ≤ℤ r.fix.ts) rest × NewestFirst rest

  not_newer :
      (x y : Stored F) (rows : List (Stored F))
      → y.fix.ts ≤ℤ x.fix.ts
      → All (λ q. q.fix.ts ≤ℤ y.fix.ts) rows
      → All (λ q. q.fix.ts ≤ℤ x.fix.ts) rows
  not_newer x y [] h all = tt
  not_newer x y (q ∷ rows) h all = ground (arith, not_newer x y rows h all.1)

  insert_stable-older :
      (x y : Stored F) (rows : List (Stored F))
      → x.fix.ts ≤ℤ y.fix.ts
      → All (λ q. q.fix.ts ≤ℤ y.fix.ts) rows
      → All (λ q. q.fix.ts ≤ℤ y.fix.ts) (insert_stable newer x rows)
  unfolding insert_stable
  insert_stable-older x y [] h all = (h, tt)
  insert_stable-older x y (q ∷ rows) h all = ground (arith, insert_stable-older x y rows h all.1)

  insert_stable-NewestFirst :
      (x : Stored F) (rows : List (Stored F))
      → NewestFirst rows
      → NewestFirst (insert_stable newer x rows)
  unfolding insert_stable
  insert_stable-NewestFirst x [] h = (tt, tt)
  insert_stable-NewestFirst x (y ∷ rows) h = ground (
    arith,
    insert_stable-NewestFirst x rows h.1,
    insert_stable-older x y rows,
    not_newer x y rows,
  )

  slice_stable-NewestFirst : (rows : List (Stored F)) → NewestFirst (slice_stable newer rows)
  unfolding slice_stable
  slice_stable-NewestFirst [] = tt
  slice_stable-NewestFirst (x ∷ rows) =
      insert_stable-NewestFirst x (slice_stable newer rows) (slice_stable-NewestFirst rows)

  take-NewestFirst : (n : ℕ) (rows : List (Stored F)) → NewestFirst rows → NewestFirst (take n rows)
  take-NewestFirst zero rows h = tt
  take-NewestFirst (suc n) [] h = tt
  take-NewestFirst (suc n) (r ∷ rows) h =
      (take-All (λ q. q.fix.ts ≤ℤ r.fix.ts) n rows h.0, take-NewestFirst n rows h.1)

  drop-NewestFirst : (n : ℕ) (rows : List (Stored F)) → NewestFirst rows → NewestFirst (drop n rows)
  drop-NewestFirst zero rows h = h
  drop-NewestFirst (suc n) [] h = tt
  drop-NewestFirst (suc n) (r ∷ rows) h = drop-NewestFirst n rows h.1

  insert_stable-Perm :
      (x : Stored F) (rows : List (Stored F)) → Perm (insert_stable newer x rows) (x ∷ rows)
  unfolding insert_stable
  insert_stable-Perm x [] = Perm.rfl
  insert_stable-Perm x (y ∷ rows) =
      let later = Perm.trans (Perm.cons y (insert_stable-Perm x rows)) (Perm.swap x y rows) in
      elim (Bool-cases (newer y x)) [ inl first ↦ rw first later | inr last ↦ rw last Perm.rfl ]

  slice_stable-Perm : (rows : List (Stored F)) → Perm (slice_stable newer rows) rows
  unfolding slice_stable
  slice_stable-Perm [] = Perm.rfl
  slice_stable-Perm (x ∷ rows) =
      Perm.trans (insert_stable-Perm x (slice_stable newer rows))
        (Perm.cons x (slice_stable-Perm rows))

  keep_same :
      (p q : Stored F → Bool) (rows : List (Stored F))
      → ((r : Stored F) → p r ≡ q r)
      → keep p rows ≡ keep q rows
  keep_same p q [] same = refl
  keep_same p q (r ∷ rows) same = ground (arith, same r, keep_same p q rows same)

  -- The query selects what the test passes, newest first.
  pub selected-Perm :
      (devices : List Device) (rows : List (Stored F)) (family_id device_id : String)
      (from to : Time) (test : Stored F → Bool)
      → ((r : Stored F) → in_scope devices family_id device_id (bound from) (bound to) r ≡ test r)
      → let all = selected devices rows family_id device_id from to in
        Perm all (keep test rows) × NewestFirst all
  unfolding selected
  selected-Perm devices rows family_id device_id from to test same =
      let passed = keep (in_scope devices family_id device_id (bound from) (bound to)) rows in
      (
        subst (λ kept. Perm (slice_stable newer passed) kept)
            (keep_same (in_scope devices family_id device_id (bound from) (bound to)) test rows
              same)
            (slice_stable-Perm passed),
        slice_stable-NewestFirst passed,
      )
