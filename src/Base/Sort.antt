-- ===== src/Base/Sort.antt =====
-- sort.SliceStable, as the stable sort by insertion, and the first match in a list of rows that have
-- a key.
use Prim.Native.String.{String}
use mathlib.Core.Path.{◌≡◌, refl}
use mathlib.Core.Bool.{Bool, false}
use mathlib.Core.Option.{Option, none, some}
use mathlib.Core.List.{List, [], ◌∷◌, map}
use native.Mathlib.Omega.{arith}
use tracker.Base.Tests.{◌==◌, if◌then◌else◌, string_eq}
use tracker.Base.Lists.{All, keep, contains, Unique, is_some}

module _ {ℓ} {A : Type ℓ} (less : A → A → Bool) where
  unfoldable pub insert_stable : A → List A → List A
  insert_stable x [] = x ∷ []
  insert_stable x (y ∷ ys) = if less y x then y ∷ insert_stable x ys else x ∷ y ∷ ys

  unfoldable pub slice_stable : List A → List A
  unfolding insert_stable
  slice_stable [] = []
  slice_stable (x ∷ xs) = insert_stable x (slice_stable xs)

module _ {ℓ} {A : Type ℓ} (key : A → String) where
  -- The row with a key.
  unfoldable pub find : String → List A → Option A
  find k [] = none
  find k (x ∷ xs) = if key x == k then some x else find k xs

  abbrev pub keys : List A → List String
  keys xs = map key xs

  pub contains-find : (k : String) (xs : List A) → contains k (keys xs) ≡ is_some (find k xs)
  unfolding contains find
  contains-find k [] = refl
  contains-find k (x ∷ xs) = ground (arith, contains-find k xs)

  -- With distinct keys a filter keeps the row of a key exactly if it passes the test.
  pub find-keep :
      (k : String) (p : A → Bool) (xs : List A)
      → Unique (keys xs)
      → find k (keep p xs)
        ≡ elim (find k xs) [ none ↦ none | some x ↦ if p x then some x else none ]
  unfolding find
  find-keep k p [] u = refl
  find-keep k p (x ∷ xs) u =
      ground (arith, find-keep k p xs u.1, contains-find (key x) xs, string_eq.beq_iff (key x) k)

  pub keep-Unique : (p : A → Bool) (xs : List A) → Unique (keys xs) → Unique (keys (keep p xs))
  keep-Unique p [] u = tt
  keep-Unique p (x ∷ xs) u = ground (
    arith,
    keep-Unique p xs u.1,
    contains-find (key x) xs,
    contains-find (key x) (keep p xs),
    find-keep (key x) p xs u.1,
  )

  module _ (less : A → A → Bool) where
    find-insert_stable :
        (k : String) (x : A) (xs : List A)
        → contains (key x) (keys xs) ≡ false
        → find k (insert_stable less x xs) ≡ (if key x == k then some x else find k xs)
    unfolding insert_stable find contains
    find-insert_stable k x [] h = refl
    find-insert_stable k x (y ∷ ys) h = ground (
      arith,
      find-insert_stable k x ys,
      string_eq.beq_iff (key x) k,
      string_eq.beq_iff (key y) k,
      string_eq.beq_iff (key y) (key x),
    )

    -- Sorting rows with distinct keys loses none and changes none.
    pub find-slice_stable :
        (k : String) (xs : List A) → Unique (keys xs) → find k (slice_stable less xs) ≡ find k xs
    unfolding slice_stable find
    find-slice_stable k [] u = refl
    find-slice_stable k (x ∷ xs) u = ground (
      arith,
      find-slice_stable k xs u.1,
      find-slice_stable (key x) xs u.1,
      contains-find (key x) xs,
      contains-find (key x) (slice_stable less xs),
      find-insert_stable k x (slice_stable less xs),
    )

    insert_stable-Unique :
        (x : A) (xs : List A)
        → contains (key x) (keys xs) ≡ false
        → Unique (keys xs)
        → Unique (keys (insert_stable less x xs))
    unfolding insert_stable contains
    insert_stable-Unique x [] h u = (refl, tt)
    insert_stable-Unique x (y ∷ ys) h u = ground (
      arith,
      insert_stable-Unique x ys,
      contains-find (key y) (insert_stable less x ys),
      find-insert_stable (key y) x ys,
      contains-find (key y) ys,
      string_eq.beq_iff (key y) (key x),
      string_eq.beq_iff (key x) (key y),
    )

    pub slice_stable-Unique :
        (xs : List A) → Unique (keys xs) → Unique (keys (slice_stable less xs))
    unfolding slice_stable
    slice_stable-Unique [] u = tt
    slice_stable-Unique (x ∷ xs) u =
        insert_stable-Unique x (slice_stable less xs)
          (ground (
            arith,
            contains-find (key x) xs,
            contains-find (key x) (slice_stable less xs),
            find-slice_stable (key x) xs u.1,
          ))
          (slice_stable-Unique xs u.1)

module _ {ℓ κ} {A : Type ℓ} (P : A → Type κ) (less : A → A → Bool) where
  insert_stable-All : (x : A) (xs : List A) → P x → All P xs → All P (insert_stable less x xs)
  unfolding insert_stable
  insert_stable-All x [] p h = (p, tt)
  insert_stable-All x (y ∷ ys) p h = ground (arith, insert_stable-All x ys p h.1)

  pub slice_stable-All : (xs : List A) → All P xs → All P (slice_stable less xs)
  unfolding slice_stable
  slice_stable-All [] h = tt
  slice_stable-All (x ∷ xs) h =
      insert_stable-All x (slice_stable less xs) h.0 (slice_stable-All xs h.1)

module _ {ℓ} {A : Type ℓ} (key : A → String) where
  pub find-key : (k : String) (xs : List A) {x : A} → find key k xs ≡ some x → key x ≡ k
  unfolding find
  find-key k [] {x} h = cc
  find-key k (y ∷ ys) {x} h = ground (arith, string_eq.beq_iff (key y) k, find-key k ys {x = x})
