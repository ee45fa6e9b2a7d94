-- ===== src/Base/Lists.antt =====
-- Lists measured and searched with native numbers and Boolean tests, under the library's names.
use Prim.Native.Nat.{◌≤◌, ℕ, zero, suc, ◌+◌}
use mathlib.Core.Path.{refl, ◌≡◌}
use mathlib.Core.Bool.{true, false, Bool}
use mathlib.Core.List.{List, [], ◌∷◌, ◌++◌}
use native.Mathlib.Omega.{arith}
use mathlib.Core.Option.{Option, none, some}
use tracker.Base.Tests.{Eq, ◌==◌, if◌then◌else◌}

module _ {ℓ} {A : Type ℓ} where
  abbrev pub length : List A → ℕ
  length [] = 0
  length (x ∷ xs) = suc (length xs)

  abbrev pub take : ℕ → List A → List A
  take zero xs = []
  take (suc n) [] = []
  take (suc n) (x ∷ xs) = x ∷ take n xs

  abbrev pub drop : ℕ → List A → List A
  drop zero xs = xs
  drop (suc n) [] = []
  drop (suc n) (x ∷ xs) = drop n xs

  -- What a `for … { if !keep(x) { continue }; out = append(out, x) }` loop collects.
  abbrev pub keep : (A → Bool) → List A → List A
  keep p [] = []
  keep p (x ∷ xs) = if p x then x ∷ keep p xs else keep p xs

  pub length-append : (xs ys : List A) → length (xs ++ ys) ≡ length xs + length ys
  length-append [] ys = omega arith
  length-append (x ∷ xs) ys = omega (arith, length-append xs ys)

module _ {ℓ κ} {A : Type ℓ} where
  -- A predicate on every element, by recursion, which the tactics read as a tuple.
  abbrev pub All : (A → Type κ) → List A → Type κ
  All P [] = Unit
  All P (x ∷ xs) = P x × All P xs

  pub All-append : (P : A → Type κ) (xs ys : List A) → All P xs → All P ys → All P (xs ++ ys)
  All-append P [] ys h k = k
  All-append P (x ∷ xs) ys h k = (h.0, All-append P xs ys h.1 k)

module _ {ℓ} {A : Type ℓ} where
  abbrev pub is_some : Option A → Bool
  is_some none = false
  is_some (some a) = true

module _ {ℓ} {A : Type ℓ} ⦃e : Eq A⦄ where
  unfoldable pub contains : A → List A → Bool
  contains a [] = false
  contains a (x ∷ xs) = if x == a then true else contains a xs

  -- The first occurrence is taken out: `append(l[:i], l[i+1:]...)` at the first match.
  unfoldable pub erase : A → List A → List A
  erase a [] = []
  erase a (x ∷ xs) = if x == a then xs else x ∷ erase a xs

  abbrev pub Unique : List A → Type 0
  Unique [] = Unit
  Unique (x ∷ xs) = (contains x xs ≡ false) × Unique xs

  pub contains-snoc :
      (a b : A) (xs : List A) → contains a (xs ++ b ∷ []) ≡ (if b == a then true else contains a xs)
  unfolding contains
  contains-snoc a b [] = refl
  contains-snoc a b (x ∷ xs) = ground (arith, contains-snoc a b xs)

  pub contains-erase :
      (a b : A) (xs : List A)
      → Unique xs
      → contains b (erase a xs) ≡ (if a == b then false else contains b xs)
  unfolding contains erase
  contains-erase a b [] u = ground arith
  contains-erase a b (x ∷ xs) u =
      ground (arith, e.beq_iff x a, e.beq_iff a b, e.beq_iff x b, contains-erase a b xs u.1)

  pub snoc-Unique :
      (a : A) (xs : List A) → contains a xs ≡ false → Unique xs → Unique (xs ++ a ∷ [])
  unfolding contains
  snoc-Unique a [] h u = (refl, tt)
  snoc-Unique a (x ∷ xs) h u =
      ground (arith, e.beq_iff x a, e.beq_iff a x, contains-snoc x a xs, snoc-Unique a xs)

  pub erase-Unique : (a : A) (xs : List A) → Unique xs → Unique (erase a xs)
  unfolding erase
  erase-Unique a [] u = tt
  erase-Unique a (x ∷ xs) u = ground (arith, contains-erase a x xs u.1, erase-Unique a xs u.1)

  pub length-erase : (a : A) (xs : List A) → length (erase a xs) ≤ length xs
  unfolding erase
  length-erase a [] = omega arith
  length-erase a (x ∷ xs) = ground (arith, length-erase a xs)

module _ {ℓ κ} {A : Type ℓ} (P : A → Type κ) where
  pub All-keep : (p : A → Bool) (xs : List A) → All P xs → All P (keep p xs)
  All-keep p [] h = tt
  All-keep p (x ∷ xs) h = ground (arith, All-keep p xs h.1)

  pub All-imp {ρ} : (Q : A → Type ρ) (xs : List A) → ((x : A) → P x → Q x) → All P xs → All Q xs
  All-imp Q [] f h = tt
  All-imp Q (x ∷ xs) f h = (f x h.0, All-imp Q xs f h.1)
