-- ===== src/Base/Dict.antt =====
-- Go's built-in `map`, as an association list with one entry for a key. A read of a missing key is
-- `none`; a write replaces the entry or adds one; `delete` of a missing key changes nothing.
use mathlib.Core.Path.{◌≡◌, refl}
use mathlib.Core.Option.{Option, none, some}
use mathlib.Core.List.{List, [], ◌∷◌}
use native.Mathlib.Omega.{arith}
use Prim.Native.Nat.{suc}
use mathlib.Core.Bool.{Bool}
use tracker.Base.Lists.{length, is_some}
use tracker.Base.Tests.{Eq, ◌==◌, if◌then◌else◌}

module _ {ℓ κ} {K : Type ℓ} {V : Type κ} ⦃e : Eq K⦄ where
  unfoldable pub lookup : K → List (K × V) → Option V
  lookup k [] = none
  lookup k ((j, v) ∷ m) = if j == k then some v else lookup k m

  unfoldable pub insert : K → V → List (K × V) → List (K × V)
  insert k v [] = (k, v) ∷ []
  insert k v ((j, w) ∷ m) = if j == k then (k, v) ∷ m else (j, w) ∷ insert k v m

  unfoldable pub delete : K → List (K × V) → List (K × V)
  delete k [] = []
  delete k ((j, w) ∷ m) = if j == k then delete k m else (j, w) ∷ delete k m

  -- No key has two entries.
  abbrev pub Distinct : List (K × V) → Type κ
  Distinct [] = Unit
  Distinct ((k, v) ∷ m) = (lookup k m ≡ none) × Distinct m

  pub lookup-insert :
      (written read : K) (new : V) (m : List (K × V))
      → lookup read (insert written new m) ≡ (if written == read then some new else lookup read m)
  unfolding lookup insert
  lookup-insert written read new [] = refl
  lookup-insert written read new ((i, old) ∷ rest) = ground (
    arith,
    e.beq_iff written read,
    e.beq_iff i written,
    e.beq_iff i read,
    lookup-insert written read new rest,
  )

  pub lookup-delete :
      (k j : K) (m : List (K × V)) → lookup j (delete k m) ≡ (if k == j then none else lookup j m)
  unfolding lookup delete
  lookup-delete k j [] = ground arith
  lookup-delete k j ((i, w) ∷ m) =
      ground (arith, e.beq_iff k j, e.beq_iff i k, e.beq_iff i j, lookup-delete k j m)

  pub insert-Distinct : (k : K) (v : V) (m : List (K × V)) → Distinct m → Distinct (insert k v m)
  unfolding insert lookup
  insert-Distinct k v [] d = (refl, tt)
  insert-Distinct k v ((i, w) ∷ m) d =
      ground (arith, e.beq_iff i k, e.beq_iff k i, lookup-insert k i v m, insert-Distinct k v m d.1)

  pub delete-Distinct : (k : K) (m : List (K × V)) → Distinct m → Distinct (delete k m)
  unfolding delete
  delete-Distinct k [] d = tt
  delete-Distinct k ((i, w) ∷ m) d = ground (arith, lookup-delete k i m, delete-Distinct k m d.1)

  abbrev pub has : K → List (K × V) → Bool
  has k m = is_some (lookup k m)

  pub length-insert :
      (k : K) (v : V) (m : List (K × V))
      → length (insert k v m) ≡ (if has k m then length m else suc (length m))
  unfolding insert lookup
  length-insert k v [] = refl
  length-insert k v ((i, w) ∷ m) = ground (arith, length-insert k v m)

  delete_missing : (k : K) (m : List (K × V)) → lookup k m ≡ none → delete k m ≡ m
  unfolding delete lookup
  delete_missing k [] h = refl
  delete_missing k ((i, w) ∷ m) h = ground (arith, delete_missing k m)

  pub length-delete :
      (k : K) (m : List (K × V))
      → Distinct m
      → length m ≡ (if has k m then suc (length (delete k m)) else length (delete k m))
  unfolding delete lookup
  length-delete k [] d = refl
  length-delete k ((i, w) ∷ m) d =
      ground (arith, e.beq_iff i k, delete_missing i m, length-delete k m d.1)

  pub lookup-none-nil : (m : List (K × V)) → ((k : K) → lookup k m ≡ none) → m ≡ []
  unfolding lookup
  lookup-none-nil [] h = refl
  lookup-none-nil ((k, v) ∷ m) h = ground (arith, h k, e.beq_iff k k)

module _ {ℓ κ ρ} {K : Type ℓ} {V : Type κ} ⦃e : Eq K⦄ (P : V → Type ρ) where
  -- A predicate on every value.
  abbrev pub Values : List (K × V) → Type ρ
  Values [] = Unit
  Values ((k, v) ∷ m) = P v × Values m

  pub insert-Values : (k : K) (v : V) (m : List (K × V)) → P v → Values m → Values (insert k v m)
  unfolding insert
  insert-Values k v [] p h = (p, tt)
  insert-Values k v ((i, w) ∷ m) p h = ground (arith, insert-Values k v m p h.1)

  pub delete-Values : (k : K) (m : List (K × V)) → Values m → Values (delete k m)
  unfolding delete
  delete-Values k [] h = tt
  delete-Values k ((i, w) ∷ m) h = ground (arith, delete-Values k m h.1)

  pub lookup-Values : (k : K) (m : List (K × V)) {v : V} → Values m → lookup k m ≡ some v → P v
  unfolding lookup
  lookup-Values k [] {v} h q = cc
  lookup-Values k ((i, w) ∷ m) {v} h q = ground (arith, lookup-Values k m {v = v} h.1)
