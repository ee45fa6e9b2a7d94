-- ===== src/Vulngate/Verdict.antt =====
-- internal/vulngate/gate.go: when the verdict is nil.
use tracker.Base.{
  ◌≡◌, ◌↔◌, arith, Bool, true, false, ◌&&◌, not, List, [], ◌∷◌, ◌++◌, keep, All, string_eq,
  contains,
}
use tracker.Vulngate.{
  Advisory, Entry, Problem, evaluate, entry_ids, advisory_ids, has_fix, unless_empty, unrecorded,
  fixable, stale,
}

keep-nil : {A : Type 0} (p : A → Bool) (xs : List A) → (keep p xs ≡ []) ↔ All (λ x. p x ≡ false) xs
keep-nil p [] = ground arith
keep-nil p (x ∷ xs) = ground (arith, keep-nil p xs)

-- An advisory that a record covers, which has no fix; a record that has an advisory to cover.
abbrev pub Carried : List Entry → Advisory → Type 0
Carried entries a = (contains a.id (entry_ids entries) ≡ true) × (a.fixed_version ≡ "")

abbrev pub Current : List Advisory → Entry → Type 0
Current reported e = contains e.id (advisory_ids reported) ≡ true

unless_empty-nil :
    {A : Type 0} (p : List A → Problem) (xs : List A) → (unless_empty p xs ≡ []) ↔ (xs ≡ [])
unless_empty-nil p [] = ground arith
unless_empty-nil p (x ∷ xs) = ground arith

append-nil_iff : (xs ys : List Problem) → (xs ++ ys ≡ []) ↔ ((xs ≡ []) × (ys ≡ []))
append-nil_iff [] ys = ground arith
append-nil_iff (x ∷ xs) ys = ground arith

tested-Carried :
    (entries : List Entry) (reported : List Advisory)
    → (All (λ a. not (contains a.id (entry_ids entries)) ≡ false) reported
        × All (λ a. (contains a.id (entry_ids entries) && has_fix a) ≡ false) reported)
      ↔ All (Carried entries) reported
tested-Carried entries [] = ground arith
tested-Carried entries (a ∷ reported) =
    ground (arith, tested-Carried entries reported, string_eq.beq_iff a.fixed_version "")

tested-Current :
    (reported : List Advisory) (entries : List Entry)
    → All (λ e. not (contains e.id (advisory_ids reported)) ≡ false) entries
      ↔ All (Current reported) entries
tested-Current reported [] = ground arith
tested-Current reported (e ∷ entries) = ground (arith, tested-Current reported entries)

-- The verdict has no problem exactly if every reported advisory is recorded and has no fix, and
-- every record has a reported advisory to cover.
pub evaluate_iff :
    (reported : List Advisory) (entries : List Entry)
    → (evaluate reported entries ≡ [])
      ↔ (All (Carried entries) reported × All (Current reported) entries)
unfolding evaluate
evaluate_iff reported entries =
    let missing = keep (λ a. not (contains a.id (entry_ids entries))) reported in
    let fixed = keep (λ a. contains a.id (entry_ids entries) && has_fix a) reported in
    let old = keep (λ e. not (contains e.id (advisory_ids reported))) entries in
    ground (
      arith,
      append-nil_iff (unless_empty unrecorded missing)
          (unless_empty fixable fixed ++ unless_empty stale old),
      append-nil_iff (unless_empty fixable fixed) (unless_empty stale old),
      unless_empty-nil unrecorded missing,
      unless_empty-nil fixable fixed,
      unless_empty-nil stale old,
      keep-nil (λ (a : Advisory). not (contains a.id (entry_ids entries))) reported,
      keep-nil (λ (a : Advisory). contains a.id (entry_ids entries) && has_fix a) reported,
      keep-nil (λ (e : Entry). not (contains e.id (advisory_ids reported))) entries,
      tested-Carried entries reported,
      tested-Current reported entries,
    )
