-- ===== src/Vulngate/Merged.antt =====
-- internal/vulngate/report.go: adding an advisory to a reading loses none.
use tracker.Base.{
  int_eq, ◌≡◌, arith, refl, sym, subst, true, String, none, some, List, [], ◌∷◌, ◌++◌, ◌==◌,
  string_eq, contains, contains-snoc, ◌∙◌, Bool-cases, Option-cases, inl, inr,
}
use tracker.Base.Dict.{lookup, insert, lookup-insert}
use tracker.Config.ParseInt.{codes}
use tracker.Vulngate.{
  StreamFinding, Advisory, read, advisory_of, Reading, merged, add_advisory, is_advisory_id,
}

-- Every advisory is filed under its id, which the order lists.
abbrev pub Filed : List String → List (String × Advisory) → Type 0
Filed order [] = Unit
Filed order (p ∷ rest) = (p.1.id ≡ p.0) × (contains p.0 order ≡ true) × Filed order rest

pub lookup-Filed :
    (id : String) (order : List String) (m : List (String × Advisory)) (a : Advisory)
    → Filed order m
    → lookup id m ≡ some a
    → (a.id ≡ id) × (contains id order ≡ true)
unfolding lookup
lookup-Filed id order [] a f h = ground arith
lookup-Filed id order (p ∷ m) a f h =
    ground (arith, lookup-Filed id order m a f.2, string_eq.beq_iff p.0 id)

insert-Filed :
    (a : Advisory) (order : List String) (m : List (String × Advisory))
    → contains a.id order ≡ true
    → Filed order m
    → Filed order (insert a.id a m)
unfolding insert
insert-Filed a order [] known f = (refl, known, tt)
insert-Filed a order (p ∷ m) known f = ground (arith, insert-Filed a order m known f.2)

snoc-Filed :
    (id : String) (order : List String) (m : List (String × Advisory))
    → Filed order m
    → Filed (order ++ id ∷ []) m
snoc-Filed id order [] f = tt
snoc-Filed id order (p ∷ m) f =
    ground (arith, snoc-Filed id order m f.2, contains-snoc p.0 id order)

-- The finding is in the reading, and its fix is not forgotten.
abbrev pub Covers : Reading → StreamFinding → Type 0
Covers s f =
    (a : Advisory) × (lookup f.osv s.deepest ≡ some a)
    × (a.fixed_version ≡ "" → f.fixed_version ≡ "")
    × (contains f.osv s.order ≡ true)

merged-fix :
    (prev a : Advisory)
    → (merged prev a).fixed_version ≡ ""
    → (prev.fixed_version ≡ "") × (a.fixed_version ≡ "")
unfolding merged
merged-fix prev a h =
    ground (arith, string_eq.beq_iff a.fixed_version "", string_eq.beq_iff prev.fixed_version "")

merged-id : (prev a : Advisory) → prev.id ≡ a.id → (merged prev a).id ≡ a.id
unfolding merged
merged-id prev a h = ground arith

pub advisory_of-read :
    (f : StreamFinding) (a : Advisory)
    → advisory_of f ≡ read a
    → (a.id ≡ f.osv) × (a.fixed_version ≡ f.fixed_version) × (is_advisory_id (codes f.osv) ≡ true)
unfolding advisory_of
advisory_of-read f a h = ground arith

-- The two outcomes of an addition.
abbrev newly : Reading → Advisory → Reading
newly s a = record s { order = s.order ++ a.id ∷ []; deepest = insert a.id a s.deepest }

abbrev again : Reading → Advisory → Advisory → Reading
again s a prev = record s { deepest = insert a.id (merged prev a) s.deepest }

added_newly :
    (s : Reading) (a : Advisory) → lookup a.id s.deepest ≡ none → add_advisory s a ≡ newly s a
unfolding add_advisory
added_newly s a h = ground arith

added_again :
    (s : Reading) (a prev : Advisory)
    → lookup a.id s.deepest ≡ some prev
    → add_advisory s a ≡ again s a prev
unfolding add_advisory
added_again s a prev h = ground arith

pub add_advisory-Filed :
    (s : Reading) (a : Advisory)
    → Filed s.order s.deepest
    → Filed (add_advisory s a).order (add_advisory s a).deepest
add_advisory-Filed s a f = elim (Option-cases (lookup a.id s.deepest)) [
  | inl new ↦
      subst (λ (t : Reading). Filed t.order t.deepest) (sym (added_newly s a new))
        (insert-Filed a (s.order ++ a.id ∷ []) s.deepest
          (ground (arith, contains-snoc a.id a.id s.order, string_eq.beq_iff a.id a.id))
          (snoc-Filed a.id s.order s.deepest f))
  | inr (prev, known) ↦
      let (named, listed) = lookup-Filed a.id s.order s.deepest prev f known in
      let same = merged-id prev a named in
      subst (λ (t : Reading). Filed t.order t.deepest) (sym (added_again s a prev known))
        (subst (λ id. Filed s.order (insert id (merged prev a) s.deepest)) same
          (insert-Filed (merged prev a) s.order s.deepest
            (subst (λ id. contains id s.order ≡ true) (sym same) listed) f))
]

-- The new finding is covered.
pub add_advisory-Covers :
    (s : Reading) (a : Advisory) (f : StreamFinding)
    → Filed s.order s.deepest
    → a.id ≡ f.osv
    → a.fixed_version ≡ f.fixed_version
    → Covers (add_advisory s a) f
add_advisory-Covers s a f filed named fix = elim (Option-cases (lookup a.id s.deepest)) [
  | inl new ↦
      subst (λ t. Covers t f) (sym (added_newly s a new))
        (
          a,
          ground (arith, lookup-insert a.id f.osv a s.deepest, string_eq.beq_iff a.id f.osv),
          λ h. sym fix ∙ h,
          ground (arith, contains-snoc f.osv a.id s.order, string_eq.beq_iff a.id f.osv),
        )
  | inr (prev, known) ↦
      subst (λ t. Covers t f) (sym (added_again s a prev known))
        (
          merged prev a,
          ground (
            arith,
            lookup-insert a.id f.osv (merged prev a) s.deepest,
            string_eq.beq_iff a.id f.osv,
          ),
          λ h. sym fix ∙ (merged-fix prev a h).1,
          subst (λ id. contains id s.order ≡ true) named
              (lookup-Filed a.id s.order s.deepest prev filed known).1,
        )
]

-- What was covered stays so.
pub add_advisory-keeps :
    (s : Reading) (a : Advisory) (f : StreamFinding) → Covers s f → Covers (add_advisory s a) f
add_advisory-keeps s a f (b, here, fix, listed) = elim (Option-cases (lookup a.id s.deepest)) [
  | inl new ↦
      subst (λ t. Covers t f) (sym (added_newly s a new))
        (
          b,
          ground (arith, lookup-insert a.id f.osv a s.deepest, string_eq.beq_iff a.id f.osv),
          fix,
          ground (arith, contains-snoc f.osv a.id s.order),
        )
  | inr (prev, known) ↦
      subst (λ t. Covers t f) (sym (added_again s a prev known))
        (elim (Bool-cases (a.id == f.osv)) [
          | inl this ↦
              let is = (string_eq.beq_iff a.id f.osv).0 this in
              (
                merged prev a,
                ground (arith, lookup-insert a.id f.osv (merged prev a) s.deepest),
                λ h. fix (ground (arith, merged-fix prev a h)),
                listed,
              )
          | inr that ↦
              (b, ground (arith, lookup-insert a.id f.osv (merged prev a) s.deepest), fix, listed)
        ])
]
