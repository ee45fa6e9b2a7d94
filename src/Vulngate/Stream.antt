-- ===== src/Vulngate/Stream.antt =====
-- internal/vulngate/report.go: the loop over the stream loses no finding.
use tracker.Base.{
  int_eq, ◌≡◌, arith, refl, sym, subst, Option, none, some, List, [], ◌∷◌, All, string_eq,
  Option-cases, inl, inr, ◌⊎◌,
}
use tracker.Vulngate.{
  StreamMessage, Decoded, decoded, undecodable, StreamFinding, read_message, Advisory, Read, read,
  refused, ReportError, advisory_of, Reading, add_advisory, read_stream,
}
use tracker.Vulngate.Merged.{
  Filed, Covers, advisory_of-read, add_advisory-Filed, add_advisory-Covers, add_advisory-keeps,
}

-- The finding of an object that sets neither a configuration nor an advisory record.
abbrev found : StreamMessage → Option StreamFinding
found m = elim m.config [ some c ↦ none | none ↦ elim m.osv [ some o ↦ none | none ↦ m.finding ] ]

abbrev added : Option StreamFinding → List StreamFinding → List StreamFinding
added none fs = fs
added (some f) fs = f ∷ fs

-- The findings of a stream.
abbrev pub findings : List Decoded → List StreamFinding
findings [] = []
findings (undecodable ∷ rest) = findings rest
findings (decoded m ∷ rest) = added (found m) (findings rest)

All-added :
    (P : StreamFinding → Type 0) (o : Option StreamFinding) (fs : List StreamFinding)
    → ((f : StreamFinding) → o ≡ some f → P f)
    → All P fs
    → All P (added o fs)
All-added P none fs here there = there
All-added P (some f) fs here there = (here f refl, there)

pub Read-cases :
    {A : Type 0} (r : Read A) → ((a : A) × (r ≡ read a)) ⊎ ((e : ReportError) × (r ≡ refused e))
Read-cases (read a) = inl (a, refl)
Read-cases (refused e) = inr (e, refl)

-- An object that is read has a finding, which is added, or leaves the advisories alone.
read_message-cases :
    (s t : Reading) (m : StreamMessage)
    → read_message s m ≡ read t
    → ((found m ≡ none) × (t.deepest ≡ s.deepest) × (t.order ≡ s.order))
      ⊎ ((f : StreamFinding) × (a : Advisory) × (found m ≡ some f)
          × (advisory_of f ≡ read a)
          × (t ≡ add_advisory s a))
unfolding read_message
read_message-cases s t m h = elim (Option-cases m.config) [
  | inr (c, set) ↦ inl (ground arith, ground arith, ground arith)
  | inl unset ↦ elim (Option-cases m.osv) [
    | inr (o, set) ↦ inl (ground arith, ground arith, ground arith)
    | inl unset' ↦ elim (Option-cases m.finding) [
      | inl no_finding ↦ inl (ground arith, ground arith, ground arith)
      | inr (f, set) ↦ elim (Read-cases (advisory_of f)) [
        | inr (e, bad) ↦ ground arith
        | inl (a, good) ↦ inr (f, a, ground arith, good, ground arith)
      ]
    ]
  ]
]

-- A stream that was read to its end has read the object that it starts with.
first_read :
    (s left : Reading) (m : StreamMessage) (rest : List Decoded)
    → read_stream s (decoded m ∷ rest) ≡ read left
    → (t : Reading) × (read_message s m ≡ read t) × (read_stream t rest ≡ read left)
unfolding read_stream
first_read s left m rest h = elim (Read-cases (read_message s m)) [
  | inr (e, bad) ↦ ground arith
  | inl (t, good) ↦ (t, good, ground arith)
]

Covers-same :
    (s t : Reading) (f : StreamFinding)
    → t.deepest ≡ s.deepest
    → t.order ≡ s.order
    → Covers s f
    → Covers t f
Covers-same s t f deepest order c = rw (deepest, order) c

read_message-keeps :
    (s t : Reading) (m : StreamMessage) (f : StreamFinding)
    → read_message s m ≡ read t
    → Covers s f
    → Covers t f
read_message-keeps s t m f h c = elim (read_message-cases s t m h) [
  | inl (no_finding, deepest, order) ↦ Covers-same s t f deepest order c
  | inr (g, a, is, good, same) ↦ subst (λ t. Covers t f) (sym same) (add_advisory-keeps s a f c)
]

read_message-Filed :
    (s t : Reading) (m : StreamMessage)
    → read_message s m ≡ read t
    → Filed s.order s.deepest
    → Filed t.order t.deepest
read_message-Filed s t m h filed = elim (read_message-cases s t m h) [
  | inl (no_finding, deepest, order) ↦ rw (deepest, order) filed
  | inr (g, a, is, good, same) ↦
      subst (λ (t : Reading). Filed t.order t.deepest) (sym same) (add_advisory-Filed s a filed)
]

read_message-Covers :
    (s t : Reading) (m : StreamMessage) (f : StreamFinding)
    → read_message s m ≡ read t
    → Filed s.order s.deepest
    → found m ≡ some f
    → Covers t f
read_message-Covers s t m f h filed has = elim (read_message-cases s t m h) [
  | inl (no_finding, deepest, order) ↦ ground arith
  | inr (g, a, is, good, same) ↦
      let this : g ≡ f = ground arith in
      let (named, fix, matches) = advisory_of-read g a good in
      subst (λ t. Covers t f) (sym same)
        (subst (Covers (add_advisory s a)) this (add_advisory-Covers s a g filed named fix))
]

read_stream-keeps :
    (s left : Reading) (ms : List Decoded) (f : StreamFinding)
    → read_stream s ms ≡ read left
    → Covers s f
    → Covers left f
unfolding read_stream
read_stream-keeps s left [] f h c =
    let same : s ≡ left = ground arith in subst (λ t. Covers t f) same c
read_stream-keeps s left (undecodable ∷ rest) f h c = ground arith
read_stream-keeps s left (decoded m ∷ rest) f h c =
    let (t, good, later) = first_read s left m rest h in
    read_stream-keeps t left rest f later (read_message-keeps s t m f good c)

pub read_stream-Covers :
    (s left : Reading) (ms : List Decoded)
    → Filed s.order s.deepest
    → read_stream s ms ≡ read left
    → All (Covers left) (findings ms) × Filed left.order left.deepest
unfolding read_stream
read_stream-Covers s left [] filed h =
    let same : s ≡ left = ground arith in
    (tt, subst (λ (t : Reading). Filed t.order t.deepest) same filed)
read_stream-Covers s left (undecodable ∷ rest) filed h = ground arith
read_stream-Covers s left (decoded m ∷ rest) filed h =
    let (t, good, later) = first_read s left m rest h in
    let (others, end) =
      read_stream-Covers t left rest (read_message-Filed s t m good filed) later in
    (
      All-added (Covers left) (found m) (findings rest)
          (λ f has.
            read_stream-keeps t left rest f later (read_message-Covers s t m f good filed has))
          others,
      end,
    )
