-- ===== src/Vulngate/Covered.antt =====
-- internal/vulngate/report.go and gate.go: no finding of the stream is lost before the verdict.
use tracker.Base.{
  pos, int_eq, ◌≡◌, arith, refl, sym, subst, Bool, true, String, Option, none, some, List, [], ◌∷◌,
  map, All, ◌==◌, string_eq, contains, ◌∙◌, Bool-cases, inl, inr,
}
use tracker.Base.Sort.{slice_stable, insert_stable}
use tracker.Vulngate.{
  Decoded, StreamFinding, Advisory, Entry, read, Reading, read_stream, start, entry_ids,
  reported_as, check_config, parse_report, Result, passed, verdict, evaluate, check, Problem,
}
use tracker.Vulngate.Verdict.{Carried, evaluate_iff}
use tracker.Vulngate.Merged.{Filed, lookup-Filed, Covers}
use tracker.Vulngate.Stream.{findings, Read-cases, read_stream-Covers}

module _ (str_lt : String → String → Bool) where
  contains-insert_stable :
      (k x : String) (xs : List String)
      → contains k (insert_stable str_lt x xs) ≡ contains k (x ∷ xs)
  unfolding insert_stable contains
  contains-insert_stable k x [] = refl
  contains-insert_stable k x (y ∷ ys) = ground (arith, contains-insert_stable k x ys)

  contains-slice_stable :
      (k : String) (xs : List String) → contains k (slice_stable str_lt xs) ≡ contains k xs
  unfolding slice_stable contains
  contains-slice_stable k [] = refl
  contains-slice_stable k (x ∷ xs) =
      ground
        (arith, contains-insert_stable k x (slice_stable str_lt xs), contains-slice_stable k xs)

All-map-contains :
    (P : Advisory → Type 0) (g : String → Advisory) (ids : List String) (k : String)
    → All P (map g ids)
    → contains k ids ≡ true
    → P (g k)
unfolding contains
All-map-contains P g [] k h c = ground arith
All-map-contains P g (i ∷ ids) k h c = elim (Bool-cases (i == k)) [
  | inl this ↦ subst (λ z. P (g z)) ((string_eq.beq_iff i k).0 this) h.0
  | inr that ↦ All-map-contains P g ids k h.1 (ground arith)
]

-- The finding is recorded, and names no fix.
abbrev pub Accepted : List Entry → StreamFinding → Type 0
Accepted entries f = (contains f.osv (entry_ids entries) ≡ true) × (f.fixed_version ≡ "")

reported-Accepted :
    (s : Reading) (entries : List Entry) (f : StreamFinding)
    → Filed s.order s.deepest
    → Covers s f
    → Carried entries (reported_as s f.osv)
    → Accepted entries f
reported-Accepted s entries f filed (a, here, fix, listed) c =
    let (named, known) = lookup-Filed f.osv s.order s.deepest a filed here in
    let is : (reported_as s f.osv).id ≡ a.id = ground arith in
    let fixed : (reported_as s f.osv).fixed_version ≡ a.fixed_version = ground arith in
    (subst (λ id. contains id (entry_ids entries) ≡ true) (is ∙ named) c.0, fix (sym fixed ∙ c.1))

findings-Accepted :
    (s : Reading) (entries : List Entry) (fs : List StreamFinding)
    (reported : (id : String) → contains id s.order ≡ true → Carried entries (reported_as s id))
    → Filed s.order s.deepest
    → All (Covers s) fs
    → All (Accepted entries) fs
findings-Accepted s entries [] reported filed h = tt
findings-Accepted s entries (f ∷ fs) reported filed h = (
  reported-Accepted s entries f filed h.0 (reported f.osv h.0.3),
  findings-Accepted s entries fs reported filed h.1,
)

-- The run of the tool asked for the deepest scan, and its stream was read to the end.
module _ (str_lt : String → String → Bool) where
  parsed :
      (ms : List Decoded) (advisories : List Advisory)
      → parse_report str_lt ms ≡ read advisories
      → (s : Reading) × (read_stream start ms ≡ read s)
        × (check_config s.cfg ≡ none)
        × (advisories ≡ map (reported_as s) (slice_stable str_lt s.order))
  unfolding parse_report
  parsed ms advisories h = elim (Read-cases (read_stream start ms)) [
    | inr (e, bad) ↦ ground arith
    | inl (s, good) ↦ (s, good, ground arith, ground arith)
  ]

  verdict-passed : (problems : List Problem) → verdict problems ≡ passed → problems ≡ []
  verdict-passed [] h = refl
  verdict-passed (p ∷ ps) h = ground arith

  report-Accepted :
      (ms : List Decoded) (advisories : List Advisory) (entries : List Entry)
      → parse_report str_lt ms ≡ read advisories
      → evaluate advisories entries ≡ []
      → All (Accepted entries) (findings ms)
  report-Accepted ms advisories entries h none_left =
      let (s, whole, configured, same) = parsed ms advisories h in
      let (covered, filed) = read_stream-Covers start s ms tt whole in
      let carried =
        subst (All (Carried entries)) same ((evaluate_iff advisories entries).0 none_left).0 in
      findings-Accepted s entries (findings ms)
        (λ id listed.
          All-map-contains (Carried entries) (reported_as s) (slice_stable str_lt s.order) id
            carried (contains-slice_stable str_lt id s.order ∙ listed))
        filed covered

  -- If the gate passes, then the suppressions were read and the tool ran and exited with 0, and
  -- every finding of its stream that stands in an object with neither a configuration nor an
  -- advisory record, of a symbol, a package or a module, has an id that is recorded and names no
  -- fix.
  pub check-Accepted :
      (entries : Option (List Entry)) (result : Option Result)
      → check str_lt entries result ≡ passed
      → (recorded : List Entry) × (res : Result) × (entries ≡ some recorded)
        × (result ≡ some res)
        × (res.exit_code ≡ pos 0)
        × All (Accepted recorded) (findings res.stdout)
  unfolding check
  check-Accepted none result h = ground arith
  check-Accepted (some recorded) none h = ground arith
  check-Accepted (some recorded) (some res) h = elim (Read-cases (parse_report str_lt res.stdout)) [
    | inr (e, bad) ↦ ground arith
    | inl (advisories, good) ↦ (
      recorded,
      res,
      refl,
      refl,
      ground (arith, int_eq.beq_iff res.exit_code (pos 0)),
      report-Accepted res.stdout advisories recorded good
          (verdict-passed (evaluate advisories recorded) (ground arith)),
    )
  ]
