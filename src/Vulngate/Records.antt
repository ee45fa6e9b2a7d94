-- ===== src/Vulngate/Records.antt =====
-- internal/vulngate/suppressions.go: what the records of an accepted file are.
use tracker.Base.{
  ℕ, suc, ◌≡◌, ◌≢◌, ◌↔◌, arith, refl, Bool, true, false, ◌&&◌, not, String, none, List, [], ◌∷◌,
  ◌++◌, keep, ◌==◌, string_eq, contains, length, All, Unique, subst, sym, Bool-cases, inl, inr, ◌⊎◌,
}
use tracker.Base.Dict.{lookup, insert, has, lookup-insert}
use tracker.Config.ParseInt.{codes}
use tracker.Vulngate.{Entry, is_advisory_id, entry_ids}
use tracker.Vulngate.Suppressions.{
  Node, not_mapping, undecoded, mapping, RecordProblem, recorded, required_keys, if_any, Loop,
  text_of, missing, blank, unknown, entry_problems, entry_of, read_nodes, parse_suppressions,
  missing_keys, empty_keys, unknown_keys, wrong_id, wrong_date, repeated,
}

append-nil_iff : (xs ys : List RecordProblem) → (xs ++ ys ≡ []) ↔ ((xs ≡ []) × (ys ≡ []))
append-nil_iff [] ys = ground arith
append-nil_iff (x ∷ xs) ys = ground arith

List-cases : {A : Type 0} (xs : List A) → (xs ≡ []) ⊎ ((x : A) × (rest : List A) × (xs ≡ x ∷ rest))
List-cases [] = inl refl
List-cases (x ∷ rest) = inr (x, rest, refl)

six-nil :
    (a b c d e f : List RecordProblem)
    → a ++ b ++ c ++ d ++ e ++ f ≡ []
    → (a ≡ []) × (b ≡ []) × (c ≡ []) × (d ≡ []) × (e ≡ []) × (f ≡ [])
six-nil a b c d e f h = ground (
  arith,
  append-nil_iff a b,
  append-nil_iff (a ++ b) c,
  append-nil_iff (a ++ b ++ c) d,
  append-nil_iff (a ++ b ++ c ++ d) e,
  append-nil_iff (a ++ b ++ c ++ d ++ e) f,
)

if_any-nil : (p : List String → RecordProblem) (xs : List String) → (if_any p xs ≡ []) ↔ (xs ≡ [])
if_any-nil p [] = ground arith
if_any-nil p (x ∷ xs) = ground arith

module _ (trim_space : String → String) (is_iso_date : String → Bool) where
  -- An id of govulncheck's form, two arguments that are not blank, and a date.
  abbrev pub WellFormed : Entry → Type 0
  WellFormed e =
      (is_advisory_id (codes e.id) ≡ true)
      × (e.reason ≢ "")
      × (e.reachability ≢ "")
      × (is_iso_date e.recorded ≡ true)

  -- A key that is neither missing nor blank has a text.
  keep-text :
      (fields : List (String × String)) (key : String) (ks : List String)
      → keep (λ k. not (has k fields)) ks ≡ []
      → keep (λ k. has k fields && text_of trim_space is_iso_date k fields == "") ks ≡ []
      → contains key ks ≡ true
      → text_of trim_space is_iso_date key fields ≢ ""
  unfolding contains
  keep-text fields key [] m b c = ground arith
  keep-text fields key (k ∷ ks) m b c = elim (Bool-cases (k == key)) [
    | inr that ↦ keep-text fields key ks (ground arith) (ground arith) (ground arith)
    | inl this ↦
        subst (λ z. text_of trim_space is_iso_date z fields ≢ "") ((string_eq.beq_iff k key).0 this)
          (ground (arith, string_eq.beq_iff (text_of trim_space is_iso_date k fields) ""))
  ]

  entry_problems-nil :
      (i : ℕ) (seen : List (String × ℕ)) (fields : List (String × String))
      → entry_problems trim_space is_iso_date i seen fields ≡ []
      → WellFormed (entry_of trim_space is_iso_date fields)
        × (lookup (text_of trim_space is_iso_date "id" fields) seen ≡ none)
        × (text_of trim_space is_iso_date "id" fields ≢ "")
  unfolding entry_problems contains
  entry_problems-nil i seen fields h =
      let (gone, empty, strange, odd, late, again) =
        six-nil (if_any (missing_keys i) (missing trim_space is_iso_date fields))
          (if_any (empty_keys i) (blank trim_space is_iso_date fields))
          (if_any (unknown_keys i) (unknown trim_space is_iso_date fields))
          (wrong_id trim_space is_iso_date i (text_of trim_space is_iso_date "id" fields))
          (wrong_date trim_space is_iso_date i (text_of trim_space is_iso_date "recorded" fields))
          (repeated trim_space is_iso_date i seen (text_of trim_space is_iso_date "id" fields)) h in
      let none_gone =
        (if_any-nil (missing_keys i) (missing trim_space is_iso_date fields)).0 gone in
      let none_empty = (if_any-nil (empty_keys i) (blank trim_space is_iso_date fields)).0 empty in
      let id = keep-text fields "id" required_keys none_gone none_empty (refl) in
      let reason = keep-text fields "reason" required_keys none_gone none_empty (refl) in
      let reach = keep-text fields "reachability" required_keys none_gone none_empty (refl) in
      let date = keep-text fields "recorded" required_keys none_gone none_empty (refl) in
      let beq_id = string_eq.beq_iff (text_of trim_space is_iso_date "id" fields) "" in
      let beq_date = string_eq.beq_iff (text_of trim_space is_iso_date "recorded" fields) "" in
      (
        (ground (arith, beq_id), reason, reach, ground (arith, beq_date)),
        ground (arith, beq_id),
        id,
      )

  -- No two entries share an id, and none has an id that was seen before.
  abbrev pub Fresh : List (String × ℕ) → List Entry → Type 0
  Fresh seen entries = All (λ e. lookup e.id seen ≡ none) entries × Unique (entry_ids entries)

  -- An id that has been seen is in no later entry.
  fresh_after :
      (id : String) (i : ℕ) (seen : List (String × ℕ)) (entries : List Entry)
      → All (λ e. lookup e.id (insert id i seen) ≡ none) entries
      → (contains id (entry_ids entries) ≡ false) × All (λ e. lookup e.id seen ≡ none) entries
  unfolding contains
  fresh_after id i seen [] h = (refl, tt)
  fresh_after id i seen (e ∷ entries) h = ground (
    arith,
    fresh_after id i seen entries h.1,
    lookup-insert id e.id i seen,
    string_eq.beq_iff id e.id,
    string_eq.beq_iff e.id id,
  )

  clean_first :
      (i : ℕ) (seen : List (String × ℕ)) (fields : List (String × String)) (nodes : List Node)
      → (read_nodes trim_space is_iso_date i seen (mapping fields ∷ nodes)).problems ≡ []
      → entry_problems trim_space is_iso_date i seen fields ≡ []
  unfolding read_nodes
  clean_first i seen fields nodes h =
      elim (List-cases (entry_problems trim_space is_iso_date i seen fields)) [
        | inl clean ↦ clean
        | inr (p, ps, bad) ↦ ground arith
      ]

  -- The rest of the loop, past an entry without a problem.
  clean_rest :
      (i : ℕ) (seen : List (String × ℕ)) (fields : List (String × String)) (nodes : List Node)
      → entry_problems trim_space is_iso_date i seen fields ≡ []
      → lookup (text_of trim_space is_iso_date "id" fields) seen ≡ none
      → text_of trim_space is_iso_date "id" fields ≢ ""
      → let rest =
          read_nodes trim_space is_iso_date
            (suc i)
            (insert (text_of trim_space is_iso_date "id" fields) i seen)
            nodes in
        read_nodes trim_space is_iso_date i seen (mapping fields ∷ nodes)
        ≡ record rest { entries = entry_of trim_space is_iso_date fields ∷ rest.entries }
  unfolding read_nodes
  clean_rest i seen fields nodes clean new some_id =
      ground (arith, string_eq.beq_iff (text_of trim_space is_iso_date "id" fields) "")

  -- What the loop over these nodes has collected.
  abbrev pub Collected : List (String × ℕ) → List Node → Loop → Type 0
  Collected seen nodes l =
      Fresh seen l.entries × All WellFormed l.entries × (length l.entries ≡ length nodes)

  one_more :
      (i : ℕ) (seen : List (String × ℕ)) (nodes : List Node) (node : Node) (rest : Loop) (e : Entry)
      → WellFormed e
      → lookup e.id seen ≡ none
      → Collected (insert e.id i seen) nodes rest
      → Collected seen (node ∷ nodes) (record rest { entries = e ∷ rest.entries })
  one_more i seen nodes node rest e good new ((fresh, unique), all, count) =
      let (alone, old) = fresh_after e.id i seen rest.entries fresh in
      (((new, old), (alone, unique)), (good, all), omega (arith, count))

  read_nodes-Collected :
      (i : ℕ) (seen : List (String × ℕ)) (nodes : List Node)
      → (read_nodes trim_space is_iso_date i seen nodes).problems ≡ []
      → Collected seen nodes (read_nodes trim_space is_iso_date i seen nodes)
  unfolding read_nodes
  read_nodes-Collected i seen [] h = ((tt, tt), tt, refl)
  read_nodes-Collected i seen (not_mapping ∷ nodes) h = ground arith
  read_nodes-Collected i seen (undecoded ∷ nodes) h = ground arith
  read_nodes-Collected i seen (mapping fields ∷ nodes) h =
      let e = entry_of trim_space is_iso_date fields in
      let clean = clean_first i seen fields nodes h in
      let (good, new, some_id) = entry_problems-nil i seen fields clean in
      let same = clean_rest i seen fields nodes clean new some_id in
      let rest = read_nodes trim_space is_iso_date (suc i) (insert e.id i seen) nodes in
      subst (Collected seen (mapping fields ∷ nodes)) (sym same) (
        one_more i seen nodes (mapping fields) rest e good new (
          read_nodes-Collected (suc i) (insert e.id i seen) nodes
            (subst (λ (l : Loop). l.problems ≡ []) same h)))

  -- If the suppression file is accepted, then it has one entry for each of its nodes, no two
  -- entries share an id, and each has an id of the form of an advisory's, a reason and a
  -- reachability that are not blank, and a date.
  pub parse_suppressions-WellFormed :
      (nodes : List Node) (entries : List Entry)
      → parse_suppressions trim_space is_iso_date nodes ≡ recorded entries
      → All WellFormed entries × Unique (entry_ids entries) × (length entries ≡ length nodes)
  unfolding parse_suppressions
  parse_suppressions-WellFormed nodes entries h =
      let loop = read_nodes trim_space is_iso_date 1 [] nodes in
      elim (List-cases loop.problems) [
        | inr (p, ps, bad) ↦ ground arith
        | inl clean ↦
            let same : loop.entries ≡ entries = ground arith in
            let (fresh, all, count) = read_nodes-Collected 1 [] nodes clean in
            subst (λ es. All WellFormed es × Unique (entry_ids es) × (length es ≡ length nodes))
              same (all, fresh.1, count)
      ]
