-- ===== src/Vulngate/Suppressions.antt =====
-- internal/vulngate/suppressions.go: the records that the suppression file holds. A YAML node is a
-- mapping with its fields, or what the decoder makes of it instead; `trim_space` is strings.TrimSpace
-- and `is_iso_date` says whether time.Parse reads a date.
use tracker.Base.{
  ℕ, suc, Bool, true, false, ◌&&◌, ◌||◌, not, String, none, some, List, [], ◌∷◌, ◌++◌, map, keep,
  if◌then◌else◌, ◌==◌, string_eq, contains,
}
use tracker.Base.Dict.{lookup, insert, has}
use tracker.Config.ParseInt.{codes}
use tracker.Vulngate.{Entry, is_advisory_id}

pub data Node : Type 0 where
  not_mapping undecoded : Node
  mapping : List (String × String) → Node

-- What an entry is refused for, by its place in the file.
pub data RecordProblem : Type 0 where
  no_mapping not_decoded : ℕ → RecordProblem
  missing_keys empty_keys unknown_keys : ℕ → List String → RecordProblem
  bad_id bad_date : ℕ → String → RecordProblem
  duplicate : ℕ → ℕ → RecordProblem

pub data Recorded : Type 0 where
  recorded : List Entry → Recorded
  malformed : List RecordProblem → Recorded

abbrev pub required_keys : List String
required_keys = "id" ∷ "reason" ∷ "reachability" ∷ "recorded" ∷ []

unfoldable pub is_required_key : String → Bool
is_required_key key = contains key required_keys

-- A read of a missing key is the empty string.
abbrev pub field : String → List (String × String) → String
field key fields = elim (lookup key fields) [ none ↦ "" | some text ↦ text ]

abbrev pub if_any : (List String → RecordProblem) → List String → List RecordProblem
if_any p [] = []
if_any p (k ∷ ks) = p (k ∷ ks) ∷ []

abbrev pub when : Bool → RecordProblem → List RecordProblem
when true p = p ∷ []
when false p = []

-- The variables of the loop.
pub record Loop : Type 0 where
  pub problems : List RecordProblem
  pub entries : List Entry

abbrev pub with_problems : List RecordProblem → Loop → Loop
with_problems ps l = record l { problems = ps ++ l.problems }

module _ (trim_space : String → String) (is_iso_date : String → Bool) where
  abbrev pub text_of : String → List (String × String) → String
  text_of key fields = trim_space (field key fields)

  abbrev pub missing : List (String × String) → List String
  missing fields = keep (λ key. not (has key fields)) required_keys

  abbrev pub blank : List (String × String) → List String
  blank fields = keep (λ key. has key fields && text_of key fields == "") required_keys

  abbrev pub unknown : List (String × String) → List String
  unknown fields = keep (λ key. not (is_required_key key)) (map (λ f. f.0) fields)

  abbrev pub wrong_id : ℕ → String → List RecordProblem
  wrong_id i id = when (not (id == "") && not (is_advisory_id (codes id))) (bad_id i id)

  abbrev pub wrong_date : ℕ → String → List RecordProblem
  wrong_date i date = when (not (date == "") && not (is_iso_date date)) (bad_date i date)

  abbrev pub repeated : ℕ → List (String × ℕ) → String → List RecordProblem
  repeated i seen id =
      if id == ""
      then []
      else elim (lookup id seen) [ none ↦ [] | some first ↦ duplicate i first ∷ [] ]

  -- The problems of one mapping; `seen` has the ids of the entries before it, with their places.
  unfoldable pub entry_problems :
      ℕ → List (String × ℕ) → List (String × String) → List RecordProblem
  entry_problems i seen fields =
      if_any (missing_keys i) (missing fields)
      ++ if_any (empty_keys i) (blank fields)
      ++ if_any (unknown_keys i) (unknown fields)
      ++ wrong_id i (text_of "id" fields)
      ++ wrong_date i (text_of "recorded" fields)
      ++ repeated i seen (text_of "id" fields)

  abbrev pub seen_after : ℕ → List (String × ℕ) → List (String × String) → List (String × ℕ)
  seen_after i seen fields =
      let id = text_of "id" fields in if id == "" || has id seen then seen else insert id i seen

  abbrev pub entry_of : List (String × String) → Entry
  entry_of fields = record {
    id = text_of "id" fields;
    reason = text_of "reason" fields;
    reachability = text_of "reachability" fields;
    recorded = text_of "recorded" fields;
  }

  unfoldable pub read_nodes : ℕ → List (String × ℕ) → List Node → Loop
  read_nodes i seen [] = record { problems = []; entries = [] }
  read_nodes i seen (not_mapping ∷ nodes) =
      with_problems (no_mapping i ∷ []) (read_nodes (suc i) seen nodes)
  read_nodes i seen (undecoded ∷ nodes) =
      with_problems (not_decoded i ∷ []) (read_nodes (suc i) seen nodes)
  read_nodes i seen (mapping fields ∷ nodes) =
      let rest = read_nodes (suc i) (seen_after i seen fields) nodes in
      elim (entry_problems i seen fields) [
        | [] ↦ record rest { entries = entry_of fields ∷ rest.entries }
        | p ∷ ps ↦ with_problems (p ∷ ps) rest
      ]

  unfoldable pub parse_suppressions : List Node → Recorded
  parse_suppressions nodes =
      let loop = read_nodes 1 [] nodes in
      elim loop.problems [ [] ↦ recorded loop.entries | p ∷ ps ↦ malformed (p ∷ ps) ]
