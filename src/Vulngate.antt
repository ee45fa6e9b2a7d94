-- ===== src/Vulngate.antt =====
-- internal/vulngate: the gate on known vulnerabilities, which reads the report of govulncheck and the
-- recorded suppressions. The decoders are outside: the stream is the list of what the decoder gives and the
-- suppression file the list of its YAML nodes. What is only printed (traces, the texts of problems) is
-- left out; a problem holds what it names. `trim_space` is strings.TrimSpace, `is_iso_date` time.Parse
-- of a date, `str_lt` the order of sort.Strings.
pub mod Verdict
pub mod Merged
pub mod Stream
pub mod Covered
pub mod Suppressions
pub mod Records
use tracker.Base.{
  ℕ, zero, suc, ◌≡◌, Bool, true, false, ◌&&◌, ◌||◌, not, String, Option, none, some, List, [], ◌∷◌,
  ◌++◌, map, keep, length, if◌then◌else◌, ◌==◌, string_eq, nat_eq, int_eq, ltb, contains, is_some,
  ℤ, pos,
}
use tracker.Base.Dict.{lookup, insert}
use tracker.Base.Sort.{slice_stable}
use tracker.Config.ParseInt.{codes, is_digit}

pub data Level : Type 0 where
  level_module level_package level_symbol : Level

abbrev pub depth : Level → ℕ
depth level_module = 0
depth level_package = 1
depth level_symbol = 2

pub record Frame : Type 0 where
  pub module_path : String
  pub version : String
  pub package_path : String
  pub function : String

pub record StreamFinding : Type 0 where
  pub osv : String
  pub fixed_version : String
  pub trace : List Frame

pub record StreamConfig : Type 0 where
  pub scanner_name : String
  pub scan_level : String
  pub scan_mode : String

pub record StreamOsv : Type 0 where
  pub id : String
  pub summary : String

-- One object of the stream. The decoder lets an object set several of its fields, or none.
pub record StreamMessage : Type 0 where
  pub config : Option StreamConfig
  pub osv : Option StreamOsv
  pub finding : Option StreamFinding

-- What a call of the decoder gives: an object, or an error.
pub data Decoded : Type 0 where
  decoded : StreamMessage → Decoded
  undecodable : Decoded

pub record Advisory : Type 0 where
  pub id : String
  pub level : Level
  pub module_path : String
  pub version : String
  pub fixed_version : String
  pub summary : String

pub record Entry : Type 0 where
  pub id : String
  pub reason : String
  pub reachability : String
  pub recorded : String

pub data ReportError : Type 0 where
  not_json no_config : ReportError
  bad_id empty_trace wrong_scanner wrong_level wrong_mode : String → ReportError

abbrev pub exit_report_produced : ℤ
exit_report_produced = pos 0

abbrev pub scanner_name : String
scanner_name = "govulncheck"

abbrev pub want_scan_level : String
want_scan_level = "symbol"

abbrev pub want_scan_mode : String
want_scan_mode = "source"

abbrev pub has_fix : Advisory → Bool
has_fix a = not (a.fixed_version == "")

abbrev all_digits : List ℕ → Bool
all_digits [] = true
all_digits (c ∷ cs) = is_digit c && all_digits cs

-- ^GO-[0-9]{4}-[0-9]+$
unfoldable pub is_advisory_id : List ℕ → Bool
is_advisory_id (g ∷ o ∷ dash ∷ a ∷ b ∷ c ∷ d ∷ dash' ∷ n ∷ ns) =
    g == b'G'
    && o == b'O'
    && dash == b'-'
    && is_digit a
    && is_digit b
    && is_digit c
    && is_digit d
    && dash' == b'-'
    && is_digit n
    && all_digits ns
is_advisory_id _ = false

abbrev pub first_non_empty : String → String → String
first_non_empty a b = if not (a == "") then a else b

abbrev pub deeper : Level → Level → Level
deeper a b = if ltb (depth b) (depth a) then a else b

unfoldable pub level_of : Level → List Frame → Level
level_of level [] = level
level_of level (f ∷ rest) =
    if not (f.function == "")
    then level_of (deeper level_symbol level) rest
    else if not (f.package_path == "")
    then level_of (deeper level_package level) rest
    else level_of level rest

pub data Read (A : Type 0) : Type 0 where
  read : A → Read A
  refused : ReportError → Read A

unfoldable pub advisory_of : StreamFinding → Read Advisory
advisory_of f =
    if not (is_advisory_id (codes f.osv)) then refused (bad_id f.osv) else elim f.trace [
      | [] ↦ refused (empty_trace f.osv)
      | vulnerable ∷ rest ↦ read (record {
        id = f.osv;
        level = level_of level_module f.trace;
        module_path = vulnerable.module_path;
        version = first_non_empty vulnerable.version "(no version)";
        fixed_version = f.fixed_version;
        summary = "";
      })
    ]

-- The variables of ParseReport's loop.
pub record Reading : Type 0 where
  pub cfg : Option StreamConfig
  pub summaries : List (String × String)
  pub deepest : List (String × Advisory)
  pub order : List String

-- The deepest finding of an advisory is kept, and a fix wherever one was named.
unfoldable pub merged : Advisory → Advisory → Advisory
merged prev a =
    if ltb (depth prev.level) (depth a.level)
    then (if a.fixed_version == "" then record a { fixed_version = prev.fixed_version } else a)
    else if prev.fixed_version == "" && not (a.fixed_version == "")
    then record prev { fixed_version = a.fixed_version }
    else prev

unfoldable pub add_advisory : Reading → Advisory → Reading
add_advisory s a = elim (lookup a.id s.deepest) [
  | none ↦ record s { order = s.order ++ a.id ∷ []; deepest = insert a.id a s.deepest }
  | some prev ↦ record s { deepest = insert a.id (merged prev a) s.deepest }
]

-- The switch of the loop's body: the first of the three fields that is set.
unfoldable pub read_message : Reading → StreamMessage → Read Reading
read_message s m = elim m.config [
  | some c ↦ read (record s { cfg = some c })
  | none ↦ elim m.osv [
    | some o ↦ read (record s { summaries = insert o.id o.summary s.summaries })
    | none ↦ elim m.finding [
      | none ↦ read s
      | some f ↦ elim (advisory_of f) [ refused e ↦ refused e | read a ↦ read (add_advisory s a) ]
    ]
  ]
]

unfoldable pub read_stream : Reading → List Decoded → Read Reading
read_stream s [] = read s
read_stream s (undecodable ∷ rest) = refused not_json
read_stream s (decoded m ∷ rest) = elim (read_message s m) [
  | refused e ↦ refused e
  | read t ↦ read_stream t rest
]

abbrev pub start : Reading
start = record { cfg = none; summaries = []; deepest = []; order = [] }

-- A read of a missing key is the zero value.
abbrev pub reported_as : Reading → String → Advisory
reported_as s id =
    let summary : String = elim (lookup id s.summaries) [ none ↦ "" | some t ↦ t ] in
    elim (lookup id s.deepest) [
      | none ↦ record {
        id = "";
        level = level_module;
        module_path = "";
        version = "";
        fixed_version = "";
        summary = summary;
      }
      | some a ↦ record a { summary = summary }
    ]

unfoldable pub check_config : Option StreamConfig → Option ReportError
check_config none = some no_config
check_config (some c) =
    if not (c.scanner_name == scanner_name)
    then some (wrong_scanner c.scanner_name)
    else if not (c.scan_level == want_scan_level)
    then some (wrong_level c.scan_level)
    else if not (c.scan_mode == want_scan_mode)
    then some (wrong_mode c.scan_mode)
    else none

-- The verdict: nothing is a problem, or what is named is.
pub data Problem : Type 0 where
  unrecorded fixable : List Advisory → Problem
  stale : List Entry → Problem

abbrev pub entry_ids : List Entry → List String
entry_ids entries = map (λ e. e.id) entries

abbrev pub advisory_ids : List Advisory → List String
advisory_ids advisories = map (λ a. a.id) advisories

abbrev pub unless_empty : {A : Type 0} → (List A → Problem) → List A → List Problem
unless_empty p [] = []
unless_empty p (x ∷ xs) = p (x ∷ xs) ∷ []

unfoldable pub evaluate : List Advisory → List Entry → List Problem
evaluate reported entries =
    unless_empty unrecorded (keep (λ a. not (contains a.id (entry_ids entries))) reported)
    ++ unless_empty fixable (keep (λ a. contains a.id (entry_ids entries) && has_fix a) reported)
    ++ unless_empty stale (keep (λ e. not (contains e.id (advisory_ids reported))) entries)

-- What the gate's run of the tool gives.
pub record Result : Type 0 where
  pub stdout : List Decoded
  pub exit_code : ℤ

pub data Outcome : Type 0 where
  passed : Outcome
  bad_suppressions could_not_run : Outcome
  bad_exit : ℤ → Outcome
  unreadable : ReportError → Outcome
  failed : List Problem → Outcome

abbrev pub verdict : List Problem → Outcome
verdict [] = passed
verdict (p ∷ ps) = failed (p ∷ ps)

module _ (str_lt : String → String → Bool) where
  unfoldable pub parse_report : List Decoded → Read (List Advisory)
  parse_report messages = elim (read_stream start messages) [
    | refused e ↦ refused e
    | read s ↦ elim (check_config s.cfg) [
      | some e ↦ refused e
      | none ↦ read (map (reported_as s) (slice_stable str_lt s.order))
    ]
  ]

  unfoldable pub check : Option (List Entry) → Option Result → Outcome
  check entries result = elim entries [
    | none ↦ bad_suppressions
    | some recorded ↦ elim result [
      | none ↦ could_not_run
      | some res ↦
          if not (res.exit_code == exit_report_produced)
          then bad_exit res.exit_code
          else elim (parse_report res.stdout) [
            | refused e ↦ unreadable e
            | read advisories ↦ verdict (evaluate advisories recorded)
          ]
    ]
  ]
